-- ===== src/AddrSpace/Library.antt =====
-- src/addrSpace.cpp: the test of a path in isInLibrary.
use zofi.Base.{
  length-drop, sym, ◌+◌, ◌<◌, ◌==◌, ◌^◌, ◌↔◌, ◌⊎◌, Bool-cases, Option, Option-cases, [], ap, arith,
  drop, inl, inr, length, none, refl, some, some_inj, suc, true, zero, ℕ, ◌-◌, ◌∙◌, ◌∷◌, ◌≡◌, ◌≤◌,
}
use zofi.Utils.Text.{codes, Text, starts_with}
use zofi.AddrSpace.Mappings.{is_so, size_t, rfind_text}
use mathlib.Core.Path.{subst}

-- The text ends in the suffix.
abbrev pub EndsWith : Text → Text → Type 0
EndsWith s p = (length p ≤ length s) × (drop (length s - length p) s ≡ p)

starts_with-length : (s p : Text) → starts_with s p ≡ true → length p ≤ length s
unfolding starts_with
starts_with-length s [] h = omega arith
starts_with-length [] (c ∷ p) h = absurd (cc)
starts_with-length (d ∷ s) (c ∷ p) h = omega (arith, starts_with-length s p (ground arith))

starts_with-eq : (s p : Text) → starts_with s p ≡ true → length s ≡ length p → s ≡ p
unfolding starts_with
starts_with-eq [] [] h e = refl
starts_with-eq (d ∷ s) [] h e = absurd (omega arith)
starts_with-eq [] (c ∷ p) h e = absurd (cc)
starts_with-eq (d ∷ s) (c ∷ p) h e =
    let rest = starts_with-eq s p (ground arith) (omega arith) in
    let here : d ≡ c = ground arith in ap (λ x. x ∷ s) here ∙ ap (λ (t : Text). c ∷ t) rest

starts_with_refl : (p : Text) → starts_with p p ≡ true
unfolding starts_with
starts_with_refl [] = refl
starts_with_refl (c ∷ p) = ground (arith, starts_with_refl p)

-- The needle stands at a position.
abbrev Matches : Text → Text → ℕ → Type 0
Matches s p at = (starts_with (drop at s) p ≡ true) × (at ≤ length s)

none-some : {at : ℕ} → ◌≡◌ {A = Option ℕ} none (some at) → ⊥
none-some x = cc

-- What rfind gives is a match.
rfind_text-Matches : (s p : Text) (at : ℕ) → rfind_text s p ≡ some at → Matches s p at
unfolding rfind_text
rfind_text-Matches [] p at e = elim (Bool-cases (starts_with [] p)) [
  | inl hit ↦ subst (Matches [] p) (some_inj (rw hit at e)) (hit, omega arith)
  | inr miss ↦ absurd (none-some (rw miss at e))
]
rfind_text-Matches (c ∷ s) p at e = elim (Option-cases (rfind_text s p)) [
  | inl gone ↦ elim (Bool-cases (starts_with (c ∷ s) p)) [
    | inl hit ↦
        subst (Matches (c ∷ s) p) (some_inj (rw (gone, hit, rfind_text) at e)) (hit, omega arith)
    | inr miss ↦ absurd (none-some (rw (gone, miss, rfind_text) at e))
  ]
  | inr (later, found) ↦
      let there = rfind_text-Matches s p later found in
      subst (Matches (c ∷ s) p) (some_inj (rw (found, rfind_text) at e))
        (there.0, omega (arith, there.1))
]

-- And it is the last one.
rfind_text-last :
    (s p : Text) (k : ℕ)
    → starts_with (drop k s) p ≡ true
    → k ≤ length s
    → (at : ℕ) × (rfind_text s p ≡ some at) × (k ≤ at)
unfolding rfind_text
rfind_text-last [] p zero h le = (0, rw h refl, omega arith)
rfind_text-last [] p (suc k) h le = absurd (omega arith)
rfind_text-last (c ∷ s) p zero h le = elim (Option-cases (rfind_text s p)) [
  | inl gone ↦ (0, rw (gone, h, rfind_text) refl, omega arith)
  | inr (later, found) ↦ (suc later, rw (found, rfind_text) refl, omega arith)
]
rfind_text-last (c ∷ s) p (suc k) h le =
    let (at, found, above) = rfind_text-last s p k h (omega arith) in
    (suc at, rw (found, rfind_text) refl, omega arith)

abbrev dot_so : Text
dot_so = codes ".so"

EndsWith-last :
    (path : Text)
    → EndsWith path dot_so
    → (at : ℕ) × (rfind_text path dot_so ≡ some at) × (length path - 3 ≤ at)
EndsWith-last path h =
    rfind_text-last path dot_so (length path - 3) (rw h.1 (starts_with_refl dot_so)) (omega arith)

-- A path shorter than 2^63 counts as that of a library exactly when it ends in ".so" or is two bytes
-- long: then its size less three wraps to the npos that rfind gives.
is_so_iff :
    (path : Text)
    → length path < 2 ^ 63
    → (is_so path ≡ true) ↔ (EndsWith path dot_so ⊎ (length path ≡ 2))
unfolding is_so
is_so_iff path short = elim (Option-cases (rfind_text path dot_so)) [
  | inl gone ↦ (
    (λ h. inr (npos_size (length path) short (rw (gone, is_so) at h))),
    λ h. elim h [
      | inl suffix ↦
          let (at, found, _) = EndsWith-last path suffix in absurd (none-some (sym gone ∙ found))
      | inr two ↦ rw (gone, is_so) (rw two refl)
    ],
  )
  | inr (at, found) ↦
      let there = rfind_text-Matches path dot_so at found in
      let fits = starts_with-length (drop at path) dot_so there.0 in
      let size = length-drop at path in
      (
        (λ h.
            let last = at_size at (length path) short (omega arith) (rw (found, is_so) at h) in
            inl (
              omega arith,
              rw⁻¹ last (starts_with-eq (drop at path) dot_so there.0 (omega arith)),
            )),
        λ h. elim h [
          | inl suffix ↦
              let (at', found', above) = EndsWith-last path suffix in
              let same : at' ≡ at = some_inj (sym found' ∙ found) in
              rw (found, is_so) (size_at at (length path) short (omega arith) (omega arith))
          | inr two ↦ absurd (omega arith)
        ],
      )
]
  where
    npos_size : (n : ℕ) → n < 2 ^ 63 → (2 ^ 64 - 1 == size_t (n + (2 ^ 64 - 3))) ≡ true → n ≡ 2
    npos_size n h e = ground arith

    at_size :
        (at n : ℕ) → n < 2 ^ 63 → at + 3 ≤ n → (at == size_t (n + (2 ^ 64 - 3))) ≡ true → at ≡ n - 3
    at_size at n h k e = ground arith

    size_at :
        (at n : ℕ) → n < 2 ^ 63 → at + 3 ≤ n → n - 3 ≤ at → (at == size_t (n + (2 ^ 64 - 3))) ≡ true
    size_at at n h k l = ground arith
