-- ===== src/Utils/Diff.antt =====
-- src/utils.h: defaultDiff, on the contents of the two files. `fread` of N bytes takes the next N,
-- or all that is left and sets the end-of-file flag.
use zofi.Base.{
  Bool-cases, ap, arith, inl, inr, length-drop, length-take, refl, sym, take-append-drop, ◌++◌, ◌∙◌,
  Bool, Option, [], drop, false, if◌then◌else◌, length, ltb, none, not, some, suc, take, true, zero,
  ◌&&◌, ◌<◌, ◌==◌, ◌||◌, ◌↔◌, ◌∷◌, ◌≡◌, ℕ,
}
use mathlib.Core.Path.{ap₂}
use zofi.Utils.Text.{Text}
use mathlib.Core.Option

abbrev pub chunk : ℕ
chunk = 256

-- memcmp of the first n bytes, as equality.
unfoldable pub same_bytes : Text → Text → Bool
same_bytes [] [] = true
same_bytes (a ∷ s) (b ∷ t) = a == b && same_bytes s t
same_bytes _ _ = false

-- The loop, from two positions; the result is Diff. `none` means that the fuel ran out.
unfoldable pub diff_loop : ℕ → Text → Text → Option Bool
diff_loop zero s t = none
diff_loop (suc fuel) s t =
    let buf1 = take chunk s in
    let buf2 = take chunk t in
    let rest = diff_loop fuel (drop chunk s) (drop chunk t) in
    if not (length buf1 == length buf2) || not (same_bytes buf1 buf2)
    then some true
    else if not (ltb (length s) chunk) || not (ltb (length t) chunk)
    then rest
    else some false

-- `while (!feof(Fp1) || !feof(Fp2))`, with fuel for one round a byte and one more.
unfoldable pub default_diff : Text → Text → Option Bool
default_diff s t = Option.map not (diff_loop (suc (length s)) s t)

pub same_bytes-eq : (s t : Text) → same_bytes s t ≡ true → s ≡ t
unfolding same_bytes
same_bytes-eq [] [] h = refl
same_bytes-eq [] (b ∷ t) h = absurd (cc)
same_bytes-eq (a ∷ s) [] h = absurd (cc)
same_bytes-eq (a ∷ s) (b ∷ t) h = ground (arith, same_bytes-eq s t)

pub same_bytes_refl : (s : Text) → same_bytes s s ≡ true
unfolding same_bytes
same_bytes_refl [] = refl
same_bytes_refl (a ∷ s) = ground (arith, same_bytes_refl s)

same_halves : (c : ℕ) (s t : Text) → take c s ≡ take c t → drop c s ≡ drop c t → s ≡ t
same_halves c s t p q = sym (take-append-drop c s) ∙ ap₂ (λ x y. x ++ y) p q ∙ take-append-drop c t

take_short : (c : ℕ) (s : Text) → length s < c → take c s ≡ s
take_short zero s h = elim h [ ]
take_short (suc c) [] h = refl
take_short (suc c) (a ∷ s) h = ap (λ r. a ∷ r) (take_short c s (omega arith))

-- What the two tests of a round say, at any chunk size.
abbrev differs : ℕ → Text → Text → Bool
differs c s t =
    not (length (take c s) == length (take c t)) || not (same_bytes (take c s) (take c t))

abbrev goes_on : ℕ → Text → Text → Bool
goes_on c s t = not (ltb (length s) c) || not (ltb (length t) c)

same_chunk : (c : ℕ) (s t : Text) → differs c s t ≡ false → take c s ≡ take c t
same_chunk c s t h = same_bytes-eq (take c s) (take c t) (ground arith)

same_not-differs : (c : ℕ) (s t : Text) → s ≡ t → differs c s t ≡ false
same_not-differs c s t e = rw e (ground (arith, same_bytes_refl (take c t)))

last_round : (c : ℕ) (s t : Text) → differs c s t ≡ false → goes_on c s t ≡ false → s ≡ t
last_round c s t h g =
    sym (take_short c s (ground arith)) ∙ same_chunk c s t h ∙ take_short c t (ground arith)

shorter :
    (c fuel : ℕ) (s t : Text)
    → 0 < c
    → differs c s t ≡ false
    → goes_on c s t ≡ true
    → length s < suc fuel
    → length (drop c s) < fuel
shorter c fuel s t pos_c h g lt =
    let e = ap length (same_chunk c s t h) in
    ground (arith, length-drop c s, length-take c s, length-take c t)

diff_loop-total :
    (fuel : ℕ) (s t : Text)
    → length s < fuel
    → (d : Bool) × (diff_loop fuel s t ≡ some d) × ((d ≡ false) ↔ (s ≡ t))
unfolding diff_loop
diff_loop-total zero s t h = elim h [ ]
diff_loop-total (suc fuel) s t h = elim (Bool-cases (differs chunk s t)) [
  | inl found ↦
      (true, rw found, (λ e. absurd (cc), λ e. absurd (cc (same_not-differs chunk s t e))))
  | inr same ↦ elim (Bool-cases (goes_on chunk s t)) [
    | inr done ↦ (false, rw (same, done), (λ _. last_round chunk s t same done, λ _. refl))
    | inl more ↦
        let (d, ran, iff) =
          diff_loop-total fuel (drop chunk s) (drop chunk t)
            (shorter chunk fuel s t (omega arith) same more h) in
        (
          d,
          rw (same, more) ran,
          (
            λ e. same_halves chunk s t (same_chunk chunk s t same) (iff.0 e),
            λ e. iff.1 (ap (drop chunk) e),
          ),
        )
  ]
]

-- defaultDiff ends, and gives true exactly when the two files have the same contents.
pub default_diff_lem :
    (s t : Text) → (b : Bool) × (default_diff s t ≡ some b) × ((b ≡ true) ↔ (s ≡ t))
unfolding default_diff
default_diff_lem s t =
    let (d, ran, iff) = diff_loop-total (suc (length s)) s t (omega arith) in
    (not d, rw ran, (λ e. iff.0 (ground arith), λ e. ap not (iff.1 e)))
