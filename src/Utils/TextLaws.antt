-- ===== src/Utils/TextLaws.antt =====
-- src/utils.h: the loop of strReplace.
use zofi.Base.{
  some_inj, length, Option-cases, [], arith, drop, get_elem?, if◌then◌else◌, inl, inr, none, some,
  suc, take, zero, ◌++◌, ◌+◌, ◌<◌, ◌==◌, ◌∷◌, ◌≡◌, ◌≤◌, ℕ,
}
use zofi.Utils.Text.{find_text, replace_at, Text, starts_with, str_replace}

abbrev pub count : ℕ → Text → ℕ
count c [] = 0
count c (d ∷ s) = (if d == c then 1 else 0) + count c s

count-append : (c : ℕ) (s t : Text) → count c (s ++ t) ≡ count c s + count c t
count-append c [] t = omega arith
count-append c (d ∷ s) t = omega (arith, count-append c s t)

-- A hit is a position that holds the first byte of the needle.
find-first : (s p : Text) (c at : ℕ) → find_text s (c ∷ p) ≡ some at → get_elem? s at ≡ some c
unfolding find_text starts_with
find-first [] p c at e = absurd (cc)
find-first (d ∷ s) p c zero e = ground arith
find-first (d ∷ s) p c (suc at) e = ground (arith, find-first s p c at)

count-drop-le : (s : Text) (c n : ℕ) → count c (drop n s) ≤ count c s
count-drop-le s c zero = omega arith
count-drop-le [] c (suc n) = omega arith
count-drop-le (d ∷ s) c (suc n) = omega (arith, count-drop-le s c n)

-- What is cut out from a hit on holds the byte of the hit.
count-cut :
    (s : Text) (c at n : ℕ)
    → at < n
    → get_elem? s at ≡ some c
    → count c (take at s) + count c (drop n s) + 1 ≤ count c s
count-cut s c at zero h e = elim h [ ]
count-cut [] c at (suc n) h e = absurd (cc)
count-cut (d ∷ s) c zero (suc n) h e = ground (arith, count-drop-le s c n)
count-cut (d ∷ s) c (suc at) (suc n) h e = ground (arith, count-cut s c at n)

count-replace_at :
    (s to : Text) (c at len : ℕ)
    → count c to ≡ 0
    → get_elem? s at ≡ some c
    → count c (replace_at s at (suc len) to) + 1 ≤ count c s
unfolding replace_at
count-replace_at s to c at len z e = omega (
  arith,
  count-append c (take at s) (to ++ drop (at + suc len) s),
  count-append c to (drop (at + suc len) s),
  count-cut s c at (at + suc len) (omega arith) e,
)

-- strReplace ends when the replacement lacks the first byte of the needle, after at most one round
-- for each such byte in the text, and the result holds the needle nowhere.
pub str_replace-total :
    (fuel : ℕ) (s p to : Text) (c : ℕ)
    → count c to ≡ 0
    → count c s < fuel
    → (r : Text) × (str_replace fuel s (c ∷ p) to ≡ some r) × (find_text r (c ∷ p) ≡ none)
unfolding str_replace
str_replace-total zero s p to c z h = elim h [ ]
str_replace-total (suc fuel) s p to c z h = elim (Option-cases (find_text s (c ∷ p))) [
  | inl gone ↦ (s, rw (gone, str_replace), gone)
  | inr (at, hit) ↦
      let fewer = count-replace_at s to c at (length p) z (find-first s p c at hit) in
      let (r, ran, clean) =
        str_replace-total fuel (replace_at s at (suc (length p)) to) p to c z (omega arith) in
      (r, rw (hit, str_replace) ran, clean)
]

-- A strReplace whose replacement lacks the first byte of the needle adds no such byte.
pub str_replace-count :
    (fuel : ℕ) (s p to r : Text) (c : ℕ)
    → count c to ≡ 0
    → str_replace fuel s (c ∷ p) to ≡ some r
    → count c r ≤ count c s
unfolding str_replace
str_replace-count zero s p to r c z e = absurd (cc)
str_replace-count (suc fuel) s p to r c z e = elim (Option-cases (find_text s (c ∷ p))) [
  | inl gone ↦ rw (some_inj (rw (gone, str_replace) at e)) (omega arith)
  | inr (at, hit) ↦
      let fewer = count-replace_at s to c at (length p) z (find-first s p c at hit) in
      let rest =
        str_replace-count fuel (replace_at s at (suc (length p)) to) p to r c z
          (rw (hit, str_replace) at e) in
      omega (arith, fewer, rest)
]
