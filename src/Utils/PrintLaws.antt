-- ===== src/Utils/PrintLaws.antt =====
-- Printed numbers are read back.
use zofi.Base.{
  refl, ◌*◌, ◌-◌, Bool-cases, [], arith, inl, inr, ltb, suc, true, zero, ℕ, ◌%◌, ◌++◌, ◌+◌, ◌/◌,
  ◌<◌, ◌∙◌, ◌∷◌, ◌≡◌,
}
use zofi.Utils.Number.{digits_from, is_digit, starts_with_digit}
use zofi.Utils.Print.{decimal, decimal_digits}
use zofi.Utils.Text.{Text}
use mathlib.Core.List.{append_assoc}

last_digit :
    (n : ℕ) (rest : Text) → digits_from (n / 10) ((b'0' + n % 10) ∷ rest) ≡ digits_from n rest
unfolding digits_from is_digit
last_digit n rest =
    let digit : is_digit (b'0' + n % 10) ≡ true = ground arith in
    let whole : n / 10 * 10 + (b'0' + n % 10 - b'0') ≡ n = omega arith in rw (digit, whole) refl

decimal_digits-read :
    (fuel n : ℕ) (rest : Text)
    → n < fuel
    → digits_from 0 (decimal_digits fuel n ++ rest) ≡ digits_from n rest
unfolding decimal_digits digits_from is_digit
decimal_digits-read zero n rest h = absurd (omega arith)
decimal_digits-read (suc fuel) n rest h = elim (Bool-cases (ltb n 10)) [
  | inl small ↦ ground arith
  | inr large ↦ rw large (
      rw (append_assoc (decimal_digits fuel (n / 10)) ((b'0' + n % 10) ∷ []) rest) (
        decimal_digits-read fuel (n / 10) ((b'0' + n % 10) ∷ rest) (ground arith)
        ∙ last_digit n rest))
]

-- The digits of a number are read back as the number, up to a text that goes on.
pub digits_from-decimal :
    (n : ℕ) (rest : Text) → digits_from 0 (decimal n ++ rest) ≡ digits_from n rest
unfolding decimal
digits_from-decimal n rest = decimal_digits-read (suc n) n rest (omega arith)

decimal_digits-start :
    (fuel n : ℕ) (rest : Text) → n < fuel → starts_with_digit (decimal_digits fuel n ++ rest) ≡ true
unfolding decimal_digits is_digit
decimal_digits-start zero n rest h = absurd (omega arith)
decimal_digits-start (suc fuel) n rest h = elim (Bool-cases (ltb n 10)) [
  | inl small ↦ ground arith
  | inr large ↦ rw large (
      rw (append_assoc (decimal_digits fuel (n / 10)) ((b'0' + n % 10) ∷ []) rest)
        (decimal_digits-start fuel (n / 10) ((b'0' + n % 10) ∷ rest) (ground arith)))
]

-- A printed number starts with a digit.
pub decimal-starts_with_digit : (n : ℕ) (rest : Text) → starts_with_digit (decimal n ++ rest) ≡ true
unfolding decimal
decimal-starts_with_digit n rest = decimal_digits-start (suc n) n rest (omega arith)
