-- ===== src/ExitState/DumpLaws.antt =====
-- src/exitState.cpp: different exit states print different texts.
use zofi.ExitState.Data.{ExitType, exited, invalid, signaled, stopped, ExitState}
use zofi.ExitState.Dump.{type_text, get_dump_str, int_of}
use zofi.Base.{
  refl, Bool-cases, ap, arith, inl, inr, ltb, negsuc, pos, suc, sym, ℕ, ℤ, ◌++◌, ◌-◌, ◌<◌, ◌^◌, ◌∙◌,
  ◌∷◌, ◌≡◌, ◌≢◌,
}
use zofi.Utils.Text.{Text, codes}
use zofi.Utils.Number.{digits_from, is_digit, starts_with_digit}
use zofi.Utils.PrintLaws.{decimal-starts_with_digit, digits_from-decimal}
use zofi.Utils.Print.{decimal, signed_decimal}

-- The digits of a number that a brace follows are read back.
decimal-brace : (n : ℕ) → (digits_from 0 (decimal n ++ codes "}")).0 ≡ n
unfolding digits_from is_digit
decimal-brace n = ap (λ (r : ℕ × Text). r.0) (digits_from-decimal n (codes "}"))

decimal-brace_inj : (n m : ℕ) → decimal n ++ codes "}" ≡ decimal m ++ codes "}" → n ≡ m
decimal-brace_inj n m e = sym (decimal-brace n) ∙ ap (λ t. (digits_from 0 t).0) e ∙ decimal-brace m

no_minus : (n m : ℕ) → decimal n ++ codes "}" ≢ b'-' ∷ (decimal m ++ codes "}")
unfolding is_digit
no_minus n m e =
    let starts = decimal-starts_with_digit n (codes "}") in cc (starts, ap starts_with_digit e)

signed_decimal-brace_inj :
    (v w : ℤ) → signed_decimal v ++ codes "}" ≡ signed_decimal w ++ codes "}" → v ≡ w
unfolding signed_decimal
signed_decimal-brace_inj (pos n) (pos m) e = ap pos (decimal-brace_inj n m e)
signed_decimal-brace_inj (pos n) (negsuc m) e = absurd (no_minus n (suc m) e)
signed_decimal-brace_inj (negsuc n) (pos m) e = absurd (no_minus m (suc n) (sym e))
signed_decimal-brace_inj (negsuc n) (negsuc m) e =
    let same = decimal-brace_inj (suc n) (suc m) (cc) in ap negsuc (omega (arith, same))

abbrev non_negative : ℤ → ℕ
non_negative (pos n) = n
non_negative (negsuc n) = 0

abbrev below_zero : ℤ → ℕ
below_zero (pos n) = 0
below_zero (negsuc n) = n

pos-negsuc : {n m : ℕ} → pos n ≢ negsuc m
pos-negsuc e = cc

int_of_inj : (a b : ℕ) → a < 2 ^ 32 → b < 2 ^ 32 → int_of a ≡ int_of b → a ≡ b
unfolding int_of
int_of_inj a b ha hb e = elim (Bool-cases (ltb a (2 ^ 31))) [
  | inl x ↦ elim (Bool-cases (ltb b (2 ^ 31))) [
    | inl y ↦ ap non_negative (rw (x, y) at e)
    | inr y ↦ absurd (pos-negsuc (rw (x, y) at e))
  ]
  | inr x ↦ elim (Bool-cases (ltb b (2 ^ 31))) [
    | inl y ↦ absurd (pos-negsuc (sym (rw (x, y) at e)))
    | inr y ↦
        let below : 2 ^ 32 - 1 - a ≡ 2 ^ 32 - 1 - b = ap below_zero (rw (x, y) at e) in
        omega (arith, below)
  ]
]

-- The second byte of the name tells the types apart.
abbrev third : Text → ℕ
third (a ∷ b ∷ c ∷ s) = c
third s = 0

type_text_inj :
    (a b : ExitType) (x y : Text)
    → codes "{" ++ (type_text a ++ (codes ", " ++ x))
      ≡ codes "{" ++ (type_text b ++ (codes ", " ++ y))
    → (a ≡ b) × (x ≡ y)
unfolding type_text
type_text_inj exited exited x y e = (refl, cc)
type_text_inj exited signaled x y e = absurd (let h : b'x' ≡ b'i' = ap third e in omega (arith, h))
type_text_inj exited stopped x y e = absurd (let h : b'x' ≡ b't' = ap third e in omega (arith, h))
type_text_inj exited invalid x y e = absurd (let h : b'x' ≡ b'n' = ap third e in omega (arith, h))
type_text_inj signaled exited x y e = absurd (let h : b'i' ≡ b'x' = ap third e in omega (arith, h))
type_text_inj signaled signaled x y e = (refl, cc)
type_text_inj signaled stopped x y e = absurd (let h : b'i' ≡ b't' = ap third e in omega (arith, h))
type_text_inj signaled invalid x y e = absurd (let h : b'i' ≡ b'n' = ap third e in omega (arith, h))
type_text_inj stopped exited x y e = absurd (let h : b't' ≡ b'x' = ap third e in omega (arith, h))
type_text_inj stopped signaled x y e = absurd (let h : b't' ≡ b'i' = ap third e in omega (arith, h))
type_text_inj stopped stopped x y e = (refl, cc)
type_text_inj stopped invalid x y e = absurd (let h : b't' ≡ b'n' = ap third e in omega (arith, h))
type_text_inj invalid exited x y e = absurd (let h : b'n' ≡ b'x' = ap third e in omega (arith, h))
type_text_inj invalid signaled x y e = absurd (let h : b'n' ≡ b'i' = ap third e in omega (arith, h))
type_text_inj invalid stopped x y e = absurd (let h : b'n' ≡ b't' = ap third e in omega (arith, h))
type_text_inj invalid invalid x y e = (refl, cc)

-- The text tells the exit type and the 32 bits of the value.
pub get_dump_str_inj :
    (s t : ExitState)
    → s.val < 2 ^ 32
    → t.val < 2 ^ 32
    → get_dump_str s ≡ get_dump_str t
    → (s.exit_type ≡ t.exit_type) × (s.val ≡ t.val)
unfolding get_dump_str
get_dump_str_inj s t hs ht e =
    let (same, rest) =
      type_text_inj s.exit_type t.exit_type (signed_decimal (int_of s.val) ++ codes "}")
        (signed_decimal (int_of t.val) ++ codes "}") e in
    (
      same,
      int_of_inj s.val t.val hs ht (signed_decimal-brace_inj (int_of s.val) (int_of t.val) rest),
    )
