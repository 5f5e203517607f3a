-- ===== src/Utils/Number.antt =====
-- src/utils.h: strtolCheck, strtoulSafe and strtolSafe, over strtol of the C library in base 10.
use zofi.Base.{
  Bool, Outcome, [], false, if◌then◌else◌, leb, ltb, negate, not, ok, pos, true, user_die, ℤ, ◌%◌,
  ◌&&◌, ◌*◌, ◌+◌, ◌-◌, ◌==◌, ◌^◌, ◌||◌, ◌∷◌, ℕ,
}
use Prim.Native.Nat.{min}
use zofi.Utils.Text.{Text}

unfoldable pub is_space : ℕ → Bool
is_space c = c == 32 || (leb 9 c && leb c 13)

unfoldable pub is_digit : ℕ → Bool
is_digit c = leb b'0' c && leb c b'9'

unfoldable pub skip_spaces : Text → Text
skip_spaces [] = []
skip_spaces (c ∷ s) = if is_space c then skip_spaces s else c ∷ s

-- The number that the leading digits of a text spell, and the text behind them.
unfoldable pub digits_from : ℕ → Text → ℕ × Text
digits_from acc [] = (acc, [])
digits_from acc (c ∷ s) =
    let rest = digits_from (acc * 10 + (c - b'0')) s in if is_digit c then rest else (acc, c ∷ s)

abbrev pub starts_with_digit : Text → Bool
starts_with_digit [] = false
starts_with_digit (c ∷ s) = is_digit c

-- The sign, and the text behind it.
unfoldable pub sign_of : Text → Bool × Text
sign_of [] = (false, [])
sign_of (c ∷ s) = if c == b'-' then (true, s) else if c == b'+' then (false, s) else (false, c ∷ s)

abbrev pub long_max : ℕ
long_max = 2 ^ 63 - 1

abbrev pub ulong_mod : ℕ
ulong_mod = 2 ^ 64

-- strtol: the value, clamped to a long, and what EndPtr points to.
unfoldable pub strtol : Text → ℤ × Text
unfolding skip_spaces sign_of digits_from is_digit is_space
strtol s =
    let signed = sign_of (skip_spaces s) in
    let read = digits_from 0 signed.1 in
    if starts_with_digit signed.1
    then (if signed.0 then negate (min read.0 (2 ^ 63)) else pos (min read.0 long_max), read.1)
    else (pos 0, s)

-- strtoul: as strtol, but a value out of range is ULONG_MAX and a minus sign negates modulo 2 ^ 64.
unfoldable pub strtoul : Text → ℕ × Text
unfolding skip_spaces sign_of digits_from is_digit is_space
strtoul s =
    let signed = sign_of (skip_spaces s) in
    let read = digits_from 0 signed.1 in
    if starts_with_digit signed.1
    then (
      if ltb read.0 ulong_mod
          then (if signed.0 then (ulong_mod - read.0) % ulong_mod else read.0)
          else ulong_mod - 1,
      read.1,
    )
    else (0, s)

abbrev pub is_empty : Text → Bool
is_empty [] = true
is_empty (c ∷ s) = false

-- The value and Success.
unfoldable pub strtol_check : Text → ℤ × Bool
strtol_check s =
    let r = strtol s in if is_empty s || not (is_empty r.1) then (pos 0, false) else (r.0, true)

unfoldable pub strtoul_safe : Text → Outcome ℕ
strtoul_safe s = let r = strtoul s in if is_empty s || not (is_empty r.1) then user_die else ok r.0

unfoldable pub strtol_safe : Text → Outcome ℤ
strtol_safe s = let r = strtol s in if is_empty s || not (is_empty r.1) then user_die else ok r.0
