-- ===== src/Utils/Print.antt =====
-- What operator<< of std::ostream and the conversions of printf make of numbers and texts.
use zofi.Base.{
  [], if◌then◌else◌, length, ltb, negsuc, pos, replicate, suc, zero, ℕ, ℤ, ◌%◌, ◌++◌, ◌+◌, ◌-◌, ◌/◌,
  ◌∷◌,
}
use zofi.Utils.Text.{Text}

-- The digits of a number below 10 to the power of the fuel.
unfoldable pub decimal_digits : ℕ → ℕ → Text
decimal_digits zero n = []
decimal_digits (suc fuel) n =
    let more = decimal_digits fuel (n / 10) ++ (b'0' + n % 10) ∷ [] in
    if ltb n 10 then (b'0' + n) ∷ [] else more

-- %u and %lu.
unfoldable pub decimal : ℕ → Text
decimal n = decimal_digits (suc n) n

-- %d and %ld.
unfoldable pub signed_decimal : ℤ → Text
signed_decimal (pos n) = decimal n
signed_decimal (negsuc n) = b'-' ∷ decimal (suc n)

-- `%12s` and the like, and std::right with std::setw.
unfoldable pub pad_left : ℕ → Text → Text
pad_left width s = replicate (width - length s) b' ' ++ s

unfoldable pub hex_digit : ℕ → ℕ
hex_digit n = if ltb n 10 then b'0' + n else b'a' + (n - 10)

-- `%02x` of a byte.
unfoldable pub hex_byte : ℕ → Text
hex_byte n = hex_digit (n / 16) ∷ hex_digit (n % 16) ∷ []
