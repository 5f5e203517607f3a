-- ===== src/Utils/Text.antt =====
-- src/utils.h: isIn and strReplace. A std::string is the list of its bytes.
use zofi.Base.{
  Bool, List, Option, String, [], drop, false, if◌then◌else◌, length, none, some, suc, take, true,
  zero, ◌&&◌, ◌++◌, ◌+◌, ◌==◌, ◌∷◌, ℕ,
}
use Prim.Native.Char.{code}
use mathlib.Core.Option

abbrev pub Text : Type 0
Text = List ℕ

-- The bytes of an ASCII literal.
abbrev pub codes : String → Text
codes String.[] = []
codes (String.◌∷◌ c s) = code c ∷ codes s

unfoldable pub starts_with : Text → Text → Bool
starts_with s [] = true
starts_with [] (c ∷ p) = false
starts_with (d ∷ s) (c ∷ p) = d == c && starts_with s p

-- std::string::find, where `none` is npos.
unfoldable pub find_text : Text → Text → Option ℕ
find_text [] p = if starts_with [] p then some 0 else none
find_text (c ∷ s) p = if starts_with (c ∷ s) p then some 0 else Option.map suc (find_text s p)

unfoldable pub is_in : Text → Text → Bool
is_in haystack needle = elim (find_text haystack needle) [ none ↦ false | some at ↦ true ]

-- std::string::replace at a position.
unfoldable pub replace_at : Text → ℕ → ℕ → Text → Text
replace_at s at len to = take at s ++ (to ++ drop (at + len) s)

-- strReplace. `none` means that the fuel ran out while the text still held `from`.
unfoldable pub str_replace : ℕ → Text → Text → Text → Option Text
str_replace zero s from to = none
str_replace (suc fuel) s from to = elim (find_text s from) [
  | none ↦ some s
  | some at ↦ str_replace fuel (replace_at s at (length from) to) from to
]
