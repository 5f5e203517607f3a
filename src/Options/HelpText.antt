-- ===== src/Options/HelpText.antt =====
-- src/options.cpp: isLineSplitCandidate and printAllOptions. A description is the list of its bytes
-- before the '\0', which `get_or s i 0` gives at their number.
use zofi.Base.{
  Bool, List, Option, Outcome, [], assert, drop, get_or, if◌then◌else◌, leb, length, ltb, none, ok,
  some, suc, take, zero, ℕ, ◌%◌, ◌+◌, ◌-◌, ◌==◌, ◌>>◌, ◌^◌, ◌||◌, ◌∷◌,
}
use Prim.Native.Nat.{max}
use zofi.Utils.Text.{Text}
use zofi.Options.Registry.{OptionsMap}
use mathlib.Core.Option

unfoldable pub is_line_split_candidate : ℕ → Bool
is_line_split_candidate c = c == b' ' || (c == 0 || c == b',')

-- The search for LastSpaceIdx from i down to 0, on &getDescription()[PrintedSubstrLen]: the result
-- is SubstrLen, so 0 where LastSpaceIdx is -1.
unfoldable pub substr_len : Text → ℕ → ℕ
substr_len s zero = if is_line_split_candidate (get_or s 0 0) then 1 else 0
substr_len s (suc i) =
    let before = substr_len s i in
    if is_line_split_candidate (get_or s (suc i) 0) then suc (suc i) else before

-- Where the search starts: MaxSubstrLen - 1, or at the '\0' where that is nearer.
unfoldable pub first_idx : ℕ → Text → ℕ
first_idx max_len s = if leb (max_len - 1) (length s) then max_len - 1 else length s

-- `while (PrintedSubstrLen < DescrLen)`, on what is not printed yet: the parts that are printed, one
-- to a line. `none` means that the fuel ran out.
unfoldable pub split_lines : ℕ → ℕ → Text → Option (List Text)
split_lines fuel max_len [] = some []
split_lines zero max_len (c ∷ s) = none
split_lines (suc fuel) max_len (c ∷ s) =
    let n = substr_len (c ∷ s) (first_idx max_len (c ∷ s)) in
    Option.map (λ lines. take n (c ∷ s) ∷ lines) (split_lines fuel max_len (drop n (c ∷ s)))

unfoldable pub max_flag_width : {D : Type 0} → OptionsMap D → ℕ
max_flag_width [] = 0
max_flag_width (o ∷ m) = max (length o.flag) (max_flag_width m)

-- `80 - (maxFlagW + strlen(" : ") + 1)` in size_t, and converted to unsigned.
unfoldable pub max_substr_len : ℕ → ℕ
max_substr_len w = (80 + 2 ^ 64 - (w + 3 + 1) % 2 ^ 64) % 2 ^ 64 % 2 ^ 32

-- Each option's flag, and the lines of its description.
unfoldable pub print_options : {D : Type 0} → ℕ → OptionsMap D → Option (List (Text × List Text))
print_options max_len [] = some []
print_options max_len (o ∷ m) = elim (split_lines (length o.description) max_len o.description) [
  | none ↦ none
  | some lines ↦ Option.map (λ rest. (o.flag, lines) ∷ rest) (print_options max_len m)
]

unfoldable pub print_all_options :
    {D : Type 0} → OptionsMap D → Outcome (Option (List (Text × List Text)))
print_all_options m =
    let max_len = max_substr_len (max_flag_width m) in
    do assert (ltb 40 max_len); ok (print_options max_len m)
