-- ===== src/Utils/Scan.antt =====
-- The conversions of sscanf that src/exitState.cpp and src/addrSpace.cpp use.
use zofi.Base.{Option, [], drop, if◌then◌else◌, none, some, suc, take, zero, ℕ, ℤ, ◌++◌, ◌==◌, ◌∷◌}
use zofi.Utils.Number.{is_empty, is_space, sign_of, skip_spaces, starts_with_digit, strtol}
use zofi.Utils.Text.{Text}

-- `%N[^stop]` of sscanf: the bytes it stores, and what follows them.
unfoldable pub scan_until : ℕ → ℕ → Text → Text × Text
scan_until zero stop s = ([], s)
scan_until (suc n) stop [] = ([], [])
scan_until (suc n) stop (c ∷ s) =
    let r = scan_until n stop s in if c == stop then ([], c ∷ s) else (c ∷ r.0, r.1)

-- No byte at all is a matching failure.
unfoldable pub scan_field : ℕ → ℕ → Text → Option (Text × Text)
scan_field n stop s = let r = scan_until n stop s in if is_empty r.0 then none else some r

-- A byte of the format that stands for itself.
unfoldable pub scan_char : ℕ → Text → Option Text
scan_char c [] = none
scan_char c (d ∷ s) = if d == c then some s else none

-- The bytes up to the next white space.
unfoldable pub take_word : Text → Text × Text
take_word [] = ([], [])
take_word (c ∷ s) = let r = take_word s in if is_space c then ([], c ∷ s) else (c ∷ r.0, r.1)

-- `%s` after white space: no byte at all is an input failure.
unfoldable pub scan_word : Text → Option (Text × Text)
scan_word s = let r = take_word (skip_spaces s) in if is_empty r.0 then none else some r

-- `%Ns`, the next N bytes at most.
unfoldable pub scan_word_max : ℕ → Text → Option (Text × Text)
scan_word_max n s =
    let r = take_word (skip_spaces s) in
    if is_empty r.0 then none else some (take n r.0, drop n r.0 ++ r.1)

-- `%ld`
unfoldable pub scan_long : Text → Option (ℤ × Text)
scan_long s = if starts_with_digit (sign_of (skip_spaces s)).1 then some (strtol s) else none
