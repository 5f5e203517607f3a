-- ===== src/Utils/Time.antt =====
-- src/utils.h: prettyPrintTime.
use zofi.Base.{
  Bool, List, [], arith, false, if◌then◌else◌, ltb, true, ℕ, ◌*◌, ◌+◌, ◌-◌, ◌/◌, ◌||◌, ◌∷◌, ◌≡◌,
}

-- A unit with its letter.
abbrev pub TimeUnit : Type 0
TimeUnit = ℕ × ℕ

abbrev pub time_units : List TimeUnit
time_units = (3600 * 24, b'd') ∷ (3600, b'h') ∷ (60, b'm') ∷ (1, b's') ∷ []

-- The loop over the units; the numbers that are printed, each with its unit.
unfoldable pub print_units : List TimeUnit → Bool → ℕ → List (ℕ × TimeUnit)
print_units [] print_next secs = []
print_units (u ∷ l) print_next secs =
    let here = (secs / u.0, u) ∷ print_units l true (secs - secs / u.0 * u.0) in
    let later = print_units l print_next secs in if ltb u.0 secs || print_next then here else later

unfoldable pub pretty_print_time : ℕ → List (ℕ × TimeUnit)
pretty_print_time secs = print_units time_units false secs

-- The time that is printed, in seconds.
abbrev pub total_time : List (ℕ × TimeUnit) → ℕ
total_time [] = 0
total_time ((n, u) ∷ l) = n * u.0 + total_time l

-- prettyPrintTime prints the time that it is given, to the second, where that is more than one
-- second, and nothing at all for zero or one second.
pub total_time-pretty_print_time :
    (secs : ℕ) → total_time (pretty_print_time secs) ≡ (if ltb 1 secs then secs else 0)
unfolding pretty_print_time print_units
total_time-pretty_print_time secs = ground arith
