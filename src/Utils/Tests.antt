-- ===== src/Utils/Tests.antt =====
-- The text and file helpers on concrete bytes.
use zofi.Utils.Time.{pretty_print_time, print_units}
use zofi.Base.{[], refl, ◌∷◌, ◌≡◌}

-- A day is printed as 24 hours, since a unit is printed only where the time exceeds it.
one_day : pretty_print_time 86400 ≡ (24, (3600, b'h')) ∷ (0, (60, b'm')) ∷ (0, (1, b's')) ∷ []
unfolding pretty_print_time print_units
one_day = refl
