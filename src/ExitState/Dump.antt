-- ===== src/ExitState/Dump.antt =====
-- src/exitState.cpp: the text of an exit state, which the debug output prints.
use zofi.Base.{if◌then◌else◌, ltb, negsuc, pos, ℕ, ℤ, ◌++◌, ◌-◌, ◌^◌}
use zofi.Utils.Print.{signed_decimal}
use zofi.ExitState.Data.{ExitState, ExitType, exited, invalid, signaled, stopped}
use zofi.Utils.Text.{Text, codes}

-- The int of 32 bits.
unfoldable pub int_of : ℕ → ℤ
int_of val = if ltb val (2 ^ 31) then pos val else negsuc (2 ^ 32 - 1 - val)

unfoldable pub type_text : ExitType → Text
type_text exited = codes "Exited"
type_text signaled = codes "Signaled"
type_text stopped = codes "Stopped"
type_text invalid = codes "Invalid"

-- ExitState::dump and ExitState::getDumpStr
unfoldable pub get_dump_str : ExitState → Text
get_dump_str s =
    codes "{"
    ++ (type_text s.exit_type ++ (codes ", " ++ (signed_decimal (int_of s.val) ++ codes "}")))
