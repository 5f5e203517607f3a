-- ===== src/ExitState/Import.antt =====
-- src/exitState.cpp: ExecutionExitState::import. FnameSz, which is PATH_MAX of the system's headers,
-- is a parameter, and so are errno after the sscanf and which files exist. A field of the full width
-- is written with its final zero past the end of its buffer; what this overwrites is not modelled.
use zofi.Base.{
  Bool, Option, Outcome, if◌then◌else◌, none, not, ok, some, to_int, to_unsigned, user_die, ℕ, ℤ,
  ◌==◌, ◌>>=◌, ◌||◌,
}
use zofi.Utils.Scan.{scan_char, scan_field}
use zofi.Utils.Number.{sign_of, skip_spaces, starts_with_digit, strtol}
use zofi.Utils.Text.{Text}
use zofi.ExitState.Compare.{ExecutionExitState}
use zofi.ExitState.Data.{import}
use mathlib.Core.Option

-- `%d`, which reads as strtol does; a number out of range is cut to an int.
unfoldable pub scan_int : Text → Option ℤ
scan_int s =
    if starts_with_digit (sign_of (skip_spaces s)).1 then some (to_int (strtol s).0) else none

abbrev pub max_ty_sz : ℕ
max_ty_sz = 10

pub record Scanned : Type 0 where
  pub out : Text
  pub err : Text
  pub type_str : Text
  pub number : ℤ

-- The whole sscanf, where it converts all four.
unfoldable pub scan_exit_state : ℕ → Text → Option Scanned
scan_exit_state fname_sz str = Option.bind (scan_field fname_sz b',' str) λ a.
    Option.bind (scan_char b',' a.1) λ after_out.
      Option.bind (scan_field fname_sz b',' after_out) λ b.
        Option.bind (scan_char b',' b.1) λ after_err.
          Option.bind (scan_field max_ty_sz b':' after_err) λ t.
            Option.bind (scan_char b':' t.1) λ after_type.
              Option.map (λ v. record { out = a.0; err = b.0; type_str = t.0; number = v })
                (scan_int after_type)

-- The exit type and the files of the command line; the descriptors stay.
unfoldable pub import_scanned :
    (Text → Bool) → Scanned → ExecutionExitState → Outcome ExecutionExitState
import_scanned file_exists r e =
    if not (file_exists r.out) || not (file_exists r.err) then user_die else do
      s ← import r.type_str (to_unsigned r.number)
      ok (record e { state = s; stdout_file = r.out; stderr_file = r.err })

unfoldable pub import_execution :
    ℕ → ℕ → (Text → Bool) → Text → ExecutionExitState → Outcome ExecutionExitState
import_execution fname_sz errno file_exists str e = elim (scan_exit_state fname_sz str) [
  | none ↦ user_die
  | some r ↦ if not (errno == 0) then user_die else import_scanned file_exists r e
]
