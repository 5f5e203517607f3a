-- ===== src/Options/Checks.antt =====
-- src/options.cpp: OptionsParser::sanityChecks, and the checks of the values in init.
use zofi.Base.{
  is_some, Bool, List, Option, Outcome, String, [], false, if◌then◌else◌, leb, ltb, negsuc, none,
  not, ok, pos, some, true, user_die, ℕ, ℤ, ◌&&◌, ◌+◌, ◌==◌, ◌>>◌, ◌∷◌,
}
use zofi.Utils.Number.{strtol_check}
use zofi.Utils.Diff.{same_bytes}
use zofi.Utils.Text.{Text, codes, is_in}
use zofi.Regs.Data.{RegData}
use zofi.Regs.Table.{def_regs}
use text.Mathlib.Text.{◌==◌ as str_eq}

pub record Values : Type 0 where
  pub inject_to : Text
  pub inject_to_set : Bool
  pub force_inject_to_reg : Option String
  pub force_inject_to_bit : Option Text

-- The characters r, w, e, i, c and o.
unfoldable pub is_inject_to_char : ℕ → Bool
is_inject_to_char c = is_in (codes "rweico") (c ∷ [])

unfoldable pub check_inject_to : Text → Outcome (Unit {0})
check_inject_to [] = ok tt
check_inject_to (c ∷ s) =
    let rest = check_inject_to s in if is_inject_to_char c then rest else user_die

-- The line that DEF_REG makes of each register of the table.
unfoldable pub check_rows : List (String × RegData) → String → ℕ → Outcome (Unit {0})
check_rows [] r n = ok tt
check_rows ((k, d) ∷ rows) r n =
    let rest = check_rows rows r n in
    if str_eq r k && leb (d.start_bit + d.bits) n then user_die else rest

unfoldable pub check_bit : ℤ × Bool → Option String → Outcome (Unit {0})
check_bit (negsuc n, is_num) forced = user_die
check_bit (pos n, false) forced = user_die
check_bit (pos n, true) none = ok tt
check_bit (pos n, true) (some r) = check_rows def_regs r n

-- -force-inject-to-bit. `help` is left to helpMessages.
unfoldable pub check_forced_bit : Option String → Text → Outcome (Unit {0})
check_forced_bit forced word =
    if same_bytes word (codes "help") then ok tt else check_bit (strtol_check word) forced

unfoldable pub sanity_checks : Values → Outcome (Unit {0})
sanity_checks o = if o.inject_to_set && is_some o.force_inject_to_reg then user_die else (do
  check_inject_to o.inject_to
  if not (is_in o.inject_to (codes "r")) && not (is_in o.inject_to (codes "w"))
      then user_die
      else if ((not (is_in o.inject_to (codes "e")) && not (is_in o.inject_to (codes "i")))
            && not (is_in o.inject_to (codes "c")))
          && not (is_in o.inject_to (codes "o"))
      then user_die
      else elim o.force_inject_to_bit [
        | none ↦ ok tt
        | some word ↦ check_forced_bit o.force_inject_to_reg word
      ])

-- The values that OptionsParser::init looks at, after parse.
pub record InitValues : Type 0 where
  pub detection_exit_code : ℤ
  pub jobs : ℕ
  pub moufoplot_dir_missing : Bool
  pub injections_per_run : ℕ
  pub binary_exists : Bool

unfoldable pub limit_jobs : ℕ → ℕ → ℕ
limit_jobs hw_threads jobs =
    let wanted = if jobs == 0 then hw_threads else jobs in
    if ltb hw_threads wanted then hw_threads else wanted

abbrev above_125 : ℤ → Bool
above_125 (pos n) = ltb 0 n && ltb 125 n
above_125 (negsuc n) = false

-- The end of OptionsParser::init, from its sanity checks on. The result is the number of jobs.
unfoldable pub init_checks : ℕ → InitValues → Outcome ℕ
init_checks hw_threads o =
    if above_125 o.detection_exit_code
    then user_die
    else (let jobs = limit_jobs hw_threads o.jobs in
        if o.moufoplot_dir_missing
        then user_die
        else if ltb 1 o.injections_per_run
        then user_die
        else if not o.binary_exists
        then user_die
        else ok jobs)
