-- ===== src/Options/Init.antt =====
-- src/options.cpp: OptionsParser::init and helpMessages, on OptionsMap.
use zofi.Base.{
  true, Bool, List, Option, Outcome, String, [], die, false, if◌then◌else◌, ltb, none, not, ok, set,
  some, user_die, ℕ, ℤ, ◌&&◌, ◌==◌, ◌>>=◌, ◌||◌, ◌∷◌,
}
use zofi.Options.Values.{Value, OptionVar, bytes, chars, natural, set_value, signed, truth}
use zofi.Regs.Data.{RegData}
use zofi.Utils.Text.{Text, codes}
use Prim.Native.Char.{code}
use zofi.Options.Registry.{OptionsMap, find_option, parse_options}
use zofi.Utils.Diff.{same_bytes}
use zofi.Options.Checks.{Values, init_checks, sanity_checks}
use zofi.Regs.Table.{def_regs}
use mathlib.Core.Option

-- The register with this spelling. No register is named "".
unfoldable pub forced_reg_name : List (String × RegData) → Text → String
forced_reg_name [] s = ""
forced_reg_name ((k, d) ∷ rows) s =
    let later = forced_reg_name rows s in if same_bytes (codes k) s then k else later

abbrev is_help : Option Text → Bool
is_help none = false
is_help (some s) = same_bytes s (codes "help")

abbrev pub or_die : {A : Type 0} → Option A → Outcome A
or_die none = die
or_die (some a) = ok a

abbrev pub as_text : {D : Type 0} → Value D → Outcome Text
as_text (bytes s) = ok s
as_text v = die

abbrev pub as_natural : {D : Type 0} → Value D → Outcome ℕ
as_natural (natural n) = ok n
as_natural v = die

abbrev pub as_integer : {D : Type 0} → Value D → Outcome ℤ
as_integer (signed n) = ok n
as_integer v = die

abbrev pub as_truth : {D : Type 0} → Value D → Outcome Bool
as_truth (truth b) = ok b
as_truth v = die

abbrev pub as_chars : {D : Type 0} → Value D → Outcome (Option Text)
as_chars (chars s) = ok s
as_chars v = die

module _ {D : Type 0} (m : OptionsMap D) where
  -- The option objects are globals, so that reading one cannot fail: `die` stands for a map without
  -- the option, or where its type is another one.
  unfoldable pub option_at : Text → Outcome (OptionVar D)
  option_at f = or_die (find_option f m)

  unfoldable pub text_at : Text → Outcome Text
  text_at f = do o ← option_at f; as_text o.val

  unfoldable pub natural_at : Text → Outcome ℕ
  natural_at f = do o ← option_at f; as_natural o.val

  unfoldable pub integer_at : Text → Outcome ℤ
  integer_at f = do o ← option_at f; as_integer o.val

  unfoldable pub truth_at : Text → Outcome Bool
  truth_at f = do o ← option_at f; as_truth o.val

  unfoldable pub chars_at : Text → Outcome (Option Text)
  chars_at f = do o ← option_at f; as_chars o.val

  -- The value of an option, if it is set.
  unfoldable pub text_if_set : Text → Outcome (Option Text)
  text_if_set f = do o ← option_at f; s ← text_at f; ok (if o.is_set then some s else none)

  -- What sanityChecks and helpMessages read.
  unfoldable pub values_of : Outcome Values
  values_of = do
    to ← option_at (codes "-inject-to")
    letters ← text_at (codes "-inject-to")
    reg ← text_if_set (codes "-force-inject-to-reg")
    bit ← text_if_set (codes "-force-inject-to-bit")
    ok (record {
      inject_to = letters;
      inject_to_set = to.is_set;
      force_inject_to_reg = Option.map (forced_reg_name def_regs) reg;
      force_inject_to_bit = bit;
    })

  -- helpMessages, less what it prints.
  unfoldable pub help_messages : Outcome (Unit {0})
  help_messages = do
    reg ← text_if_set (codes "-force-inject-to-reg")
    bit ← text_if_set (codes "-force-inject-to-bit")
    if is_help reg then user_die else if is_help bit then user_die else ok tt

-- Jobs.setValue
unfoldable pub set_jobs : {D : Type 0} → ℕ → OptionsMap D → OptionsMap D
set_jobs n [] = []
set_jobs n (o ∷ m) =
    let later = o ∷ set_jobs n m in
    if same_bytes o.flag (codes "-j") then set_value o (natural n) ∷ m else later

abbrev missing_dir : Option Text → (Text → Bool) → Bool → Bool
missing_dir none file_exists set = set
missing_dir (some dir) file_exists set = set && not (file_exists dir)

module _ {D : Type 0} (file_exists : Text → Bool) (hw_threads : ℕ) where
  -- What init does once -bin is known: the checks, and the assignments to Jobs.
  unfoldable pub init_values : OptionsMap D → Text → Outcome (OptionsMap D)
  init_values m path = do
    code ← integer_at m (codes "-detection-exit-code")
    jobs ← natural_at m (codes "-j")
    moufoplot ← option_at m (codes "-out-moufoplot")
    dir ← chars_at m (codes "-out-moufoplot")
    injections ← natural_at m (codes "-injections-per-run")
    limited ← init_checks hw_threads (record {
      detection_exit_code = code;
      jobs = jobs;
      moufoplot_dir_missing = missing_dir dir file_exists moufoplot.is_set;
      injections_per_run = injections;
      binary_exists = file_exists path;
    })
    ok (if jobs == 0 || ltb hw_threads jobs then set_jobs limited m else m)

  -- The version and the help message end the program, and so does a missing -bin.
  unfoldable pub unless_exit : Bool → OptionsMap D → Option Text → Outcome (Option (OptionsMap D))
  unless_exit true m path = ok none
  unless_exit false m none = user_die
  unless_exit false m (some file) = do m' ← init_values m file; ok (some m')

  -- init from the end of the loop of parse on. `none` is exit(0).
  unfoldable pub init_parsed : OptionsMap D → Outcome (Option (OptionsMap D))
  init_parsed m = do
    values ← values_of m
    checked ← sanity_checks values
    no_help ← help_messages m
    version ← option_at m (codes "-version")
    help ← truth_at m (codes "-help")
    path ← chars_at m (codes "-bin")
    unless_exit (version.is_set || help) m path

  -- OptionsParser::init. At its start -v has its initial value 1, so that the dump is never made.
  unfoldable pub init :
      (Text → D × Text) → (D → D) → OptionsMap D → List Text → Outcome (Option (OptionsMap D))
  init strtod rounded options argv = do m ← parse_options strtod rounded argv options; init_parsed m
