-- ===== src/Options/Registry.antt =====
-- src/options.cpp: OptionsMap with the option objects it points to, addOption, and parse on it.
use zofi.Base.{
  Bool, List, Option, Outcome, [], false, if◌then◌else◌, ltb, none, ok, some, true, user_die, ◌&&◌,
  ◌==◌, ◌>>=◌, ◌||◌, ◌∷◌,
}
use zofi.Options.Values.{OptionVar, kind_needs_value, set_value, set_value_from_str, strings}
use zofi.Utils.Diff.{same_bytes}
use zofi.Options.Parse.{Flag, args, needs_value, no_value, parse, unknown}
use zofi.Utils.Text.{Text, codes}

-- std::map in the order of its keys. No two options share an object, so the objects stand in the
-- map themselves.
abbrev pub OptionsMap : Type 0 → Type 0
OptionsMap D = List (OptionVar D)

-- operator< of std::string.
unfoldable pub text_lt : Text → Text → Bool
text_lt s [] = false
text_lt [] (c ∷ t) = true
text_lt (d ∷ s) (c ∷ t) = ltb d c || (d == c && text_lt s t)

-- addOption: `OptionsMap[Flag] = Opt`.
unfoldable pub add_option : {D : Type 0} → OptionVar D → OptionsMap D → OptionsMap D
add_option opt [] = opt ∷ []
add_option opt (o ∷ m) =
    let later = o ∷ add_option opt m in
    if same_bytes o.flag opt.flag
    then opt ∷ m
    else if text_lt opt.flag o.flag
    then opt ∷ o ∷ m
    else later

unfoldable pub find_option : {D : Type 0} → Text → OptionsMap D → Option (OptionVar D)
find_option f [] = none
find_option f (o ∷ m) = if same_bytes o.flag f then some o else find_option f m

abbrev pub args_flag : Text
args_flag = codes "-args"

-- How parse treats an argument.
unfoldable pub flag_of : {D : Type 0} → OptionsMap D → Text → Flag
flag_of m f = elim (find_option f m) [
  | none ↦ unknown
  | some opt ↦
      if same_bytes f args_flag
      then args
      else if kind_needs_value opt.kind
      then needs_value
      else no_value
]

-- Args.setValue(&argv[i + 1])
unfoldable pub set_args : {D : Type 0} → List Text → OptionsMap D → OptionsMap D
set_args l [] = []
set_args l (o ∷ m) =
    if same_bytes o.flag args_flag then set_value o (strings (some l)) ∷ m else o ∷ set_args l m

-- `break` at -args, or the end of argv.
abbrev pub with_args : {D : Type 0} → OptionsMap D × Option (List Text) → OptionsMap D
with_args (m, none) = m
with_args (m, some l) = set_args l m

module _ {D : Type 0} (strtod : Text → D × Text) (rounded : D → D) where
  -- Opt->setValueFromStr on the option found.
  unfoldable pub set_option : Text → Text → OptionsMap D → Outcome (OptionsMap D)
  set_option f s [] = user_die
  set_option f s (o ∷ m) =
      let later = (do m' ← set_option f s m; ok (o ∷ m')) in
      let here = (do o' ← set_value_from_str strtod rounded o s; ok (o' ∷ m)) in
      if same_bytes o.flag f then here else later

  -- The loop of OptionsParser::parse on argv after the program's name.
  unfoldable pub parse_options : List Text → OptionsMap D → Outcome (OptionsMap D)
  parse_options argv m = do r ← parse (flag_of m) set_option argv m; ok (with_args r)
