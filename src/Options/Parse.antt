-- ===== src/Options/Parse.antt =====
-- src/options.cpp: OptionsParser::parse. The values of the options are a state, and what an option
-- does with the text of its value (setValueFromStr) is a parameter.
use zofi.Base.{List, Option, Outcome, [], none, ok, some, user_die, ◌>>=◌, ◌∷◌}
use zofi.Utils.Text.{Text, codes}

pub data Flag : Type 0 where
  -- Not in OptionsMap.
  unknown : Flag
  -- The option -args, with the rest of the command line as its value.
  args : Flag
  needs_value : Flag
  no_value : Flag

module _ {S : Type 0} (flag : Text → Flag) (set_value : Text → Text → S → Outcome S) where
  -- OptionsParser::parse: the state, and what follows -args, which is `none` when that is not given.
  -- An option that needs a value takes the next argument, whatever that is; the others get "1".
  unfoldable pub parse : List Text → S → Outcome (S × Option (List Text))
  parse [] s = ok (s, none)
  parse (arg ∷ []) s = elim (flag arg) [
    | unknown ↦ user_die
    | args ↦ ok (s, some [])
    | needs_value ↦ user_die
    | no_value ↦ do s' ← set_value arg (codes "1") s; ok (s', none)
  ]
  parse (arg ∷ v ∷ rest) s = elim (flag arg) [
    | unknown ↦ user_die
    | args ↦ ok (s, some (v ∷ rest))
    | needs_value ↦ do s' ← set_value arg v s; parse rest s'
    | no_value ↦ do s' ← set_value arg (codes "1") s; parse (v ∷ rest) s'
  ]
