-- ===== src/Options/TableTests.antt =====
-- src/optionsList.cpp and src/options.cpp: command lines parsed with the program's own options.
use zofi.Base.{
  to_int, List, Outcome, [], arith, die, false, ok, pos, refl, some, true, user_die, ℕ, ◌*◌, ◌++◌,
  ◌+◌, ◌-◌, ◌<◌, ◌∷◌, ◌≡◌, ◌≤◌,
}
use zofi.Options.Rendered.{AllKnown, Setting, render, switch, with_value}
use zofi.Utils.Number.{
  digits_from, is_digit, is_space, sign_of, skip_spaces, strtol, strtol_safe, strtoul, strtoul_safe,
}
use zofi.Options.Registry.{
  OptionsMap, add_option, args_flag, find_option, flag_of, parse_options, set_args, set_option,
  text_lt,
}
use zofi.Options.Parse.{args, parse}
use zofi.Options.Values.{
  Kind, OptionVar, Value, get_val_for_str, kind_needs_value, set_value, set_value_from_str, signed,
}
use zofi.Options.HelpText.{is_line_split_candidate, max_flag_width, print_all_options}
use zofi.Utils.Text.{Text, codes}
use zofi.Options.LastValue.{mentions, parse_options-last}
use zofi.Options.HelpTextLaws.{
  AllFitIn, descriptions, descriptions_fit, joined, print_all_options_lem, words_fit,
}
use zofi.Utils.Diff.{same_bytes}
use zofi.Options.Table.{add_options, option_table, options_list}

-- Whole numbers of tenths in place of double, and its strtod for digits.
abbrev tenths : ℕ → ℕ → ℕ
tenths a b = a * 10 + b

abbrev read_whole : Text → ℕ × Text
read_whole s = let r = digits_from 0 s in (r.0 * 10, r.1)

abbrev same_double : ℕ → ℕ
same_double x = x

abbrev start : OptionsMap ℕ
start = option_table tenths

-- -v 5 -no-cleanup -v -2 -j 3 -args -v
abbrev before_v : List Setting
before_v = with_value (codes "-v") (codes "5") ∷ switch (codes "-no-cleanup") ∷ []

abbrev after_v : List Setting
after_v = with_value (codes "-j") (codes "3") ∷ []

abbrev settings : List Setting
settings = before_v ++ with_value (codes "-v") (codes "-2") ∷ after_v

abbrev program_args : List Text
program_args = codes "-v" ∷ []

abbrev argv : List Text
argv = render settings (args_flag ∷ program_args)

abbrev end_of : Outcome (OptionsMap ℕ) → OptionsMap ℕ
end_of (ok m) = m
end_of die = []
end_of user_die = []

abbrev finished : OptionsMap ℕ
finished = end_of (parse_options read_whole same_double argv start)

parsed : parse_options read_whole same_double argv start ≡ ok finished
unfolding parse_options parse flag_of set_option find_option set_value_from_str get_val_for_str
    kind_needs_value set_args set_value option_table options_list add_options add_option text_lt
    same_bytes strtol_safe strtoul_safe strtol strtoul skip_spaces is_space is_digit digits_from
    sign_of to_int
parsed = refl

abbrev verbose : OptionVar ℕ
verbose = record {
  flag = codes "-v";
  kind = Kind.int;
  description = codes "The program's verbosity level.";
  val = signed (pos 1);
  is_set = false;
}

known : AllKnown (flag_of start) (set_option read_whole same_double) settings
unfolding flag_of find_option kind_needs_value option_table options_list add_options add_option
    text_lt same_bytes
known = (refl, (refl, (refl, (refl, tt))))

args_known : flag_of start args_flag ≡ args
unfolding flag_of find_option kind_needs_value option_table options_list add_options add_option
    text_lt same_bytes
args_known = refl

not_args : same_bytes (codes "-v") args_flag ≡ false
unfolding same_bytes
not_args = refl

verbose-found : find_option (codes "-v") start ≡ some verbose
unfolding find_option option_table options_list add_options add_option text_lt same_bytes
verbose-found = refl

not_again : mentions (codes "-v") after_v ≡ false
unfolding same_bytes
not_again = refl

parse_options-last_example :
    (v : Value ℕ) × (get_val_for_str read_whole same_double Kind.int (codes "-2") ≡ ok v)
    × (find_option (codes "-v") finished ≡ some (set_value verbose v))
parse_options-last_example =
    parse_options-last read_whole same_double before_v after_v (codes "-v") (codes "-2")
      program_args start verbose known args_known not_args verbose-found not_again parsed

-- The longest flag is -bin-exec-time-overshoot.
width : max_flag_width start ≤ 35
unfolding max_flag_width option_table options_list add_options add_option text_lt same_bytes
width = omega arith

splittable : descriptions_fit (76 - max_flag_width start) start ≡ true
unfolding max_flag_width words_fit is_line_split_candidate option_table options_list add_options
    add_option text_lt same_bytes
splittable = refl

print_all_options_lem_example :
    (out : List (Text × List Text)) × (print_all_options start ≡ ok (some out))
    × (joined out ≡ descriptions start)
    × AllFitIn (76 - max_flag_width start) out
    × (76 - max_flag_width start < 80)
print_all_options_lem_example = print_all_options_lem start width splittable
