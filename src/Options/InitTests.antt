-- ===== src/Options/InitTests.antt =====
-- src/options.cpp: init on command lines for the program's own options.
use zofi.Options.Parse.{parse}
use zofi.Base.{
  Bool, List, Option, Outcome, [], arith, ok, refl, some, to_int, user_die, ℕ, ◌*◌, ◌+◌, ◌∷◌, ◌≡◌,
}
use zofi.Utils.Number.{
  digits_from, is_digit, is_space, sign_of, skip_spaces, strtol, strtol_check, strtol_safe, strtoul,
  strtoul_safe,
}
use zofi.Options.Table.{add_options, option_table, options_list}
use zofi.Options.Init.{
  chars_at, help_messages, init, init_parsed, init_values, integer_at, natural_at, option_at,
  forced_reg_name, set_jobs, text_at, text_if_set, truth_at, unless_exit, values_of,
}
use zofi.Options.Checks.{
  check_bit, check_forced_bit, check_inject_to, check_rows, init_checks, is_inject_to_char,
  limit_jobs, sanity_checks,
}
use zofi.Options.Values.{get_val_for_str, kind_needs_value, set_value, set_value_from_str}
use zofi.Utils.Text.{Text, codes, find_text, is_in, starts_with}
use zofi.Options.Registry.{
  OptionsMap, add_option, find_option, flag_of, parse_options, set_args, set_option, text_lt,
}
use zofi.Options.InitLaws.{IsReady, init-IsReady}
use zofi.Utils.Diff.{same_bytes}
use zofi.Regs.Data.{reg_data}

-- Whole numbers of tenths in place of double.
abbrev decimal_tenths : ℕ → ℕ → ℕ
decimal_tenths a b = a * 10 + b

abbrev whole_tenths : Text → ℕ × Text
whole_tenths s = let r = digits_from 0 s in (r.0 * 10, r.1)

abbrev unrounded : ℕ → ℕ
unrounded x = x

abbrev only_true : Text → Bool
only_true s = same_bytes s (codes "/bin/true")

-- -bin /bin/true -j 9 -force-inject-to-reg ah -force-inject-to-bit 3
abbrev nine_jobs : List Text
nine_jobs =
    codes "-bin"
    ∷ codes "/bin/true"
    ∷ codes "-j"
    ∷ codes "9"
    ∷ codes "-force-inject-to-reg"
    ∷ codes "ah"
    ∷ codes "-force-inject-to-bit"
    ∷ codes "3"
    ∷ []

abbrev started : List Text → Outcome (Option (OptionsMap ℕ))
started argv = init only_true 4 whole_tenths unrounded (option_table decimal_tenths) argv

abbrev options_of : Outcome (Option (OptionsMap ℕ)) → OptionsMap ℕ
options_of (ok (some m)) = m
options_of o = []

abbrev ready : OptionsMap ℕ
ready = options_of (started nine_jobs)

nine_jobs-ready : started nine_jobs ≡ ok (some ready)
unfolding init init_parsed init_values init_checks limit_jobs set_jobs unless_exit values_of
    help_messages text_if_set text_at natural_at integer_at truth_at chars_at option_at
    forced_reg_name sanity_checks check_inject_to is_inject_to_char check_forced_bit check_bit
    check_rows is_in find_text starts_with strtol_check parse_options parse flag_of set_option
    find_option set_value_from_str get_val_for_str kind_needs_value set_args set_value option_table
    options_list add_options add_option text_lt same_bytes strtol_safe strtoul_safe strtol strtoul
    skip_spaces is_space is_digit digits_from sign_of to_int reg_data
nine_jobs-ready = refl

init-IsReady_example : IsReady only_true 4 ready
init-IsReady_example =
    init-IsReady only_true 4 whole_tenths unrounded (option_table decimal_tenths) nine_jobs
      (omega arith) nine_jobs-ready

-- Without -bin the program does not start.
no_binary : started (codes "-j" ∷ codes "9" ∷ []) ≡ user_die
unfolding init init_parsed unless_exit values_of help_messages text_if_set text_at truth_at chars_at
    option_at forced_reg_name sanity_checks check_inject_to is_inject_to_char is_in find_text
    starts_with parse_options parse flag_of set_option find_option set_value_from_str
    get_val_for_str kind_needs_value set_args set_value option_table options_list add_options
    add_option text_lt same_bytes strtol_safe strtoul_safe strtol strtoul skip_spaces is_space
    is_digit digits_from sign_of to_int
no_binary = refl
