-- ===== src/Options/Tests.antt =====
-- src/options.cpp on concrete command lines.
use zofi.Regs.Manip.{find, insert, populate, str_to_reg_map}
use zofi.Utils.Number.{digits_from, is_digit, is_space, sign_of, skip_spaces, strtol, strtol_check}
use zofi.Options.Checks.{
  InitValues, Values, check_bit, check_forced_bit, check_inject_to, check_rows, init_checks,
  is_inject_to_char, limit_jobs, sanity_checks,
}
use zofi.Options.Parse.{Flag, args, needs_value, no_value, parse, unknown}
use zofi.Base.{
  List, Outcome, [], false, if◌then◌else◌, ok, pos, refl, some, true, ℕ, ◌+◌, ◌<◌, ◌==◌, ◌>>=◌, ◌∷◌,
  ◌≡◌,
}
use zofi.Options.Rendered.{apply, parse-render, render, switch, with_value}
use zofi.Utils.Text.{Text, codes, find_text, is_in, starts_with}
use zofi.Regs.Data.{GpField, RegData, in_gp, reg_data}
use zofi.Utils.Diff.{same_bytes}
use zofi.Options.ChecksLaws.{sanity_checks-forced}

abbrev four_threads : InitValues
four_threads = record {
  detection_exit_code = pos 0;
  jobs = 0;
  moufoplot_dir_missing = false;
  injections_per_run = 1;
  binary_exists = true;
}

four_threads-ok : init_checks 4 four_threads ≡ ok 4
unfolding init_checks limit_jobs
four_threads-ok = refl

-- Bit 3 of ah, whose bits are 8 to 15, passes.
abbrev ah_3 : Values
ah_3 = record {
  inject_to = codes "we";
  inject_to_set = false;
  force_inject_to_reg = some "ah";
  force_inject_to_bit = some (codes "3");
}

ah_3-passes : sanity_checks ah_3 ≡ ok tt
unfolding sanity_checks check_inject_to is_inject_to_char check_forced_bit check_bit check_rows
    same_bytes is_in find_text starts_with strtol_check strtol skip_spaces is_space is_digit
    digits_from sign_of reg_data
ah_3-passes = refl

abbrev ah_row : RegData
ah_row = record { reg_ptr = in_gp GpField.rax; start_bit = 8; bits = 8 }

ah_row-known : find "ah" str_to_reg_map ≡ some ah_row
unfolding find str_to_reg_map populate insert reg_data
ah_row-known = refl

sanity_checks-forced_example : (n : ℕ) × (strtol_check (codes "3") ≡ (pos n, true)) × (n < 8 + 8)
unfolding same_bytes
sanity_checks-forced_example =
    sanity_checks-forced ah_3 "ah" (codes "3") ah_row ah_3-passes refl refl refl ah_row-known

-- 1 needs a value, 2 is a switch, and 3 is -args.
abbrev by_head : Text → Flag
by_head [] = unknown
by_head (c ∷ s) =
    if c == 1 then needs_value else if c == 2 then no_value else if c == 3 then args else unknown

abbrev note : Text → Text → List Text → Outcome (List Text)
note f v s = ok (v ∷ s)

abbrev no_texts : List Text
no_texts = []

parse-render_example :
    parse by_head note
      (render (with_value (1 ∷ []) (7 ∷ []) ∷ switch (2 ∷ []) ∷ []) ((3 ∷ []) ∷ (9 ∷ []) ∷ []))
      no_texts
    ≡ (apply by_head note (with_value (1 ∷ []) (7 ∷ []) ∷ switch (2 ∷ []) ∷ []) no_texts >>= λ s.
        ok (s, some ((9 ∷ []) ∷ [])))
parse-render_example =
    parse-render by_head note (with_value (1 ∷ []) (7 ∷ []) ∷ switch (2 ∷ []) ∷ []) (3 ∷ [])
      ((9 ∷ []) ∷ []) no_texts (refl, (refl, tt)) refl
