-- ===== src/Main/Tests.antt =====
-- src/zofi.cpp on concrete options, with milliseconds in place of double.
use zofi.Statistics.Store.{
  Statistics, dump, dump_to_csv, get_str, get_strs, get_type_str, make, num_tests, print_rows,
  set_double, set_ulong, set_zero, stats_to_print,
}
use zofi.Utils.Scan.{scan_char, scan_field, scan_until}
use zofi.Base.{
  Bool, Outcome, [], die, false, negsuc, none, ok, pos, refl, some, to_int, true, user_die, ℕ, ◌%◌,
  ◌*◌, ◌/◌, ◌==◌, ◌≡◌,
}
use zofi.ExitState.Import.{import_execution, import_scanned, scan_exit_state, scan_int}
use zofi.Main.Program.{
  MainOptions, Report, before_tests, main_run, needs_timing_run, remove_safe, removed_files,
  timing_run,
}
use zofi.Utils.Number.{digits_from, is_digit, is_space, sign_of, skip_spaces, strtol}
use zofi.Main.Overrides.{before_tests-overridden}
use zofi.Main.ProgramLaws.{TimeFrom, main_run-time}
use zofi.Runner.Verdict.{VerdictOptions, World, check_output}
use zofi.Utils.Text.{Text, codes}
use zofi.ExitState.Compare.{ExecutionExitState, no_execution}
use zofi.Utils.Diff.{same_bytes}
use zofi.ExitState.Data.{exited, Sys, import}

abbrev timed : ExecutionExitState
timed = record {
  state = record { exit_type = exited; val = 0 };
  stdout_fd = pos 4;
  stderr_fd = pos 5;
  stdout_file = codes "/tmp/zofi.Stdout.0.a";
  stderr_file = codes "/tmp/zofi.Stderr.0.b";
}

abbrev timing_by_jobs : ℕ → Outcome (ℕ × ExecutionExitState)
timing_by_jobs n = ok (n * 100, timed)

abbrev no_change : ℕ → ℕ → ExecutionExitState → Statistics ℕ → Outcome (ℕ × Statistics ℕ)
no_change n t e st = ok (7, st)

abbrev always : Text → Bool
always s = true

abbrev measured : MainOptions ℕ
measured = record {
  jobs = 3;
  test_runs = 2;
  disable_timing_run = false;
  bin_exec_time = none;
  set_orig_exit_state = none;
  no_cleanup = false;
  verbose_level = pos 1;
  out_csv_file = true;
  out_moufoplot_dir = false;
  bin = codes "a.out";
  inject_to = codes "rwe";
  detection_exit_code = pos 0;
}

abbrev import_here : Text → ExecutionExitState → Outcome ExecutionExitState
unfolding import_execution
import_here = import_execution 4096 0 always

abbrev report_or : Outcome (Report ℕ) → Report ℕ → Report ℕ
report_or (ok r) d = r
report_or die d = d
report_or user_die d = d

abbrev blank : Report ℕ
unfolding make
blank = record {
  orig_state = no_execution;
  exec_time = 0;
  stats = make [] [] 0;
  removed = [];
  shown = none;
  csv = none;
  moufoplot = none;
}

abbrev measured_report : Report ℕ
measured_report = report_or (main_run timing_by_jobs import_here no_change always measured) blank

measured-ok : main_run timing_by_jobs import_here no_change always measured ≡ ok measured_report
unfolding main_run before_tests timing_run needs_timing_run removed_files remove_safe set_double
    set_ulong make set_zero dump stats_to_print print_rows dump_to_csv get_strs get_str get_type_str
measured-ok = refl

main_run-time_example :
    TimeFrom timing_by_jobs import_here no_change always measured measured_report.exec_time
    × (measured_report.stats.ulong_map num_tests ≡ some 2)
main_run-time_example =
    main_run-time timing_by_jobs import_here no_change always measured measured_report measured-ok

-- -bin-exec-time 9 -set-orig-exit-state /o,/e,exited:66
abbrev overridden : MainOptions ℕ
overridden = record measured {
  bin_exec_time = some 9;
  set_orig_exit_state = some (codes "/o,/e,exited:66");
}

abbrev given_state : ExecutionExitState
given_state = record {
  state = record { exit_type = exited; val = 66 };
  stdout_fd = negsuc 0;
  stderr_fd = negsuc 0;
  stdout_file = codes "/o";
  stderr_file = codes "/e";
}

overridden-ok :
    before_tests timing_by_jobs (import_execution 16 0 always) no_change always overridden
    ≡ ok (9, given_state)
unfolding before_tests timing_run needs_timing_run import_execution import_scanned scan_exit_state
    mathlib.Core.Option.bind scan_field scan_until scan_char scan_int import same_bytes strtol
    skip_spaces is_space is_digit digits_from sign_of to_int
overridden-ok = refl

abbrev linux : Sys
linux = record {
  w_if_exited = λ s. s % 128 == 0;
  w_exit_status = λ s. s / 256;
  w_if_signaled = λ s. false;
  w_term_sig = λ s. s % 128;
  w_if_stopped = λ s. s % 128 == 127;
  w_stop_sig = λ s. s / 256;
  sigalrm = 14;
  sigstop = 19;
  sigtrap = 5;
  clone_event = 773;
}

abbrev empty_files : World
empty_files = record {
  files = record { open_path = λ p. some []; open_fd = λ d. some [] };
  shell = λ s c. 0;
  kill_ok = true;
}

abbrev default_verdict : VerdictOptions
default_verdict = record {
  no_redirect = false;
  detection_exit_code = pos 0;
  diff_cmd = none;
  diff_shell = codes "/bin/bash";
}

before_tests-overridden_example :
    check_output 9 linux empty_files default_verdict given_state timed ≡ some user_die
before_tests-overridden_example =
    before_tests-overridden timing_by_jobs 16 0 always no_change always overridden 9 9
      (codes "/o,/e,exited:66") given_state 9 linux empty_files default_verdict timed refl refl
      overridden-ok
