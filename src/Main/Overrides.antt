-- ===== src/Main/Overrides.antt =====
-- src/zofi.cpp with src/exitState.cpp and src/runner.cpp: main on options that replace what the
-- timing run gives.
use zofi.Base.{
  >>=-eq-ok, Bool-cases, ap, inl, inr, ok-injective, sym, ◌∙◌, Bool, Outcome, die, false, negsuc,
  none, ok, refl, some, true, user_die, ℕ, ◌≡◌,
}
use zofi.ExitState.Compare.{no_execution, ExecutionExitState, is_execution_set}
use zofi.ExitState.ImportLaws.{import_execution-stdout_fd}
use zofi.Main.Program.{MainOptions, before_tests, main_run, needs_timing_run, timing_run}
use zofi.Statistics.Store.{Statistics}
use zofi.ExitState.Data.{Sys, unset}
use zofi.ExitState.Import.{import_execution}
use zofi.Runner.Verdict.{VerdictOptions, World, check_output}
use zofi.Utils.Text.{Text}

unset_without_fd : (e : ExecutionExitState) → e.stdout_fd ≡ negsuc 0 → is_execution_set e ≡ false
unfolding is_execution_set
unset_without_fd e h = rw h refl

check_output-unset :
    (fuel : ℕ) (sys : Sys) (world : World) (vopts : VerdictOptions) (orig ex : ExecutionExitState)
    → is_execution_set orig ≡ false
    → check_output fuel sys world vopts orig ex ≡ some user_die
unfolding check_output
check_output-unset fuel sys world vopts orig ex h = rw h refl

module _ {D : Type 0} (timing : ℕ → Outcome (D × ExecutionExitState)) (fname_sz errno : ℕ)
    (file_exists : Text → Bool)
    (tests : ℕ → D → ExecutionExitState → Statistics D → Outcome (D × Statistics D))
    (removes : Text → Bool) (opts : MainOptions D) where
  no_timing_run :
      (t : D) (str : Text)
      → opts.bin_exec_time ≡ some t
      → opts.set_orig_exit_state ≡ some str
      → timing_run timing opts ≡ ok (some t, no_execution)
  unfolding timing_run needs_timing_run
  no_timing_run t str time state = elim (Bool-cases opts.disable_timing_run) [
    | inl off ↦ rw (off, time) refl
    | inr on ↦ rw (on, time, state) refl
  ]

  -- With both -bin-exec-time and -set-orig-exit-state, the state that main gives to the test runs,
  -- if it gets as far, has no open files, so that checkOutput on it ends the program with an error
  -- message, whatever the test run did.
  pub before_tests-overridden :
      (t t' : D) (str : Text) (orig : ExecutionExitState) (fuel : ℕ) (sys : Sys) (world : World)
      (vopts : VerdictOptions) (ex : ExecutionExitState)
      → opts.bin_exec_time ≡ some t
      → opts.set_orig_exit_state ≡ some str
      → before_tests timing (import_execution fname_sz errno file_exists) tests removes opts
        ≡ ok (t', orig)
      → check_output fuel sys world vopts orig ex ≡ some user_die
  unfolding before_tests
  before_tests-overridden t t' str orig fuel sys world vopts ex time state h =
      let (e, given, h1) =
        >>=-eq-ok (import_execution fname_sz errno file_exists str no_execution) _
          (rw (no_timing_run t str time state, state) at h) in
      let same : e ≡ orig = ap (λ x. x.1) (ok-injective h1) in
      check_output-unset fuel sys world vopts orig ex (
        unset_without_fd orig (
          ap (λ x. x.stdout_fd) (sym same)
          ∙ import_execution-stdout_fd fname_sz errno file_exists str no_execution given))

  -- With -disable-timing-run, -test-runs 0, and neither -bin-exec-time nor -set-orig-exit-state,
  -- main passes its own check of the options and fails its assertion.
  pub main_run-no_time :
      opts.disable_timing_run ≡ true
      → opts.test_runs ≡ 0
      → opts.bin_exec_time ≡ none
      → opts.set_orig_exit_state ≡ none
      → main_run timing (import_execution fname_sz errno file_exists) tests removes opts ≡ die
  unfolding main_run before_tests timing_run needs_timing_run
  main_run-no_time off zero_runs unset none_given = rw (off, unset, zero_runs, none_given) refl
