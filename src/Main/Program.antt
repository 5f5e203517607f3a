-- ===== src/Main/Program.antt =====
-- src/zofi.cpp: main, from the end of Options.init on. The timing run, the import of an exit state,
-- the test runs and remove(3) are parameters; the measured times are part of what the runs give.
use zofi.Base.{
  Bool, List, Option, Outcome, String, [], assert, die, false, if◌then◌else◌, is_some, leb, negsuc,
  none, not, ok, pos, some, true, user_die, ℕ, ℤ, ◌&&◌, ◌==◌, ◌>>=◌, ◌>>◌, ◌||◌, ◌∷◌,
}
use zofi.ExitState.Compare.{ExecutionExitState, no_execution}
use zofi.Statistics.Store.{
  Printed, Statistics, dump, dump_to_csv, dump_to_moufoplot, make, num_tests, orig_exec_time,
  set_double, set_ulong, tests_exec_time,
}
use zofi.Utils.Text.{Text}
use Prim.Native.Nat.{min}

-- The options that main reads. An option that must be set is `some` of its value.
pub record MainOptions (D : Type 0) : Type 0 where
  pub jobs : ℕ
  pub test_runs : ℕ
  pub disable_timing_run : Bool
  pub bin_exec_time : Option D
  pub set_orig_exit_state : Option Text
  pub no_cleanup : Bool
  pub verbose_level : ℤ
  pub out_csv_file : Bool
  pub out_moufoplot_dir : Bool
  -- What the constructor of Statistics and its dump read.
  pub bin : Text
  pub inject_to : Text
  pub detection_exit_code : ℤ

-- What main leaves: the state and the time that the test runs had, the statistics and what is
-- printed of them, and the files it removed.
pub record Report (D : Type 0) : Type 0 where
  pub orig_state : ExecutionExitState
  pub exec_time : D
  pub stats : Statistics D
  pub removed : List Text
  pub shown : Option (Option (List (String × ℕ × ℕ)))
  pub csv : Option (List (String × Printed D))
  pub moufoplot : Option (List (String × Printed D))

abbrev pub at_least_one : ℤ → Bool
at_least_one (pos n) = leb 1 n
at_least_one (negsuc n) = false

abbrev pub set_or_die {ℓ} : {A : Type ℓ} → Option A → Outcome A
set_or_die none = die
set_or_die (some a) = ok a

-- A method that runs only if the condition holds.
abbrev pub only_if {ℓ} : {A : Type ℓ} → Bool → Outcome A → Outcome (Option A)
only_if false m = ok none
only_if true m = do a ← m; ok (some a)

abbrev pub not_empty : List Text → List Text
not_empty [] = []
not_empty ([] ∷ l) = not_empty l
not_empty ((c ∷ s) ∷ l) = (c ∷ s) ∷ not_empty l

-- removeSafe on each.
unfoldable pub remove_safe : (Text → Bool) → List Text → Outcome (List Text)
remove_safe removes [] = ok []
remove_safe removes (file ∷ l) = do
  assert (removes file)
  rest ← remove_safe removes l
  ok (file ∷ rest)

module _ {D : Type 0} where
  unfoldable pub needs_timing_run : MainOptions D → Bool
  needs_timing_run opts =
      not opts.disable_timing_run
      && (not (is_some opts.bin_exec_time) || not (is_some opts.set_orig_exit_state))

  module _ (timing : ℕ → Outcome (D × ExecutionExitState)) where
    -- BinExecTime and OrigState after the timing run, or with none.
    unfoldable pub timing_run : MainOptions D → Outcome (Option D × ExecutionExitState)
    timing_run opts =
        if needs_timing_run opts
        then (do
          (duration, state) ← timing (min opts.jobs opts.test_runs)
          ok (some (elim opts.bin_exec_time [ none ↦ duration | some t ↦ t ]), state))
        else ok (opts.bin_exec_time, no_execution)

    module _ (import_state : Text → ExecutionExitState → Outcome ExecutionExitState)
        (tests : ℕ → D → ExecutionExitState → Statistics D → Outcome (D × Statistics D))
        (removes : Text → Bool) where
      -- OrigState.import, where the user has given a state.
      abbrev pub imported_state : Option Text → ExecutionExitState → Outcome ExecutionExitState
      imported_state none state = ok state
      imported_state (some str) state = import_state str state

      -- From the sanity check to the assertion.
      unfoldable pub before_tests : MainOptions D → Outcome (D × ExecutionExitState)
      before_tests opts = do
        (time, state) ← timing_run opts
        if not (is_some time) && not (opts.test_runs == 0) then user_die else do
          orig ← imported_state opts.set_orig_exit_state state
          t ← set_or_die time
          ok (t, orig)

      unfoldable pub removed_files : MainOptions D → ExecutionExitState → List Text
      removed_files opts orig =
          if not opts.no_cleanup && not (is_some opts.set_orig_exit_state)
          then not_empty (orig.stdout_file ∷ orig.stderr_file ∷ [])
          else []

      unfoldable pub main_run : MainOptions D → Outcome (Report D)
      main_run opts = do
        (time, orig) ← before_tests opts
        st ← set_double orig_exec_time time (make opts.bin opts.inject_to opts.test_runs)
        (secs, st) ← tests opts.test_runs time orig st
        removed ← remove_safe removes (removed_files opts orig)
        st ← set_double tests_exec_time secs st
        st ← set_ulong num_tests opts.test_runs st
        shown ← only_if (at_least_one opts.verbose_level) (dump opts.detection_exit_code st)
        csv ← only_if opts.out_csv_file (dump_to_csv st)
        moufoplot ← only_if opts.out_moufoplot_dir (dump_to_moufoplot st)
        ok (record {
          orig_state = orig;
          exec_time = time;
          stats = st;
          removed = removed;
          shown = shown;
          csv = csv;
          moufoplot = moufoplot;
        })
