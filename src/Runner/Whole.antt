-- ===== src/Runner/Whole.antt =====
-- src/runner.cpp: Runner::runAndWait and OrigRunner::runAndWait as a whole.
use zofi.Base.{
  ◌&&◌, ◌==◌, ◌||◌, [], true, ◌∷◌, Bool, List, Option, Outcome, die, false, if◌then◌else◌, none,
  not, ok, some, user_die, ℕ, ◌>>=◌,
}
use zofi.ExitState.Data.{stopped, exited, ExitState, exit_type_index, Sys, get_wait_pid_exit_state}
use zofi.Runner.Wait.{Waited, Event, waitpid_skip_thread_state}
use zofi.Runner.Verdict.{VerdictOptions, World, get_status}
use zofi.Runner.Inject.{Attempt, inject_loop}
use zofi.ExitState.Compare.{ExecutionExitState}
use Prim.Native.Nat.{max}
use zofi.Statistics.Counts.{FtStatus}

-- What follows the last call of run: the child, the events that waitpid gives, and ChildThreads.
pub record After : Type 0 where
  pub child : ℕ
  pub events : List Event
  pub threads : List ℕ
  -- What waitpid with WNOHANG gives to the calls of cleanupWaitpidState, one after the other: `some b`
  -- for zero, where the waitpidSafe that follows succeeds if b is true, and `none` for anything else.
  pub polled : List (Option Bool)

-- What follows a step that may not come back: `none`.
abbrev pub and_then :
    {A B : Type 0} → Option (Outcome A) → (A → Option (Outcome B)) → Option (Outcome B)
and_then none f = none
and_then (some die) f = some die
and_then (some user_die) f = some user_die
and_then (some (ok a)) f = f a

abbrev pub unless_blocked : Option Event → Option (Outcome Event)
unless_blocked none = none
unless_blocked (some e) = some (ok e)

abbrev pub event_of : Waited → Option (Outcome Event)
event_of w = unless_blocked w.returned

-- The event of waitpidSkipThreadState: `none` where waitpid blocks for ever.
unfoldable pub wait_event : Sys → After → Option (Outcome Event)
wait_event sys a =
    and_then (some (waitpid_skip_thread_state sys a.child a.events a.threads)) event_of

-- cleanupWaitpidState, with what waitpid gives after it.
unfoldable pub cleanup_waitpid_state : List (Option Bool) → Option (Outcome (List (Option Bool)))
cleanup_waitpid_state [] = none
cleanup_waitpid_state (none ∷ l) = some (ok l)
cleanup_waitpid_state (some false ∷ l) = some die
cleanup_waitpid_state (some true ∷ l) = cleanup_waitpid_state l

-- Whether waitChildAndGetStatus kills the child and calls cleanupWaitpidState.
unfoldable pub kills_child : Sys → VerdictOptions → Bool → ExitState → Bool
kills_child sys opts skip_check s =
    if opts.no_redirect || skip_check
    then not (exit_type_index s.exit_type == exit_type_index exited)
    else exit_type_index s.exit_type == exit_type_index stopped && s.val == sys.sigalrm

abbrev pub cleanup_if : Bool → List (Option Bool) → Option (Outcome (List (Option Bool)))
cleanup_if true polled = cleanup_waitpid_state polled
cleanup_if false polled = some (ok polled)

-- Runner::waitChildAndGetStatus, with what waitpid gives after it. get_status holds the PTRACE_KILL,
-- which the cleanup follows.
unfoldable pub wait_child_and_get_status :
    ℕ
    → Sys
    → World
    → VerdictOptions
    → Bool
    → ExecutionExitState
    → ExecutionExitState
    → After
    → Option (Outcome (FtStatus × List (Option Bool)))
wait_child_and_get_status fuel sys world opts skip_check orig ex a =
    and_then (wait_event sys a) λ e. and_then (some (get_wait_pid_exit_state sys e.status)) λ s.
      and_then (get_status fuel sys world opts skip_check orig ex e.status) λ st.
        and_then (cleanup_if (kills_child sys opts skip_check s) a.polled)
          λ polled. some (ok (st, polled))

-- Runner::runAndWait: FaultInjectionStatus. What is left of the child after the last run depends on
-- how many there were. The PTRACE_KILL before the last cleanup may fail. `none` where waitpid blocks for
-- ever or a fuel runs out.
unfoldable pub run_and_wait :
    ℕ
    → Sys
    → World
    → VerdictOptions
    → ℕ
    → Bool
    → (ℕ → Attempt)
    → (ℕ → After)
    → ExecutionExitState
    → ExecutionExitState
    → Option (Outcome FtStatus)
run_and_wait fuel sys world opts max injecting tries left orig ex =
    and_then (inject_loop max injecting tries 0 max) λ runs.
      and_then (wait_child_and_get_status fuel sys world opts false orig ex (left runs))
        λ (st, polled). and_then (cleanup_waitpid_state polled) λ rest. some (ok st)

-- OrigRunner::runAndWait: the exit state of the run, if run gives true.
unfoldable pub orig_run_and_wait :
    Sys → Bool → After → ExecutionExitState → Option (Outcome ExecutionExitState)
orig_run_and_wait sys success a ex =
    if not success
    then some user_die
    else and_then (wait_event sys a)
        λ e. some (do s ← get_wait_pid_exit_state sys e.status; ok (record ex { state = s }))
