-- ===== src/Runner/WholeLaws.antt =====
-- src/runner.cpp: runAndWait on children that end.
use zofi.Runner.Verdict.{get_status, VerdictOptions, World}
use zofi.Runner.Whole.{
  cleanup_if, kills_child, cleanup_waitpid_state, and_then, event_of, unless_blocked, After,
  run_and_wait, wait_child_and_get_status, wait_event,
}
use zofi.Base.{
  zero, replicate, Bool, Option, ap, ◌∙◌, sym, In, List, [], false, inl, inr, none, ok, refl, some,
  suc, true, ℕ, ◌++◌, ◌-◌, ◌<◌, ◌^◌, ◌∷◌, ◌≡◌, ◌≢◌,
}
use zofi.Runner.Attempts.{inject_loop-first}
use mathlib.Core.Path.{subst}
use zofi.Utils.Text.{Text}
use zofi.Runner.WaitLaws.{AllAnswered, AllSkipped, waitpid_skip_lem}
use zofi.Runner.VerdictLaws.{get_status-masked_iff}
use zofi.Statistics.Counts.{FtStatus}
use zofi.ExitState.Data.{ExitState, Sys, get_wait_pid_exit_state, signaled}
use zofi.Runner.Wait.{Event}
use Prim.Native.Nat.{max}
use zofi.ExitState.Compare.{ExecutionExitState, is_execution_set}
use zofi.Runner.Inject.{Attempt, attempt_once}

In-append : (e : Event) (pre rest : List Event) → In e (pre ++ e ∷ rest)
In-append e [] rest = inl refl
In-append e (x ∷ pre) rest = inr (In-append e pre rest)

-- Where ptrace succeeds and not every event is skipped, waitpidSkipThreadState comes back, with one
-- of the events.
wait_event-returns :
    (sys : Sys) (a : After)
    → AllAnswered a.events
    → ¬ AllSkipped sys a.events a.threads
    → (e : Event) × (wait_event sys a ≡ some (ok e)) × In e a.events
unfolding wait_event
wait_event-returns sys a answered some_reported =
    let (w, ran, pre, skipped_pre, out) =
      waitpid_skip_lem sys a.child a.events a.threads answered in
    elim out [
      | inl (gone, whole, left) ↦
          absurd (some_reported (subst (λ l. AllSkipped sys l a.threads) (sym whole) skipped_pre))
      | inr (e, got, split, new, left) ↦ (
        e,
        ap (λ m. and_then (some m) event_of) ran ∙ ap unless_blocked got,
        subst (λ l. In e l) (sym split) (In-append e pre w.rest),
      )
    ]

-- The cleanup comes to its end once nothing is left to wait for.
cleanup_waitpid_state-ends :
    (n : ℕ) (rest : List (Option Bool))
    → cleanup_waitpid_state (replicate n (some true) ++ none ∷ rest) ≡ some (ok rest)
unfolding cleanup_waitpid_state
cleanup_waitpid_state-ends zero rest = refl
cleanup_waitpid_state-ends (suc n) rest = cleanup_waitpid_state-ends n rest

-- The answers of waitpid to two cleanups, after n and k waits.
abbrev pub two_cleanups : ℕ → ℕ → List (Option Bool) → List (Option Bool)
two_cleanups n k rest = replicate n (some true) ++ none ∷ (replicate k (some true) ++ none ∷ rest)

-- Both cleanups come to their ends, also where only the last one is made.
cleanup_if-ends :
    (b : Bool) (n k : ℕ) (polled rest : List (Option Bool))
    → polled ≡ two_cleanups n k rest
    → (l l' : List (Option Bool)) × (cleanup_if b polled ≡ some (ok l))
      × (cleanup_waitpid_state l ≡ some (ok l'))
cleanup_if-ends true n k polled rest e = (
  replicate k (some true) ++ none ∷ rest,
  rest,
  ap cleanup_waitpid_state e ∙ cleanup_waitpid_state-ends n _,
  cleanup_waitpid_state-ends k rest,
)
cleanup_if-ends false n k polled rest e = (
  polled,
  replicate k (some true) ++ none ∷ rest,
  refl,
  ap cleanup_waitpid_state e ∙ cleanup_waitpid_state-ends n _,
)

-- waitChildAndGetStatus gives the status of the event, and the last cleanup comes to its end.
wait_child_and_get_status-ends :
    (fuel : ℕ) (sys : Sys) (world : World) (opts : VerdictOptions) (orig ex : ExecutionExitState)
    (a : After) (e : Event) (s : ExitState) (st : FtStatus) (n k : ℕ) (rest : List (Option Bool))
    → wait_event sys a ≡ some (ok e)
    → get_wait_pid_exit_state sys e.status ≡ ok s
    → get_status fuel sys world opts false orig ex e.status ≡ some (ok st)
    → a.polled ≡ two_cleanups n k rest
    → (l l' : List (Option Bool)) × (wait_child_and_get_status fuel sys world opts false orig ex a
        ≡ some (ok (st, l)))
      × (cleanup_waitpid_state l ≡ some (ok l'))
unfolding wait_child_and_get_status
wait_child_and_get_status-ends fuel sys world opts orig ex a e s st n k rest came got judged gone =
    let (l, l', first, last) =
      cleanup_if-ends (kills_child sys opts false s) n k a.polled rest gone in
    (l, l', rw (came, wait_child_and_get_status) (rw (got, judged) (rw first refl)), last)

module _ (sys : Sys) (world : World) (opts : VerdictOptions) (orig ex : ExecutionExitState)
    (out err out' err' : Text) (redirect : opts.no_redirect ≡ false)
    (default : opts.diff_cmd ≡ none) (killed : world.kill_ok ≡ true)
    (orig_set : is_execution_set orig ≡ true)
    (out_read : world.files.open_fd ex.stdout_fd ≡ some out)
    (err_read : world.files.open_fd ex.stderr_fd ≡ some err)
    (orig_out_read : world.files.open_path orig.stdout_file ≡ some out')
    (orig_err_read : world.files.open_path orig.stderr_file ≡ some err') where
  -- Under the options and files of a run that can be judged: when an attempt injects a fault, the
  -- first to do so within the bound, and then the child and its threads are not all skipped by
  -- waitpidSkipThreadState, none of their events is a termination by a signal, ptrace works, and
  -- each call of cleanupWaitpidState, the one after a kill in waitChildAndGetStatus included, has
  -- nothing left to wait for after some successful waits, runAndWait comes to its end with a verdict.
  pub run_and_wait-verdict :
      (fuel max j n k : ℕ) (tries : ℕ → Attempt) (left : ℕ → After) (rest : List (Option Bool))
      → suc max < 2 ^ 32
      → j < max - 1
      → ((i : ℕ) → i < j → attempt_once true (tries i) ≡ ok false)
      → attempt_once true (tries j) ≡ ok true
      → AllAnswered (left (suc j)).events
      → ¬ AllSkipped sys (left (suc j)).events (left (suc j)).threads
      → (left (suc j)).polled ≡ two_cleanups n k rest
      → ((e : Event)
          → In e (left (suc j)).events
          → (s : ExitState) × (get_wait_pid_exit_state sys e.status ≡ ok s)
            × (s.exit_type ≢ signaled))
      → (st : FtStatus) × (run_and_wait fuel sys world opts max true tries left orig ex
          ≡ some (ok st))
  unfolding run_and_wait
  run_and_wait-verdict fuel max j n k tries left rest small early failed good answered reported gone
        ends =
      let (e, came, among) = wait_event-returns sys (left (suc j)) answered reported in
      let (s, got, not_signaled) = ends e among in
      let (st, judged, iff) =
        get_status-masked_iff fuel sys world opts orig ex e.status s out err out' err' redirect
          default killed orig_set got not_signaled out_read err_read orig_out_read orig_err_read in
      let (l, l', waited, last) =
        wait_child_and_get_status-ends fuel sys world opts orig ex (left (suc j)) e s st n k rest
          came got judged gone in
      (st, rw (inject_loop-first max tries j small early failed good, waited, last) refl)
