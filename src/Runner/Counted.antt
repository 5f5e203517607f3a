-- ===== src/Runner/Counted.antt =====
-- src/runner.cpp and src/threads.cpp: the verdicts, as the statuses that incrStatsCounter gets.
use zofi.Runner.Verdict.{
  VerdictOptions, World, check_output, get_status, is_positive, is_val, on_exit_type,
}
use zofi.Base.{
  Bool, Option, Outcome, assert, die, false, if◌then◌else◌, none, ok, some, true, user_die, ℕ, ◌&&◌,
  ◌==◌, ◌>>=◌, ◌>>◌, ◌||◌, ◌≡◌, ◌≢◌,
}
use zofi.Statistics.Counts.{
  FtStatus, ft_corrupted, ft_detected, ft_exception, ft_inf_exec, ft_inj_failed, ft_masked,
  ft_skipped, no_status,
}
use zofi.ExitState.Data.{
  ExitState, ExitType, Sys, exit_type_index, exited, get_wait_pid_exit_state, invalid, signaled,
  stopped,
}
use zofi.ExitState.Compare.{ExecutionExitState}
use mathlib.Core.Path.{subst}
use mathlib.Core.Option

abbrev IsCounted : FtStatus → Type 0
IsCounted st = (st ≢ no_status) × (st ≢ ft_inj_failed)

abbrev Counts : Outcome FtStatus → Type 0
Counts (ok st) = IsCounted st
Counts die = Unit {0}
Counts user_die = Unit {0}

abbrev MayCount : Option (Outcome FtStatus) → Type 0
MayCount none = Unit {0}
MayCount (some m) = Counts m

MayCount-if :
    (b : Bool) (m n : Option (Outcome FtStatus))
    → MayCount m
    → MayCount n
    → MayCount (if b then m else n)
MayCount-if true m n h k = h
MayCount-if false m n h k = k

MayCount-killed : (b : Bool) (st : FtStatus) → IsCounted st → MayCount (some (do assert b; ok st))
MayCount-killed true st h = h
MayCount-killed false st h = tt

MayCount-verdict :
    (same differs : FtStatus) (m : Option (Outcome Bool))
    → IsCounted same
    → IsCounted differs
    → MayCount (Option.map (λ (x : Outcome Bool). x >>= (λ b. ok (if b then same else differs))) m)
MayCount-verdict same differs none h k = tt
MayCount-verdict same differs (some die) h k = tt
MayCount-verdict same differs (some user_die) h k = tt
MayCount-verdict same differs (some (ok true)) h k = h
MayCount-verdict same differs (some (ok false)) h k = k

on_exit_type-MayCount :
    (sys : Sys) (world : World) (opts : VerdictOptions) (t : ExitType) (v : ℕ)
    (checked : Option (Outcome Bool))
    → MayCount (on_exit_type sys world opts t v checked)
unfolding on_exit_type
on_exit_type-MayCount sys world opts exited v checked =
    MayCount-if (is_positive opts.detection_exit_code && is_val opts.detection_exit_code v)
      (some (ok ft_detected)) _ (λ e. cc, λ e. cc)
      (MayCount-verdict ft_masked ft_corrupted checked (λ e. cc, λ e. cc) (λ e. cc, λ e. cc))
on_exit_type-MayCount sys world opts stopped v checked =
    MayCount-if (v == sys.sigalrm) (some (do assert world.kill_ok; ok ft_inf_exec)) _
      (MayCount-killed world.kill_ok ft_inf_exec (λ e. cc, λ e. cc))
      (MayCount-verdict ft_masked ft_exception checked (λ e. cc, λ e. cc) (λ e. cc, λ e. cc))
on_exit_type-MayCount sys world opts signaled v checked = tt
on_exit_type-MayCount sys world opts invalid v checked = tt

-- A run that is judged gives one of the statuses that incrStatsCounter counts, so never None, and
-- never InjFailed, which tryInjectFaultAt has counted by itself.
pub get_status-counted :
    (fuel : ℕ) (sys : Sys) (world : World) (opts : VerdictOptions) (skip_check : Bool)
    (orig ex_state : ExecutionExitState) (status : ℕ) (st : FtStatus)
    → get_status fuel sys world opts skip_check orig ex_state status ≡ some (ok st)
    → (st ≢ no_status) × (st ≢ ft_inj_failed)
unfolding get_status
get_status-counted fuel sys world opts skip_check orig ex_state status st e =
    subst MayCount e (judged (get_wait_pid_exit_state sys status))
  where
    judged :
        (m : Outcome ExitState)
        → MayCount (elim m [
          | die ↦ some die
          | user_die ↦ some user_die
          | ok s ↦
              let checked = check_output fuel sys world opts orig (record ex_state { state = s }) in
              if opts.no_redirect || skip_check
              then (if exit_type_index s.exit_type == exit_type_index exited
                  then some (ok ft_skipped)
                  else some (do assert world.kill_ok; ok ft_skipped))
              else on_exit_type sys world opts s.exit_type s.val checked
        ])
    judged die = tt
    judged user_die = tt
    judged (ok s) =
        MayCount-if (opts.no_redirect || skip_check) _ _
          (MayCount-if (exit_type_index s.exit_type == exit_type_index exited) _ _
            (λ x. cc, λ x. cc) (MayCount-killed world.kill_ok ft_skipped (λ x. cc, λ x. cc)))
          (on_exit_type-MayCount sys world opts s.exit_type s.val _)
