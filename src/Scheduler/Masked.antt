-- ===== src/Scheduler/Masked.antt =====
-- src/threads.cpp and src/runner.cpp: what the counter of the masked runs counts.
use zofi.Base.{
  Bool, arith, false, none, not, ok, ok-injective, refl, some, some_inj, sym, true, ℕ, ◌&&◌, ◌↔◌,
  ◌∙◌, ◌≡◌, ◌≢◌,
}
use zofi.Statistics.Counts.{
  FtStatus, ft_corrupted, ft_detected, ft_exception, ft_inf_exec, ft_inj_failed, ft_masked,
  ft_skipped, is_same, no_status, type_of,
}
use zofi.ExitState.Data.{ExitState, Sys, get_wait_pid_exit_state, same_state, signaled}
use zofi.Runner.VerdictLaws.{get_status-masked_iff, is_alarm, is_detected}
use zofi.Runner.Verdict.{VerdictOptions, World, get_status}
use zofi.Statistics.Store.{StatType}
use zofi.Utils.Text.{Text}
use zofi.Runner.Child.{redirect}
use zofi.Utils.Diff.{same_bytes, same_bytes-eq, same_bytes_refl}
use zofi.ExitState.Compare.{ExecutionExitState, is_execution_set, same_state_iff}

-- How a test run has ended: the world at its verdict, its files, the wait status, the exit state
-- that this stands for, and what the two files hold.
pub record TestRun : Type 0 where
  pub world : World
  pub ex_state : ExecutionExitState
  pub wait_status : ℕ
  pub state : ExitState
  pub out : Text
  pub err : Text

-- Neither detected nor stopped by the alarm, and with the exit state and the output given.
abbrev pub is_like : Sys → VerdictOptions → ExitState → Text → Text → TestRun → Bool
is_like sys opts state out err r =
    not (is_detected opts r.state)
    && (not (is_alarm sys r.state)
        && (same_state r.state state && (same_bytes r.out out && same_bytes r.err err)))

masked_only : (st : FtStatus) → (is_same StatType.masked (type_of st) ≡ true) ↔ (st ≡ ft_masked)
masked_only ft_masked = ((λ e. refl), (λ e. refl))
masked_only no_status = ((λ e. cc), (λ e. cc))
masked_only ft_exception = ((λ e. cc), (λ e. cc))
masked_only ft_inf_exec = ((λ e. cc), (λ e. cc))
masked_only ft_corrupted = ((λ e. cc), (λ e. cc))
masked_only ft_detected = ((λ e. cc), (λ e. cc))
masked_only ft_inj_failed = ((λ e. cc), (λ e. cc))
masked_only ft_skipped = ((λ e. cc), (λ e. cc))

same_truth : (a b : Bool) → (a ≡ true) ↔ (b ≡ true) → a ≡ b
same_truth true b i = sym (i.0 refl)
same_truth false true i = i.1 refl
same_truth false false i = refl

same_bytes_iff : (s t : Text) → (same_bytes s t ≡ true) ↔ (s ≡ t)
same_bytes_iff s t = (same_bytes-eq s t, λ e. rw e (same_bytes_refl t))

module _ (fuel : ℕ) (sys : Sys) (opts : VerdictOptions) (orig : ExecutionExitState)
    (orig_out orig_err : Text) where
  -- A run whose two files and those of the timing run can be read, whose child can be killed and was
  -- not terminated by a signal, and for which get_status gives the status.
  pub record IsJudged (r : TestRun) (st : FtStatus) : Type 0 where
    pub killed : r.world.kill_ok ≡ true
    pub state_known : get_wait_pid_exit_state sys r.wait_status ≡ ok r.state
    pub no_signal : r.state.exit_type ≢ signaled
    pub out_read : r.world.files.open_fd r.ex_state.stdout_fd ≡ some r.out
    pub err_read : r.world.files.open_fd r.ex_state.stderr_fd ≡ some r.err
    pub orig_out_read : r.world.files.open_path orig.stdout_file ≡ some orig_out
    pub orig_err_read : r.world.files.open_path orig.stderr_file ≡ some orig_err
    pub verdict :
        get_status fuel sys r.world opts false orig r.ex_state r.wait_status ≡ some (ok st)

  is_like_iff :
      (r : TestRun)
      → (is_like sys opts orig.state orig_out orig_err r ≡ true) ↔ (
          (is_detected opts r.state ≡ false)
          × (is_alarm sys r.state ≡ false)
          × (r.state ≡ orig.state)
          × (r.out ≡ orig_out)
          × (r.err ≡ orig_err))
  is_like_iff r =
      let i = same_state_iff r.state orig.state in
      let o = same_bytes_iff r.out orig_out in
      let e = same_bytes_iff r.err orig_err in
      (
        λ h. (
          ground arith,
          ground arith,
          i.0 (ground arith),
          o.0 (ground arith),
          e.0 (ground arith),
        ),
        λ (d, a, s, x, y). rw (d, a, i.1 s, o.1 x, e.1 y) refl,
      )

  pub masked-is_like :
      opts.no_redirect ≡ false
      → opts.diff_cmd ≡ none
      → is_execution_set orig ≡ true
      → (r : TestRun) (st : FtStatus) → IsJudged r st
      → is_same StatType.masked (type_of st) ≡ is_like sys opts orig.state orig_out orig_err r
  masked-is_like redirect default orig_set r st h =
      let (st', e, iff) =
        get_status-masked_iff fuel sys r.world opts orig r.ex_state r.wait_status r.state r.out
          r.err orig_out orig_err redirect default h.killed orig_set h.state_known h.no_signal
          h.out_read h.err_read h.orig_out_read h.orig_err_read in
      let same : st ≡ st' = ok-injective (some_inj (sym h.verdict ∙ e)) in
      let m = masked_only st in
      let like = is_like_iff r in
      same_truth (is_same StatType.masked (type_of st))
        (is_like sys opts orig.state orig_out orig_err r)
        ((λ t. like.1 (iff.0 (sym same ∙ m.0 t))), (λ t. m.1 (same ∙ iff.1 (like.0 t))))
