-- ===== src/Runner/Verdict.antt =====
-- src/runner.cpp: waitChildAndGetStatus, checkOutput and systemCustom.
use zofi.ExitState.Data.{
  ExitType, Sys, exit_type_index, exited, get_wait_pid_exit_state, invalid, is_set, signaled,
  stopped,
}
use zofi.Utils.Text.{Text, codes, str_replace}
use zofi.Base.{
  Bool, Option, Outcome, assert, die, false, if◌then◌else◌, ltb, negsuc, none, not, ok, pos, some,
  user_die, ℕ, ℤ, ◌&&◌, ◌==◌, ◌>>=◌, ◌>>◌, ◌||◌,
}
use zofi.ExitState.Compare.{ExecutionExitState, Files, is_execution_set, same_execution}
use zofi.Statistics.Counts.{
  FtStatus, ft_corrupted, ft_detected, ft_exception, ft_inf_exec, ft_masked, ft_skipped,
}
use mathlib.Core.Option

-- The options that the verdict reads. A set -diff-cmd is `some`.
pub record VerdictOptions : Type 0 where
  pub no_redirect : Bool
  pub detection_exit_code : ℤ
  pub diff_cmd : Option Text
  pub diff_shell : Text

-- What the system does: the files; the wait status that `Shell -c Cmd` ends with; and whether
-- PTRACE_KILL of the child succeeds.
pub record World : Type 0 where
  pub files : Files
  pub shell : Text → Text → ℕ
  pub kill_ok : Bool

-- Runner::systemCustom, in the parent.
unfoldable pub system_custom : Sys → World → Text → Text → Outcome Bool
system_custom sys world cmd shell = do
  s ← get_wait_pid_exit_state sys (world.shell shell cmd)
  ok (exit_type_index s.exit_type == exit_type_index exited && s.val == 0)

-- The chain of strReplace in Runner::checkOutput; `none` where the fuel of one runs out.
unfoldable pub eval_diff_cmd : ℕ → Text → ExecutionExitState → ExecutionExitState → Option Text
eval_diff_cmd fuel cmd orig test =
    Option.bind (str_replace fuel cmd (codes "%ORIG_STDOUT") orig.stdout_file) λ a.
      Option.bind (str_replace fuel a (codes "%ORIG_STDERR") orig.stderr_file) λ b.
        Option.bind (str_replace fuel b (codes "%TEST_STDOUT") test.stdout_file)
          λ c. str_replace fuel c (codes "%TEST_STDERR") test.stderr_file

-- Runner::checkOutput. `ex_state` is the state of this run, whose exit state the caller has just
-- set. `none` where a strReplace does not end within the fuel.
unfoldable pub check_output :
    ℕ
    → Sys
    → World
    → VerdictOptions
    → ExecutionExitState
    → ExecutionExitState
    → Option (Outcome Bool)
check_output fuel sys world opts orig ex_state =
    if not (is_execution_set orig)
    then some user_die
    else if not (is_set ex_state.state)
    then some user_die
    else elim opts.diff_cmd [
      | some cmd ↦
          Option.map (λ c. system_custom sys world c opts.diff_shell)
            (eval_diff_cmd fuel cmd orig ex_state)
      | none ↦ some (same_execution world.files ex_state orig)
    ]

-- The status that a comparison leads to.
abbrev verdict : FtStatus → FtStatus → Outcome Bool → Outcome FtStatus
verdict same differs m = m >>= (λ b. ok (if b then same else differs))

abbrev pub is_val : ℤ → ℕ → Bool
is_val (pos n) v = v == n
is_val (negsuc n) v = false

abbrev pub is_positive : ℤ → Bool
is_positive (pos n) = ltb 0 n
is_positive (negsuc n) = false

-- The switch over the exit type in Runner::waitChildAndGetStatus.
unfoldable pub on_exit_type :
    Sys → World → VerdictOptions → ExitType → ℕ → Option (Outcome Bool) → Option (Outcome FtStatus)
on_exit_type sys world opts exited val checked =
    if is_positive opts.detection_exit_code && is_val opts.detection_exit_code val
    then some (ok ft_detected)
    else Option.map (verdict ft_masked ft_corrupted) checked
on_exit_type sys world opts stopped val checked =
    if val == sys.sigalrm
    then some (do assert world.kill_ok; ok ft_inf_exec)
    else Option.map (verdict ft_masked ft_exception) checked
on_exit_type sys world opts signaled val checked = some die
on_exit_type sys world opts invalid val checked = some die

-- Runner::waitChildAndGetStatus after waitpidSkipThreadState gave a status.
unfoldable pub get_status :
    ℕ
    → Sys
    → World
    → VerdictOptions
    → Bool
    → ExecutionExitState
    → ExecutionExitState
    → ℕ
    → Option (Outcome FtStatus)
get_status fuel sys world opts skip_check orig ex_state wait_status =
    elim (get_wait_pid_exit_state sys wait_status) [
      | die ↦ some die
      | user_die ↦ some user_die
      | ok s ↦
          let checked = check_output fuel sys world opts orig (record ex_state { state = s }) in
          if opts.no_redirect || skip_check
          then (if exit_type_index s.exit_type == exit_type_index exited
              then some (ok ft_skipped)
              else some (do assert world.kill_ok; ok ft_skipped))
          else on_exit_type sys world opts s.exit_type s.val checked
    ]
