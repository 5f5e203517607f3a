-- ===== src/ExitState/Data.antt =====
-- src/exitState.h: ExitType and ExitState, and the classification of a wait status of
-- src/runner.cpp. The macros of <sys/wait.h> and the signal numbers are the record `Sys`.
use zofi.Utils.Diff.{same_bytes}
use zofi.Utils.Text.{Text, codes}
use zofi.Base.{Bool, Outcome, die, if◌then◌else◌, not, ok, ◌&&◌, ◌==◌, ◌||◌, ℕ}

pub data ExitType : Type 0 where
  invalid exited signaled stopped : ExitType

abbrev pub exit_type_index : ExitType → ℕ
exit_type_index invalid = 0
exit_type_index exited = 1
exit_type_index signaled = 2
exit_type_index stopped = 3

pub record ExitState : Type 0 where
  pub exit_type : ExitType
  -- The 32 bits of the int.
  pub val : ℕ

-- ExitState::ExitState()
abbrev pub unset : ExitState
unset = record { exit_type = invalid; val = 666 }

unfoldable pub same_state : ExitState → ExitState → Bool
same_state a b = exit_type_index a.exit_type == exit_type_index b.exit_type && a.val == b.val

unfoldable pub is_set : ExitState → Bool
is_set s = not (exit_type_index s.exit_type == 0)

-- ExitState::import. `Stopped` is no exit type that a user can give.
unfoldable pub import : Text → ℕ → Outcome ExitState
import t v =
    if (same_bytes t (codes "exited") || same_bytes t (codes "EXITED"))
      || same_bytes t (codes "Exited")
    then ok (record { exit_type = exited; val = v })
    else if (same_bytes t (codes "signaled") || same_bytes t (codes "SIGNALED"))
        || same_bytes t (codes "Signaled")
    then ok (record { exit_type = signaled; val = v })
    else die

-- <sys/wait.h>, <signal.h> and <sys/ptrace.h>.
pub record Sys : Type 0 where
  pub w_if_exited : ℕ → Bool
  pub w_exit_status : ℕ → ℕ
  pub w_if_signaled : ℕ → Bool
  pub w_term_sig : ℕ → ℕ
  pub w_if_stopped : ℕ → Bool
  pub w_stop_sig : ℕ → ℕ
  pub sigalrm : ℕ
  pub sigstop : ℕ
  pub sigtrap : ℕ
  -- SIGTRAP | (PTRACE_EVENT_CLONE << 8)
  pub clone_event : ℕ

-- RunnerBase::getWaitPidExitState
unfoldable pub get_wait_pid_exit_state : Sys → ℕ → Outcome ExitState
get_wait_pid_exit_state sys status =
    if sys.w_if_exited status
    then ok (record { exit_type = exited; val = sys.w_exit_status status })
    else if sys.w_if_signaled status
    then ok (record { exit_type = signaled; val = sys.w_term_sig status })
    else if sys.w_if_stopped status
    then ok (record { exit_type = stopped; val = sys.w_stop_sig status })
    else die
