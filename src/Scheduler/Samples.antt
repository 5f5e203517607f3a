-- ===== src/Scheduler/Samples.antt =====
-- A kernel for the tests of the scheduler: every child exits, the oldest job first.
use zofi.Base.{List, [], false, true, ℕ, ◌∷◌}
use zofi.ExitState.Data.{Sys}
use zofi.Scheduler.Jobs.{JobData}

abbrev pub by_first : List JobData → ℕ × ℕ
by_first [] = (0, 0)
by_first (j ∷ js) = (j.child_pid, 0)

abbrev pub always : Sys
always = record {
  w_if_exited = λ w. true;
  w_exit_status = λ w. 0;
  w_if_signaled = λ w. false;
  w_term_sig = λ w. 0;
  w_if_stopped = λ w. false;
  w_stop_sig = λ w. 0;
  sigalrm = 14;
  sigstop = 19;
  sigtrap = 5;
  clone_event = 773;
}
