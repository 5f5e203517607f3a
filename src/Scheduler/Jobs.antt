-- ===== src/Scheduler/Jobs.antt =====
-- src/threads.cpp: JobSchedulerBase. A job's own work and what the parent does with its result
-- (jobFinishedParentCode, which the two schedulers override) are parameters, as are fork and waitpid.
use zofi.Statistics.Store.{Statistics}
use zofi.Statistics.Counts.{FtStatus, incr_stats_counter}
use zofi.Base.{
  Bool, List, Option, Outcome, [], assert, die, if◌then◌else◌, length, ltb, none, ok, some, suc,
  user_die, zero, ℕ, ◌%◌, ◌++◌, ◌+◌, ◌==◌, ◌>>=◌, ◌>>◌, ◌^◌, ◌∷◌,
}
use zofi.ExitState.Data.{Sys, get_wait_pid_exit_state}

pub record JobData : Type 0 where
  pub id : ℕ
  pub child_pid : ℕ

-- The pids that fork gives, by job; and what waitpid(-1) gives while jobs are active: the pid and
-- the status of one that has ended.
pub record Kernel : Type 0 where
  pub fork : ℕ → ℕ
  pub wait : List JobData → ℕ × ℕ

-- A loop that may run out of fuel, or end the program.
abbrev pub Run : Type 0 → Type 0
Run A = Option (Outcome A)

abbrev pub lift : {A : Type 0} → Outcome A → Run A
lift m = some m

abbrev pub then_run : {A B : Type 0} → Run A → (A → Run B) → Run B
then_run none f = none
then_run (some die) f = some die
then_run (some user_die) f = some user_die
then_run (some (ok a)) f = f a

unfoldable pub find_job : ℕ → List JobData → Option JobData
find_job pid [] = none
find_job pid (j ∷ js) = if j.child_pid == pid then some j else find_job pid js

unfoldable pub erase_job : ℕ → List JobData → List JobData
erase_job pid [] = []
erase_job pid (j ∷ js) = let rest = erase_job pid js in if j.child_pid == pid then js else j ∷ rest

-- ActiveJobs, and what jobFinishedParentCode updates.
pub record Scheduler (S : Type 0) : Type 0 where
  pub active_jobs : List JobData
  pub results : S

module _ {S : Type 0} (sys : Sys) (kernel : Kernel) (finished : JobData → S → Outcome S) where
  -- JobSchedulerBase::waitForJob
  unfoldable pub wait_for_job : Scheduler S → Outcome (Scheduler S)
  wait_for_job s =
      let waited = kernel.wait s.active_jobs in
      do
        state ← get_wait_pid_exit_state sys waited.1
        assert (sys.w_if_exited waited.1)
        elim (find_job waited.0 s.active_jobs) [
          | none ↦ die
          | some j ↦ do
            r ← finished j s.results
            ok (record { active_jobs = erase_job waited.0 s.active_jobs; results = r })
        ]

  -- `while (test) waitForJob();`
  unfoldable pub wait_while : ℕ → (ℕ → Bool) → Scheduler S → Run (Scheduler S)
  wait_while zero test s = none
  wait_while (suc fuel) test s =
      let more = then_run (lift (wait_for_job s)) (wait_while fuel test) in
      if test (length s.active_jobs) then more else some (ok s)

  -- The body of the loop over the jobs: wait for a slot, then fork.
  unfoldable pub one_job : ℕ → ℕ → ℕ → Scheduler S → Run (Scheduler S)
  one_job fuel jobs id s = then_run (wait_while fuel (λ n. n == jobs) s) λ t. some (
      ok (record t {
        active_jobs = t.active_jobs ++ record { id = id; child_pid = kernel.fork id } ∷ [];
      }))

  -- The loop over the jobs. Id is an unsigned of 32 bits.
  unfoldable pub all_jobs : ℕ → ℕ → ℕ → ℕ → Scheduler S → Run (Scheduler S)
  all_jobs zero jobs total id s = none
  all_jobs (suc fuel) jobs total id s =
      let next =
        then_run (one_job (suc fuel) jobs id s) (all_jobs fuel jobs total ((id + 1) % 2 ^ 32)) in
      if id == total then some (ok s) else next

  -- JobSchedulerBase::run
  unfoldable pub run : ℕ → ℕ → ℕ → Scheduler S → Run (Scheduler S)
  run fuel jobs total s = then_run (all_jobs fuel jobs total 0 s) (wait_while fuel (λ n. ltb 0 n))

-- OrigJobScheduler::jobFinishedParentCode. `read` is what the job wrote to its pipe.
unfoldable pub orig_finished : {E : Type 0} → (JobData → E) → JobData → E → Outcome E
orig_finished read j e = if j.id == 0 then ok (read j) else ok e

-- TestJobScheduler::jobFinishedParentCode
unfoldable pub test_finished :
    {D : Type 0} → (JobData → FtStatus) → JobData → Statistics D → Outcome (Statistics D)
test_finished read j st = incr_stats_counter (read j) st
