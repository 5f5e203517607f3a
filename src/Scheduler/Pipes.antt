-- ===== src/Scheduler/Pipes.antt =====
-- src/threads.cpp: JobSchedulerBase with its pipes, the seeds of the jobs and fork, all of which
-- Scheduler.Jobs takes as given. pipe, fork, rand and waitpid are parameters, and so is the work of
-- a job, from its seed and its id to what it writes to its pipe.
use zofi.Base.{
  Bool, List, Option, Outcome, [], assert, die, if◌then◌else◌, length, ltb, map, none, ok, some,
  suc, zero, ℕ, ◌%◌, ◌++◌, ◌+◌, ◌==◌, ◌>>=◌, ◌>>◌, ◌^◌, ◌∷◌,
}
use zofi.Utils.Rand.{Generator, rand_safe}
use zofi.Scheduler.Jobs.{JobData, Run, lift, then_run}
use zofi.ExitState.Data.{Sys, get_wait_pid_exit_state}

-- What a descriptor is open on. Pipes are numbered in the order in which they are made.
pub data FdKind : Type 0 where
  read_end : ℕ → FdKind
  write_end : ℕ → FdKind
  other : FdKind

-- The descriptor table of a process.
abbrev pub FdTable : Type 0
FdTable = List (ℕ × FdKind)

unfoldable pub fd_at : ℕ → FdTable → Option FdKind
fd_at fd [] = none
fd_at fd ((d, k) ∷ t) = if d == fd then some k else fd_at fd t

-- close, whose result the scheduler does not look at.
unfoldable pub close_fd : ℕ → FdTable → FdTable
close_fd fd [] = []
close_fd fd ((d, k) ∷ t) = let rest = close_fd fd t in if d == fd then t else (d, k) ∷ rest

-- JobData with its Pipe.
pub record PipeJob : Type 0 where
  pub job : JobData
  pub read_fd : ℕ
  pub write_fd : ℕ

unfoldable pub find_pipe_job : ℕ → List PipeJob → Option PipeJob
find_pipe_job pid [] = none
find_pipe_job pid (j ∷ js) = if j.job.child_pid == pid then some j else find_pipe_job pid js

unfoldable pub erase_pipe_job : ℕ → List PipeJob → List PipeJob
erase_pipe_job pid [] = []
erase_pipe_job pid (j ∷ js) =
    let rest = erase_pipe_job pid js in if j.job.child_pid == pid then js else j ∷ rest

-- What the pipes hold, by their numbers.
abbrev pub Contents : Type 0 → Type 0
Contents M = ℕ → Option M

unfoldable pub put_message : {M : Type 0} → ℕ → M → Contents M → Contents M
put_message p m c q = if q == p then some m else c q

-- The scheduler's process: its descriptors, ActiveJobs, what jobFinishedParentCode updates, and the
-- state of rand; and the pipes of the system, with how many there have been.
pub record Parent (S M G : Type 0) : Type 0 where
  pub fds : FdTable
  pub active_jobs : List PipeJob
  pub results : S
  pub generator : G
  pub contents : Contents M
  pub pipes : ℕ

-- What the scheduler calls.
pub record Calls (M G : Type 0) : Type 0 where
  -- The two descriptors that pipe gives, unless it fails.
  pub pipe : FdTable → Option (ℕ × ℕ)
  -- The pid that the parent gets, by job, unless fork fails.
  pub fork : ℕ → Option ℕ
  pub wait : List JobData → ℕ × ℕ
  pub rand : Generator G
  -- What childJobCode sends, from the seed and the id.
  pub child_job_code : ℕ → ℕ → M
  -- What the variable holds into which the parent reads, before it does.
  pub unread : M

-- pipeSafe
unfoldable pub pipe_safe : Option (ℕ × ℕ) → Outcome (ℕ × ℕ)
pipe_safe none = die
pipe_safe (some ends) = ok ends

-- forkSafe
unfoldable pub fork_safe : Option ℕ → Outcome ℕ
fork_safe none = die
fork_safe (some pid) = ok pid

-- `write(fd, &m, sizeof(m))`, whose result is not looked at.
unfoldable pub write_to : {M : Type 0} → Option FdKind → M → Contents M → Contents M
write_to (some (write_end p)) m c = put_message p m c
write_to k m c = c

-- `read(fd, &m, sizeof(m))`: m keeps its value where nothing is read.
unfoldable pub read_from : {M : Type 0} → Option FdKind → M → Contents M → M
read_from (some (read_end p)) m c = elim (c p) [ none ↦ m | some sent ↦ sent ]
read_from k m c = m

module _ {M G : Type 0} (calls : Calls M G) where
  -- The child's process: what it writes is in the pipe by the time it has exited. It closes its copy
  -- of the read end first, and exits after the write.
  unfoldable pub child_process : FdTable → ℕ → ℕ → ℕ → ℕ → Contents M → Contents M
  child_process fds r w seed id c =
      write_to (fd_at w (close_fd r fds)) (calls.child_job_code seed id) c

  module _ {S : Type 0} where
    -- The body of the loop over the jobs once there is a slot.
    unfoldable pub launch : ℕ → Parent S M G → Outcome (Parent S M G)
    launch id s = do
      (r, w) ← pipe_safe (calls.pipe s.fds)
      let fds = (r, read_end s.pipes) ∷ (w, write_end s.pipes) ∷ s.fds
      let drawn = rand_safe calls.rand 0 s.generator
      pid ← fork_safe (calls.fork id)
      ok (record {
        fds = close_fd w fds;
        active_jobs =
            s.active_jobs
            ++ record { job = record { id = id; child_pid = pid }; read_fd = r; write_fd = w } ∷ [];
        results = s.results;
        generator = drawn.1;
        contents = child_process fds r w drawn.0 id s.contents;
        pipes = s.pipes + 1;
      })

    module _ (sys : Sys) (finished : M → JobData → S → Outcome S) where
      -- JobSchedulerBase::waitForJob; jobFinishedParentCode reads the pipe.
      unfoldable pub wait_for_pipe_job : Parent S M G → Outcome (Parent S M G)
      wait_for_pipe_job s =
          let waited = calls.wait (map (λ (j : PipeJob). j.job) s.active_jobs) in
          do
            state ← get_wait_pid_exit_state sys waited.1
            assert (sys.w_if_exited waited.1)
            elim (find_pipe_job waited.0 s.active_jobs) [
              | none ↦ die
              | some j ↦ do
                r ←
                    finished (read_from (fd_at j.read_fd s.fds) calls.unread s.contents) j.job
                      s.results
                ok (record s {
                  fds = close_fd j.read_fd s.fds;
                  active_jobs = erase_pipe_job waited.0 s.active_jobs;
                  results = r;
                })
            ]

      unfoldable pub wait_while_pipes : ℕ → (ℕ → Bool) → Parent S M G → Run (Parent S M G)
      wait_while_pipes zero test s = none
      wait_while_pipes (suc fuel) test s =
          let more = then_run (lift (wait_for_pipe_job s)) (wait_while_pipes fuel test) in
          if test (length s.active_jobs) then more else some (ok s)

      unfoldable pub launch_all : ℕ → ℕ → ℕ → ℕ → Parent S M G → Run (Parent S M G)
      launch_all zero jobs total id s = none
      launch_all (suc fuel) jobs total id s =
          let next =
            then_run (wait_while_pipes (suc fuel) (λ n. n == jobs) s)
              λ t. then_run (lift (launch id t)) (launch_all fuel jobs total ((id + 1) % 2 ^ 32)) in
          if id == total then some (ok s) else next

      -- JobSchedulerBase::run
      unfoldable pub run_pipes : ℕ → ℕ → ℕ → Parent S M G → Run (Parent S M G)
      run_pipes fuel jobs total s =
          then_run (launch_all fuel jobs total 0 s) (wait_while_pipes fuel (λ n. ltb 0 n))
