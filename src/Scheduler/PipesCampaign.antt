-- ===== src/Scheduler/PipesCampaign.antt =====
-- src/threads.cpp: the test runs with their pipes, TestJobScheduler with the statistics.
use zofi.Scheduler.PipesLaws.{message}
use zofi.Scheduler.JobsLaws.{IsKernel, count_id}
use zofi.Scheduler.Campaign.{run-counts}
use zofi.Statistics.Counts.{FtStatus, IsBalanced, count_of, no_status, occurrences}
use zofi.Base.{
  List, Outcome, [], ap, if◌then◌else◌, ltb, map, ok, refl, some, ℕ, ◌+◌, ◌<◌, ◌^◌, ◌∙◌, ◌≡◌, ◌≢◌,
}
use zofi.Scheduler.Pipes.{Calls, Contents, FdTable, Parent, run_pipes}
use zofi.Scheduler.PipesRun.{IsPipe, plain_kernel}
use zofi.Scheduler.PipesWhole.{run_pipes_lem}
use zofi.Scheduler.Jobs.{JobData, test_finished}
use zofi.Statistics.Store.{ulong, StatType, Statistics}
use zofi.ExitState.Data.{Sys}

-- TestJobScheduler::jobFinishedParentCode on what it reads.
abbrev pub count_status : {D : Type 0} → FtStatus → JobData → Statistics D → Outcome (Statistics D)
count_status m j st = test_finished (λ (k : JobData). m) j st

module _ {D G : Type 0} (sys : Sys) (calls : Calls FtStatus G) (pid : ℕ → ℕ)
    (statistics : Statistics D) (start : G) (fds : FdTable) (contents : Contents FtStatus)
    (base : ℕ) (pipes : IsPipe calls.pipe) (forks : (id : ℕ) → calls.fork id ≡ some (pid id))
    (waits : IsKernel sys (plain_kernel calls pid))
    (set_status : (id : ℕ) → message calls start id ≢ no_status)
    (balanced : IsBalanced statistics) where
  -- What the child of a job sends.
  abbrev status_of : JobData → FtStatus
  status_of j = message calls start j.id

  pub run_pipes-counts :
      (fuel jobs total : ℕ)
      → 0 < jobs
      → total < 2 ^ 32
      → total + jobs + 1 < fuel
      → (q : Parent (Statistics D) FtStatus G) × (run_pipes calls sys count_status fuel jobs total
            (record {
              fds = fds;
              active_jobs = [];
              results = statistics;
              generator = start;
              contents = contents;
              pipes = base;
            })
          ≡ some (ok q))
        × (q.active_jobs ≡ [])
        × (q.fds ≡ fds)
        × (done : List JobData) × ((i : ℕ) → count_id i done ≡ (if ltb i total then 1 else 0))
        × IsBalanced q.results
        × ((u : StatType)
            → ulong (count_of u q.results)
              ≡ ulong (count_of u statistics + occurrences u (map status_of done)))
  unfolding test_finished
  run_pipes-counts fuel jobs total j small h =
      let (t, ran, idle, done, once, agree, counts) =
        run-counts sys (plain_kernel calls pid) status_of statistics waits (λ k. set_status k.id)
          balanced fuel jobs total j small h in
      let (q, ran', idle', same, table, drawn) =
        run_pipes_lem sys calls pid count_status start base fds pipes forks fuel jobs total
          (record {
            fds = fds;
            active_jobs = [];
            results = statistics;
            generator = start;
            contents = contents;
            pipes = base;
          })
          t small refl refl refl refl idle ran in
      (
        q,
        ran',
        idle',
        table,
        done,
        once,
        rw same agree,
        λ u. ap (λ x. ulong (count_of u x)) same ∙ counts u,
      )
