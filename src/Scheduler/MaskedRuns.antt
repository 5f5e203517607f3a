-- ===== src/Scheduler/MaskedRuns.antt =====
-- src/threads.cpp and src/runner.cpp: the test runs from the fork of each job to the statistics.
use zofi.Base.{
  Bool, List, [], ap, false, if◌then◌else◌, map, none, ok, refl, some, true, ℕ, ◌+◌, ◌<◌, ◌^◌, ◌∙◌,
  ◌∷◌, ◌≡◌,
}
use zofi.Statistics.Store.{StatType, Statistics, ulong}
use zofi.Utils.Text.{Text}
use mathlib.Core.Path.{fun_ext}
use zofi.ExitState.Data.{Sys}
use zofi.Scheduler.Masked.{IsJudged, TestRun, is_like, masked-is_like}
use zofi.Runner.Counted.{get_status-counted}
use zofi.Runner.Verdict.{VerdictOptions}
use zofi.Scheduler.PipesLaws.{message}
use zofi.Scheduler.PipesRun.{IsPipe, plain_kernel}
use zofi.Statistics.Counts.{FtStatus, IsBalanced, count_of, is_same, occurrences, type_of}
use zofi.Scheduler.Jobs.{JobData}
use zofi.Scheduler.Pipes.{Contents, FdTable, Parent, run_pipes, Calls}
use zofi.Scheduler.OnceEach.{count_ids, count_jobs, count_jobs-once}
use zofi.ExitState.Compare.{ExecutionExitState, is_execution_set}
use zofi.Scheduler.JobsLaws.{IsKernel}
use zofi.Scheduler.PipesCampaign.{count_status, run_pipes-counts}

module _ {D G : Type 0} (sys : Sys) (calls : Calls FtStatus G) (pid : ℕ → ℕ)
    (statistics : Statistics D) (start : G) (fds : FdTable) (contents : Contents FtStatus)
    (base : ℕ) (pipes : IsPipe calls.pipe) (forks : (id : ℕ) → calls.fork id ≡ some (pid id))
    (waits : IsKernel sys (plain_kernel calls pid)) (balanced : IsBalanced statistics)
    (diff_fuel : ℕ) (opts : VerdictOptions) (orig : ExecutionExitState) (orig_out orig_err : Text)
    (redirect : opts.no_redirect ≡ false) (default : opts.diff_cmd ≡ none)
    (orig_set : is_execution_set orig ≡ true) (runs : ℕ → TestRun)
    (judged : (id : ℕ)
      → IsJudged diff_fuel sys opts orig orig_out orig_err (runs id) (message calls start id)) where
  status_at : ℕ → Bool
  status_at id = is_same StatType.masked (type_of (message calls start id))

  occurrences-count_jobs :
      (js : List JobData)
      → occurrences StatType.masked (map (λ (j : JobData). message calls start j.id) js)
        ≡ count_jobs status_at js
  unfolding status_at
  occurrences-count_jobs [] = refl
  occurrences-count_jobs (j ∷ js) =
      ap (λ n. (if is_same StatType.masked (type_of (message calls start j.id)) then 1 else 0) + n)
        (occurrences-count_jobs js)

  -- Without -diff-cmd and with redirection, where the pipes, forks and waits of the scheduler succeed
  -- and each child sends the verdict that get_status gives to its run, whose outputs and those of the
  -- timing run can be read: from balanced statistics the test runs end with no job active and no
  -- descriptor left open, and the counter of the masked runs has grown, modulo 2^64, by the number of
  -- ids below the total whose run was neither detected nor stopped by the alarm and has the exit
  -- state, stdout and stderr of the timing run.
  pub run_pipes-masked :
      (fuel jobs total : ℕ)
      → 0 < jobs
      → total < 2 ^ 32
      → total + jobs + 1 < fuel
      → (q : Parent (Statistics D) FtStatus G) × (run_pipes calls sys count_status fuel jobs total
            (record {
              fds = fds;
              active_jobs = [];
              results = statistics;
              generator = start;
              contents = contents;
              pipes = base;
            })
          ≡ some (ok q))
        × (q.active_jobs ≡ [])
        × (q.fds ≡ fds)
        × IsBalanced q.results
        × (ulong (count_of StatType.masked q.results)
            ≡ ulong (
                count_of StatType.masked statistics
                + count_ids (λ id. is_like sys opts orig.state orig_out orig_err (runs id)) total))
  unfolding status_at
  run_pipes-masked fuel jobs total j small h =
      let set_status = λ (id : ℕ).
        (get_status-counted diff_fuel sys (runs id).world opts false orig (runs id).ex_state
          (runs id).wait_status (message calls start id) (judged id).verdict).0 in
      let (q, ran, idle, table, done, once, agree, counts) =
        run_pipes-counts sys calls pid statistics start fds contents base pipes forks waits
          set_status balanced fuel jobs total j small h in
      let counted =
        occurrences-count_jobs done
        ∙ count_jobs-once status_at total done once
        ∙ ap (λ test. count_ids test total)
            (fun_ext (λ id.
              masked-is_like diff_fuel sys opts orig orig_out orig_err redirect default orig_set
                (runs id) (message calls start id) (judged id))) in
      (
        q,
        ran,
        idle,
        table,
        agree,
        counts StatType.masked ∙ ap (λ n. ulong (count_of StatType.masked statistics + n)) counted,
      )
