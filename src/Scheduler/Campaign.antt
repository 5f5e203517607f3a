-- ===== src/Scheduler/Campaign.antt =====
-- src/threads.cpp: the test runs as a whole, TestJobScheduler with the statistics that it fills.
use zofi.Statistics.Counts.{
  ft_corrupted, ft_detected, ft_exception, ft_inf_exec, ft_inj_failed, ft_masked, ft_skipped,
  FtStatus, IsBalanced, count_of, incr_all, incr_all-count_of, incr_stats_counter, no_status,
  occurrences,
}
use zofi.Base.{
  Outcome, refl, >>=-eq-ok, List, [], arith, die, if◌then◌else◌, ltb, map, ok, ok-injective, some,
  user_die, ℕ, ◌+◌, ◌<◌, ◌^◌, ◌∷◌, ◌≡◌, ◌≢◌,
}
use zofi.Statistics.Store.{incr, StatType, Statistics, ulong}
use zofi.Scheduler.JobsLaws.{IsKernel, count_id, results_of}
use zofi.ExitState.Data.{Sys}
use zofi.Scheduler.Complete.{run_lem}
use zofi.Scheduler.Jobs.{JobData, Kernel, Scheduler, run, test_finished}

-- A status other than None is counted.
counts_on :
    {D : Type 0} (s : FtStatus) (st : Statistics D)
    → s ≢ no_status
    → (st' : Statistics D) × (incr_stats_counter s st ≡ ok st')
unfolding incr_stats_counter incr
counts_on no_status st h = absurd (h refl)
counts_on ft_masked st h = (_, refl)
counts_on ft_exception st h = (_, refl)
counts_on ft_inf_exec st h = (_, refl)
counts_on ft_corrupted st h = (_, refl)
counts_on ft_detected st h = (_, refl)
counts_on ft_inj_failed st h = (_, refl)
counts_on ft_skipped st h = (_, refl)

module _ {D : Type 0} (sys : Sys) (kernel : Kernel) (read : JobData → FtStatus)
    (start : Statistics D) (waits : IsKernel sys kernel)
    (set_status : (j : JobData) → read j ≢ no_status) (balanced : IsBalanced start) where
  -- The statistics after a job's status is counted.
  abbrev counted : JobData → Statistics D → Statistics D
  counted j st = elim (incr_stats_counter (read j) st) [ ok st' ↦ st' | die ↦ st | user_die ↦ st ]

  test_finished-ok : (j : JobData) (st : Statistics D) → test_finished read j st ≡ ok (counted j st)
  unfolding test_finished
  test_finished-ok j st =
      let (st', ran) = counts_on (read j) st (set_status j) in
      picked (incr_stats_counter (read j) st) st st' ran
    where
      picked :
          (m : Outcome (Statistics D)) (old new : Statistics D)
          → m ≡ ok new
          → m ≡ ok (elim m [ ok st' ↦ st' | die ↦ old | user_die ↦ old ])
      picked (ok x) old new e = refl
      picked die old new e = absurd (cc)
      picked user_die old new e = absurd (cc)

  -- The statistics after some of the jobs.
  record Tallied (done : List JobData) (st : Statistics D) : Type 0 where
    pub agree : IsBalanced st
    pub counts :
        (t : StatType)
        → ulong (count_of t st) ≡ ulong (count_of t start + occurrences t (map read done))

  results_of-Tallied : (done : List JobData) → Tallied done (results_of counted done start)
  unfolding incr_all
  results_of-Tallied [] = record { agree = balanced; counts = λ t. omega arith }
  results_of-Tallied (j ∷ js) =
      let before = results_of-Tallied js in
      let st = results_of counted js start in
      let (st', ran, agree, counts) =
        incr_all-count_of (read j ∷ []) st (set_status j, tt) before.agree in
      let (mid, one, last) = >>=-eq-ok (incr_stats_counter (read j) st) _ ran in
      let same : counted j st ≡ st' = rw (one, counted) (ok-injective last) in
      record {
        agree = rw same agree;
        counts = λ t. rw same (omega (arith, counts t, before.counts t));
      }

  -- Where waitpid gives an active job that has exited, no job sends None, -j is positive, there are
  -- fewer than 2^32 runs, and the fuel is above their number plus -j plus one: the test runs end with
  -- no job active, each run is counted once, and from balanced statistics each counter grows by the
  -- number of runs with its status, modulo 2^64, the totals still agreeing with the counters.
  pub run-counts :
      (fuel jobs total : ℕ)
      → 0 < jobs
      → total < 2 ^ 32
      → total + jobs + 1 < fuel
      → (t : Scheduler (Statistics D)) × (run sys kernel
            (test_finished read)
            fuel
            jobs
            total
            (record { active_jobs = []; results = start })
          ≡ some (ok t))
        × (t.active_jobs ≡ [])
        × (done : List JobData) × ((i : ℕ) → count_id i done ≡ (if ltb i total then 1 else 0))
        × IsBalanced t.results
        × ((u : StatType)
            → ulong (count_of u t.results)
              ≡ ulong (count_of u start + occurrences u (map read done)))
  run-counts fuel jobs total j w h =
      let (t, ran, idle, done, results, once) =
        run_lem sys kernel (test_finished read) counted start waits test_finished-ok fuel jobs total
          j w h in
      let tally = results_of-Tallied done in
      (t, ran, idle, done, once, rw results tally.agree, λ u. rw results (tally.counts u))
