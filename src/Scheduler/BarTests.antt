-- ===== src/Scheduler/BarTests.antt =====
-- The scheduler with its progress bar: three jobs, two at a time.
use zofi.Scheduler.Jobs.{JobData, Scheduler, find_job, Kernel}
use zofi.Base.{List, Outcome, [], arith, if◌then◌else◌, ltb, ok, refl, some, true, ℕ, ◌+◌, ◌∷◌, ◌≡◌}
use zofi.Scheduler.BarRun.{Shown, run_bar}
use zofi.Scheduler.Samples.{always, by_first}
use zofi.Scheduler.JobsLaws.{IsKernel, count_id, results_of}
use zofi.Scheduler.BarWhole.{run_bar_lem}
use zofi.Scheduler.BarLines.{lines_of}

abbrev oldest_first : Kernel
oldest_first = record { fork = λ id. 100 + id; wait = by_first }

oldest_first-IsKernel : IsKernel always oldest_first
unfolding find_job
oldest_first-IsKernel [] h = absurd (omega arith)
oldest_first-IsKernel (j ∷ js) h = (refl, (j, ground arith))

abbrev keep_id : JobData → List ℕ → Outcome (List ℕ)
keep_id j l = ok (j.id ∷ l)

run_bar_lem_example :
    (t : Scheduler (List ℕ × Shown)) × (run_bar always oldest_first keep_id true 3 7 2 []
      ≡ some (ok t))
    × (t.active_jobs ≡ [])
    × (done : List JobData) × (t.results.0 ≡ results_of (λ j l. j.id ∷ l) done [])
    × ((i : ℕ) → count_id i done ≡ (if ltb i 3 then 1 else 0))
    × (t.results.1.lines ≡ lines_of 3 3)
run_bar_lem_example =
    run_bar_lem always oldest_first keep_id (λ j l. j.id ∷ l) [] oldest_first-IsKernel (λ j l. refl)
      7 2 3 (omega arith) (omega arith) (omega arith)
