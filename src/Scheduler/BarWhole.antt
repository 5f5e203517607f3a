-- ===== src/Scheduler/BarWhole.antt =====
-- src/threads.cpp: the whole run with its progress bar.
use zofi.Scheduler.OnceEach.{count_ids, count_jobs, count_jobs-once}
use zofi.Scheduler.JobsLaws.{IsKernel, count_id, results_of}
use zofi.Base.{
  List, Outcome, [], ap, arith, if◌then◌else◌, length, ltb, ok, refl, some, suc, sym, true, ℕ, ◌+◌,
  ◌<◌, ◌^◌, ◌∙◌, ◌∷◌, ◌≡◌, zero,
}
use zofi.Scheduler.BarRun.{Shown, all_jobs_bar, beside_bar, run_bar, show_init, wait_while_bar}
use zofi.Scheduler.BarShown.{run_bar-run, with_bar}
use zofi.Scheduler.BarLines.{both, lines_of, results_of-both, show_next-ok}
use zofi.Scheduler.Complete.{run_lem}
use zofi.Scheduler.Jobs.{JobData, Scheduler, Kernel}
use zofi.ExitState.Data.{Sys}

count_jobs-all : (js : List JobData) → count_jobs (λ i. true) js ≡ length js
count_jobs-all [] = refl
count_jobs-all (j ∷ js) = omega (arith, count_jobs-all js)

count_ids-all : (n : ℕ) → count_ids (λ i. true) n ≡ n
count_ids-all zero = refl
count_ids-all (suc n) = omega (arith, count_ids-all n)

length-once :
    (total : ℕ) (js : List JobData)
    → ((i : ℕ) → count_id i js ≡ (if ltb i total then 1 else 0))
    → length js ≡ total
length-once total js once =
    sym (count_jobs-all js) ∙ count_jobs-once (λ i. true) total js once ∙ count_ids-all total

module _ {S : Type 0} (sys : Sys) (kernel : Kernel) (finished : JobData → S → Outcome S)
    (step : JobData → S → S) (start : S) (waits : IsKernel sys kernel)
    (finishes : (j : JobData) (r : S) → finished j r ≡ ok (step j r)) where
  with_bar-ok :
      (total : ℕ)
      → 0 < total
      → (j : JobData) (rb : S × Shown)
      → with_bar sys kernel finished true total j rb ≡ ok (both step total j rb)
  unfolding beside_bar
  with_bar-ok total h j rb = rw (finishes j rb.0) (rw (show_next-ok total rb.1 h) refl)

  no_jobs :
      (fuel jobs : ℕ)
      → run_bar sys kernel finished true 0 (suc fuel) jobs start
        ≡ some (ok (record { active_jobs = []; results = (start, show_init true 0) }))
  unfolding run_bar all_jobs_bar wait_while_bar
  no_jobs fuel jobs = refl

  -- Where waitpid gives an active job that has exited, no result is refused, -j is positive, there
  -- are fewer than 2^32 jobs, and the fuel is above their number plus -j plus one: a run that shows its
  -- bar ends with no job active and with the results of a sequence in which each id below the number
  -- of jobs occurs once, and no other. It never divides by 0, and it has drawn the empty bar and then
  -- the bar at 1, 2 and so on up to the number of jobs.
  pub run_bar_lem :
      (fuel jobs total : ℕ)
      → 0 < jobs
      → total < 2 ^ 32
      → total + jobs + 1 < fuel
      → (t : Scheduler (S × Shown)) × (run_bar sys kernel finished true total fuel jobs start
          ≡ some (ok t))
        × (t.active_jobs ≡ [])
        × (done : List JobData) × (t.results.0 ≡ results_of step done start)
        × ((i : ℕ) → count_id i done ≡ (if ltb i total then 1 else 0))
        × (t.results.1.lines ≡ lines_of total total)
  run_bar_lem zero jobs total j w h = absurd (omega arith)
  run_bar_lem (suc fuel) jobs zero j w h = (
    record { active_jobs = []; results = (start, show_init true 0) },
    no_jobs fuel jobs,
    refl,
    [],
    refl,
    (λ i. ground arith),
    (results_of-both step 0 [] start (omega arith)).1.drawn_lines,
  )
  run_bar_lem (suc fuel) jobs (suc n) j w h =
      let total = suc n in
      let (t, ran, idle, done, results, once) =
        run_lem sys kernel (with_bar sys kernel finished true total) (both step total)
          (start, show_init true total) waits (with_bar-ok total (omega arith)) (suc fuel) jobs
          total j w h in
      let all_done = length-once total done once in
      let (same, at_end) = results_of-both step total done start (omega (arith, all_done)) in
      (
        t,
        run_bar-run sys kernel finished true total (suc fuel) jobs start ∙ ran,
        idle,
        done,
        ap (λ (rb : S × Shown). rb.0) results ∙ same,
        once,
        ap (λ (rb : S × Shown). rb.1.lines) results
            ∙ at_end.drawn_lines
            ∙ ap (lines_of total) all_done,
      )
