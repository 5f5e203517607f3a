-- ===== src/Scheduler/BarShown.antt =====
-- src/threads.cpp: a run with its progress bar is a run of the scheduler.
use zofi.Scheduler.BarRun.{
  all_jobs_bar, one_job_bar, run_bar, show_init, Shown, beside_bar, show_if, show_next,
  wait_and_show, wait_while_bar,
}
use mathlib.Core.Path.{fun_ext}
use zofi.Scheduler.Jobs.{
  all_jobs, lift, one_job, run, then_run, JobData, Scheduler, erase_job, find_job, wait_for_job,
  wait_while, Kernel,
}
use zofi.Base.{
  [], ap, if◌then◌else◌, length, ltb, ◌%◌, ◌+◌, ◌==◌, ◌^◌, Bool, List, Option, Outcome, assert, die,
  false, none, ok, refl, some, suc, true, user_die, ℕ, ◌>>=◌, ◌>>◌, ◌≡◌, zero,
}
use zofi.ExitState.Data.{ExitState, Sys, get_wait_pid_exit_state}

module _ {S : Type 0} (sys : Sys) (kernel : Kernel) (finished : JobData → S → Outcome S)
    (showing : Bool) (total : ℕ) where
  abbrev pub put_back : List JobData → S × Shown → Scheduler (S × Shown)
  put_back js rb = record { active_jobs = js; results = rb }

  abbrev pub show_result : Bool → S × Shown → Outcome (S × Shown)
  show_result false rb = ok rb
  show_result true rb = do b ← show_next total rb.1; ok (rb.0, b)

  -- The end of a job and the update of the bar as one step.
  abbrev pub with_bar : JobData → S × Shown → Outcome (S × Shown)
  with_bar j rb = do r ← beside_bar finished j rb; show_result showing r

  show_if-result :
      (b : Bool) (js : List JobData) (rb : S × Shown)
      → show_if b total (put_back js rb) ≡ (do r ← show_result b rb; ok (put_back js r))
  unfolding show_if
  show_if-result false js rb = refl
  show_if-result true js rb =
      elim (show_next total rb.1)
        as (λ m.
          (do b ← m; ok (put_back js (rb.0, b)))
          ≡ (do r ← (do b ← m; ok (rb.0, b)); ok (put_back js r))) [
            | ok b ↦ refl
            | die ↦ refl
            | user_die ↦ refl
          ]

  job_and_show :
      (j : JobData) (js : List JobData) (m : Outcome (S × Shown))
      → (do t ← (do r ← m; ok (put_back js r)); show_if showing total t)
        ≡ (do rb ← (do r ← m; show_result showing r); ok (put_back js rb))
  job_and_show j js (ok rb) = show_if-result showing js rb
  job_and_show j js die = refl
  job_and_show j js user_die = refl

  wait_and_show-at :
      (s : Scheduler (S × Shown)) (pid : ℕ) (m : Outcome ExitState) (b : Bool) (f : Option JobData)
      → (do
        t ← (do
          state ← m
          assert b
          elim f [
            | none ↦ die
            | some j ↦ do
              r ← beside_bar finished j s.results
              ok (record { active_jobs = erase_job pid s.active_jobs; results = r })
          ])
        show_if showing total t)
        ≡ (do
          state ← m
          assert b
          elim f [
            | none ↦ die
            | some j ↦ do
              r ← with_bar j s.results
              ok (record { active_jobs = erase_job pid s.active_jobs; results = r })
          ])
  wait_and_show-at s pid die b f = refl
  wait_and_show-at s pid user_die b f = refl
  wait_and_show-at s pid (ok st) false f = refl
  wait_and_show-at s pid (ok st) true none = refl
  wait_and_show-at s pid (ok st) true (some j) =
      job_and_show j (erase_job pid s.active_jobs) (beside_bar finished j s.results)

  wait_and_show-step :
      (s : Scheduler (S × Shown))
      → wait_and_show sys kernel finished showing total s ≡ wait_for_job sys kernel with_bar s
  unfolding wait_and_show wait_for_job
  wait_and_show-step s =
      let waited = kernel.wait s.active_jobs in
      wait_and_show-at s waited.0 (get_wait_pid_exit_state sys waited.1) (sys.w_if_exited waited.1)
        (find_job waited.0 s.active_jobs)

  wait_while_bar-step :
      (fuel : ℕ) (test : ℕ → Bool) (s : Scheduler (S × Shown))
      → wait_while_bar sys kernel finished showing total fuel test s
        ≡ wait_while sys kernel with_bar fuel test s
  unfolding wait_while_bar wait_while
  wait_while_bar-step zero test s = refl
  wait_while_bar-step (suc fuel) test s = rw (wait_and_show-step s) (
      ap
        (λ f.
          if test (length s.active_jobs)
          then then_run (lift (wait_for_job sys kernel with_bar s)) f
          else some (ok s))
        (fun_ext (wait_while_bar-step fuel test)))

  one_job_bar-step :
      (fuel jobs id : ℕ) (s : Scheduler (S × Shown))
      → one_job_bar sys kernel finished showing total fuel jobs id s
        ≡ one_job sys kernel with_bar fuel jobs id s
  unfolding one_job_bar one_job
  one_job_bar-step fuel jobs id s = rw (wait_while_bar-step fuel (λ n. n == jobs) s) refl

  all_jobs_bar-step :
      (fuel jobs id : ℕ) (s : Scheduler (S × Shown))
      → all_jobs_bar sys kernel finished showing total fuel jobs id s
        ≡ all_jobs sys kernel with_bar fuel jobs total id s
  unfolding all_jobs_bar all_jobs
  all_jobs_bar-step zero jobs id s = refl
  all_jobs_bar-step (suc fuel) jobs id s = rw (one_job_bar-step (suc fuel) jobs id s) (
      ap
        (λ f.
          if id == total
          then some (ok s)
          else then_run (one_job sys kernel with_bar (suc fuel) jobs id s) f)
        (fun_ext (all_jobs_bar-step fuel jobs ((id + 1) % 2 ^ 32))))

  -- The run with its bar is the run whose jobs end with the update of the bar.
  pub run_bar-run :
      (fuel jobs : ℕ) (start : S)
      → run_bar sys kernel finished showing total fuel jobs start
        ≡ run sys kernel with_bar fuel jobs total (put_back [] (start, show_init showing total))
  unfolding run_bar run
  run_bar-run fuel jobs start =
      rw (all_jobs_bar-step fuel jobs 0 (put_back [] (start, show_init showing total))) (
        ap
          (λ f.
            then_run
              (all_jobs sys kernel with_bar fuel jobs total 0
                (put_back [] (start, show_init showing total)))
              f)
          (fun_ext (wait_while_bar-step fuel (λ n. ltb 0 n))))
