-- ===== src/Scheduler/BarRun.antt =====
-- src/threads.cpp: JobSchedulerBase::run with the progress bar that it draws.
use zofi.Base.{
  Bool, List, Outcome, [], die, false, if◌then◌else◌, length, ltb, none, ok, some, suc, true, ℕ,
  ◌%◌, ◌++◌, ◌+◌, ◌==◌, ◌>>=◌, ◌^◌, ◌∷◌, zero,
}
use zofi.Scheduler.Jobs.{JobData, Kernel, Run, Scheduler, lift, then_run, wait_for_job}
use zofi.ProgressBar.Bar.{Cell, ProgressBar, display, init_bar, make_bar}
use zofi.ExitState.Data.{Sys}

-- What changes of the bar of run: its LastFillSize, BarCnt, which is an unsigned of 32 bits, and the
-- lines that it has drawn, the last one first.
pub record Shown : Type 0 where
  pub last_fill_size : ℕ
  pub bar_cnt : ℕ
  pub lines : List (List Cell)

-- ProgressBar Bar(TotalNumJobs, 30, std::cout)
unfoldable pub bar_of : ℕ → ℕ → ProgressBar
bar_of total last_fill_size = record (make_bar total 30) { last_fill_size = last_fill_size }

-- Before the loop, with what Bar.init() draws `if (ShowingBar)`.
unfoldable pub show_init : Bool → ℕ → Shown
show_init false total = record { last_fill_size = 0; bar_cnt = 0; lines = [] }
show_init true total = record {
  last_fill_size = (init_bar (bar_of total 0)).1.last_fill_size;
  bar_cnt = 0;
  lines = (init_bar (bar_of total 0)).0 ∷ [];
}

-- Bar.display(++BarCnt), which divides by the number of jobs.
unfoldable pub show_next : ℕ → Shown → Outcome Shown
show_next total b =
    let cnt = (b.bar_cnt + 1) % 2 ^ 32 in
    let drawn_bar = display cnt (bar_of total b.last_fill_size) in
    if total == 0
    then die
    else ok (record {
      last_fill_size = drawn_bar.1.last_fill_size;
      bar_cnt = cnt;
      lines = drawn_bar.0 ∷ b.lines;
    })

-- jobFinishedParentCode does not touch the bar.
unfoldable pub beside_bar :
    {S : Type 0} → (JobData → S → Outcome S) → JobData → S × Shown → Outcome (S × Shown)
beside_bar finished j rb = do r ← finished j rb.0; ok (r, rb.1)

-- `if (ShowingBar) Bar.display(++BarCnt);`
unfoldable pub show_if :
    {S : Type 0} → Bool → ℕ → Scheduler (S × Shown) → Outcome (Scheduler (S × Shown))
show_if false total s = ok s
show_if true total s = do
  b ← show_next total s.results.1
  ok (record s { results = (s.results.0, b) })

module _ {S : Type 0} (sys : Sys) (kernel : Kernel) (finished : JobData → S → Outcome S)
    (showing : Bool) (total : ℕ) where
  -- A call of waitForJob and the update of the bar.
  unfoldable pub wait_and_show : Scheduler (S × Shown) → Outcome (Scheduler (S × Shown))
  wait_and_show s = do t ← wait_for_job sys kernel (beside_bar finished) s; show_if showing total t

  unfoldable pub wait_while_bar :
      ℕ → (ℕ → Bool) → Scheduler (S × Shown) → Run (Scheduler (S × Shown))
  wait_while_bar zero test s = none
  wait_while_bar (suc fuel) test s =
      let more = then_run (lift (wait_and_show s)) (wait_while_bar fuel test) in
      if test (length s.active_jobs) then more else some (ok s)

  unfoldable pub one_job_bar : ℕ → ℕ → ℕ → Scheduler (S × Shown) → Run (Scheduler (S × Shown))
  one_job_bar fuel jobs id s = then_run (wait_while_bar fuel (λ n. n == jobs) s) λ t. some (
      ok (record t {
        active_jobs = t.active_jobs ++ record { id = id; child_pid = kernel.fork id } ∷ [];
      }))

  unfoldable pub all_jobs_bar : ℕ → ℕ → ℕ → Scheduler (S × Shown) → Run (Scheduler (S × Shown))
  all_jobs_bar zero jobs id s = none
  all_jobs_bar (suc fuel) jobs id s =
      let next =
        then_run (one_job_bar (suc fuel) jobs id s) (all_jobs_bar fuel jobs ((id + 1) % 2 ^ 32)) in
      if id == total then some (ok s) else next

  -- JobSchedulerBase::run with its bar; Bar.finalize() prints the end of the line.
  unfoldable pub run_bar : ℕ → ℕ → S → Run (Scheduler (S × Shown))
  run_bar fuel jobs start =
      then_run
        (all_jobs_bar fuel jobs 0
          (record { active_jobs = []; results = (start, show_init showing total) }))
        (wait_while_bar fuel (λ n. ltb 0 n))
