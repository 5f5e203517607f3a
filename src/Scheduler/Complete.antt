-- ===== src/Scheduler/Complete.antt =====
-- src/threads.cpp: the loops of JobSchedulerBase::run as a whole.
use zofi.Scheduler.Jobs.{JobData, Kernel, Scheduler, all_jobs, one_job, run}
use zofi.Scheduler.JobsLaws.{
  Holds, IsKernel, count_id, count_id-snoc, length-snoc, results_of, wait_all, wait_slot,
}
use zofi.Base.{
  List, Outcome, [], ap, arith, false, if◌then◌else◌, length, ltb, ok, refl, some, suc, true, zero,
  ℕ, ◌%◌, ◌++◌, ◌+◌, ◌<◌, ◌==◌, ◌^◌, ◌∷◌, ◌≡◌, ◌≤◌,
}
use zofi.ExitState.Data.{Sys}
use mathlib.Core.Path.{subst}

module _ {S : Type 0} (sys : Sys) (kernel : Kernel) (finished : JobData → S → Outcome S)
    (step : JobData → S → S) (start : S) (waits : IsKernel sys kernel)
    (finishes : (j : JobData) (r : S) → finished j r ≡ ok (step j r)) where
  abbrev pub Kept : ℕ → Scheduler S → Type 0
  Kept = Holds sys kernel finished step start waits finishes

  -- Where waitpid gives an active job that has exited, no result is refused, -j is positive and at
  -- most `jobs` are active: with fuel for two waits, the body of the loop ends, leaves at most `jobs`
  -- active, and accounts for one job more.
  pub one_job_lem :
      (fuel jobs id : ℕ) (s : Scheduler S)
      → 0 < jobs
      → 0 < fuel
      → length s.active_jobs ≤ jobs
      → Kept id s
      → (t : Scheduler S) × (one_job sys kernel finished (suc fuel) jobs id s ≡ some (ok t))
        × Kept (suc id) t
        × (length t.active_jobs ≤ jobs)
  unfolding one_job
  one_job_lem fuel jobs id s pos_jobs h le k =
      let (t, ran, held, less) =
        wait_slot sys kernel finished step start waits finishes fuel jobs id s pos_jobs
          (omega arith) le k in
      let new : JobData = record { id = id; child_pid = kernel.fork id } in
      (
        record t { active_jobs = t.active_jobs ++ new ∷ [] },
        rw (ran, one_job) refl,
        record {
          done = held.done;
          gathered = held.gathered;
          once = λ i. ground (arith, held.once i, count_id-snoc i t.active_jobs new);
        },
        omega (arith, length-snoc t.active_jobs new),
      )

  next_id : (id : ℕ) → suc id < 2 ^ 32 → (id + 1) % 2 ^ 32 ≡ suc id
  next_id id h = omega (arith, h)

  all_jobs_lem :
      (n fuel jobs total id : ℕ) (s : Scheduler S)
      → 0 < jobs
      → id + n ≡ total
      → total < 2 ^ 32
      → n + 1 < fuel
      → length s.active_jobs ≤ jobs
      → Kept id s
      → (t : Scheduler S) × (all_jobs sys kernel finished fuel jobs total id s ≡ some (ok t))
        × Kept total t
        × (length t.active_jobs ≤ jobs)
  unfolding all_jobs
  all_jobs_lem n zero jobs total id s j e w h le k = absurd (omega arith)
  all_jobs_lem zero (suc fuel) jobs total id s j e w h le k =
      let here : id ≡ total = omega arith in
      let last : (id == total) ≡ true = ground arith in
      (s, rw (last, all_jobs) refl, subst (λ i. Kept i s) here k, le)
  all_jobs_lem (suc n) (suc fuel) jobs total id s j e w h le k =
      let more : (id == total) ≡ false = ground arith in
      let (t, ran, held, le') = one_job_lem fuel jobs id s j (omega arith) le k in
      let (u, ran', held', le'') =
        all_jobs_lem n fuel jobs total (suc id) t j (omega arith) w (omega arith) le' held in
      (u, rw (more, ran, next_id id (omega arith), all_jobs) ran', held', le'')

  -- Where waitpid gives an active job that has exited, no result is refused, -j is positive, there
  -- are fewer than 2^32 jobs, and the fuel is above their number plus -j plus one: the scheduler ends,
  -- no job is left active, and the results are those of a sequence of finished jobs in which each id
  -- below the total occurs once, and no other.
  pub run_lem :
      (fuel jobs total : ℕ)
      → 0 < jobs
      → total < 2 ^ 32
      → total + jobs + 1 < fuel
      → (t : Scheduler S) × (run sys kernel finished fuel jobs total
            (record { active_jobs = []; results = start })
          ≡ some (ok t))
        × (t.active_jobs ≡ [])
        × (done : List JobData) × (t.results ≡ results_of step done start)
        × ((i : ℕ) → count_id i done ≡ (if ltb i total then 1 else 0))
  unfolding run
  run_lem fuel jobs total j w h =
      let s : Scheduler S = record { active_jobs = []; results = start } in
      let k : Kept 0 s = record { done = []; gathered = refl; once = λ i. ground arith } in
      let (t, ran, held, le) =
        all_jobs_lem total fuel jobs total 0 s j (omega arith) w (omega arith) (omega arith) k in
      let (u, ran', held', empty) =
        wait_all sys kernel finished step start waits finishes fuel (length t.active_jobs) total t
          refl (omega arith) held in
      let none_left = no_jobs u.active_jobs empty in
      (
        u,
        rw (ran, run) ran',
        none_left,
        held'.done,
        held'.gathered,
        λ i. omega (arith, held'.once i, ap (count_id i) none_left),
      )
    where
      no_jobs : (js : List JobData) → length js ≡ 0 → js ≡ []
      no_jobs [] e = refl
      no_jobs (x ∷ js) e = absurd (omega arith)
