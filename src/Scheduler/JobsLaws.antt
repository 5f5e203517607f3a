-- ===== src/Scheduler/JobsLaws.antt =====
-- src/threads.cpp: the invariant of the scheduler, and the loops over waitForJob.
use zofi.Base.{
  Bool, false, lt→ltb, zero, ◌∙◌, ◌≤◌, Bool-cases, List, Outcome, [], ap, arith, if◌then◌else◌, inl,
  inr, length, ltb, ok, refl, some, some_inj, suc, sym, true, ℕ, ◌++◌, ◌+◌, ◌<◌, ◌==◌, ◌∷◌, ◌≡◌,
}
use zofi.Scheduler.Jobs.{wait_while, JobData, Kernel, Scheduler, erase_job, find_job, wait_for_job}
use zofi.ExitState.Data.{Sys, get_wait_pid_exit_state}

abbrev id_is : ℕ → JobData → ℕ
id_is i j = if j.id == i then 1 else 0

-- How many of the jobs have an id.
abbrev pub count_id : ℕ → List JobData → ℕ
count_id i [] = 0
count_id i (j ∷ js) = id_is i j + count_id i js

-- What the results are after jobs have finished, the last one first.
abbrev pub results_of : {S : Type 0} → (JobData → S → S) → List JobData → S → S
results_of step [] r = r
results_of step (j ∷ js) r = step j (results_of step js r)

pub count_id-snoc :
    (i : ℕ) (js : List JobData) (j : JobData)
    → count_id i (js ++ j ∷ []) ≡ count_id i js + id_is i j
count_id-snoc i [] j = omega arith
count_id-snoc i (k ∷ js) j = omega (arith, count_id-snoc i js j)

pub length-snoc : (js : List JobData) (j : JobData) → length (js ++ j ∷ []) ≡ suc (length js)
length-snoc [] j = refl
length-snoc (k ∷ js) j = ap suc (length-snoc js j)

count_id-erase :
    (i pid : ℕ) (js : List JobData) (j : JobData)
    → find_job pid js ≡ some j
    → id_is i j + count_id i (erase_job pid js) ≡ count_id i js
unfolding find_job erase_job
count_id-erase i pid [] j e = absurd (cc)
count_id-erase i pid (k ∷ js) j e = elim (Bool-cases (k.child_pid == pid)) [
  | inl here ↦
      let same : k ≡ j = some_inj (rw (here, find_job) at e) in
      rw (here, erase_job) (ap (λ x. id_is i x + count_id i js) (sym same))
  | inr there ↦
      let rest = count_id-erase i pid js j (rw (there, find_job) at e) in
      rw (there, erase_job) (omega (arith, rest))
]

length-erase :
    (pid : ℕ) (js : List JobData) (j : JobData)
    → find_job pid js ≡ some j
    → suc (length (erase_job pid js)) ≡ length js
unfolding find_job erase_job
length-erase pid [] j e = absurd (cc)
length-erase pid (k ∷ js) j e = elim (Bool-cases (k.child_pid == pid)) [
  | inl here ↦ rw (here, erase_job) refl
  | inr there ↦ rw (there, erase_job) (ap suc (length-erase pid js j (rw (there, find_job) at e)))
]

-- waitpid(-1) gives a child that exited and has not been waited for, while there is one.
abbrev pub IsKernel : Sys → Kernel → Type 0
IsKernel sys kernel =
    (js : List JobData)
    → 0 < length js
    → (sys.w_if_exited (kernel.wait js).1 ≡ true)
      × ((j : JobData) × (find_job (kernel.wait js).0 js ≡ some j))

module _ {S : Type 0} (sys : Sys) (kernel : Kernel) (finished : JobData → S → Outcome S)
    (step : JobData → S → S) (start : S) (waits : IsKernel sys kernel)
    (finishes : (j : JobData) (r : S) → finished j r ≡ ok (step j r)) where
  -- The jobs below `id` are each finished once or active once, and no others are.
  pub record Holds (id : ℕ) (s : Scheduler S) : Type 0 where
    pub done : List JobData
    pub gathered : s.results ≡ results_of step done start
    pub once : (i : ℕ) → count_id i done + count_id i s.active_jobs ≡ (if ltb i id then 1 else 0)

  wait_for_job_lem :
      (id : ℕ) (s : Scheduler S)
      → 0 < length s.active_jobs
      → Holds id s
      → (t : Scheduler S) × (wait_for_job sys kernel finished s ≡ ok t)
        × Holds id t
        × (suc (length t.active_jobs) ≡ length s.active_jobs)
  unfolding wait_for_job get_wait_pid_exit_state
  wait_for_job_lem id s some_active h =
      let (exits, (j, found)) = waits s.active_jobs some_active in
      let pid = (kernel.wait s.active_jobs).0 in
      (
        record { active_jobs = erase_job pid s.active_jobs; results = step j s.results },
        rw (exits, found, finishes j s.results, wait_for_job) refl,
        record {
          done = j ∷ h.done;
          gathered = ap (step j) h.gathered;
          once = λ i. omega (arith, h.once i, count_id-erase i pid s.active_jobs j found);
        },
        length-erase pid s.active_jobs j found,
      )

  wait_while_idle :
      (fuel : ℕ) (test : ℕ → Bool) (s : Scheduler S)
      → test (length s.active_jobs) ≡ false
      → wait_while sys kernel finished (suc fuel) test s ≡ some (ok s)
  unfolding wait_while
  wait_while_idle fuel test s e = rw (e, wait_while) refl

  wait_while_again :
      (fuel : ℕ) (test : ℕ → Bool) (s t : Scheduler S)
      → test (length s.active_jobs) ≡ true
      → wait_for_job sys kernel finished s ≡ ok t
      → wait_while sys kernel finished (suc fuel) test s
        ≡ wait_while sys kernel finished fuel test t
  unfolding wait_while
  wait_while_again fuel test s t e ran = rw (e, ran, wait_while) refl

  -- Waiting for a slot leaves fewer than `jobs` active.
  pub wait_slot :
      (fuel jobs id : ℕ) (s : Scheduler S)
      → 0 < jobs
      → 1 < suc fuel
      → length s.active_jobs ≤ jobs
      → Holds id s
      → (t : Scheduler S) × (wait_while sys kernel finished (suc fuel) (λ n. n == jobs) s
          ≡ some (ok t))
        × Holds id t
        × (length t.active_jobs < jobs)
  wait_slot zero jobs id s pos_jobs h le k = absurd (omega arith)
  wait_slot (suc fuel) jobs id s pos_jobs h le k =
      elim (Bool-cases (length s.active_jobs == jobs)) [
        | inl full ↦
            let is_full : length s.active_jobs ≡ jobs = ground arith in
            let (t, ran, held, shorter) = wait_for_job_lem id s (omega arith) k in
            (
              t,
              wait_while_again (suc fuel) (λ n. n == jobs) s t full ran
                  ∙ wait_while_idle fuel (λ n. n == jobs) t (ground arith),
              held,
              omega arith,
            )
        | inr free ↦ (s, wait_while_idle (suc fuel) (λ n. n == jobs) s free, k, ground arith)
      ]

  -- Waiting for all leaves none active.
  pub wait_all :
      (fuel n id : ℕ) (s : Scheduler S)
      → length s.active_jobs ≡ n
      → n < fuel
      → Holds id s
      → (t : Scheduler S) × (wait_while sys kernel finished fuel (λ m. ltb 0 m) s ≡ some (ok t))
        × Holds id t
        × (length t.active_jobs ≡ 0)
  wait_all zero n id s e h k = absurd (omega arith)
  wait_all (suc fuel) zero id s e h k = (s, wait_while_idle fuel (λ m. ltb 0 m) s (rw e refl), k, e)
  wait_all (suc fuel) (suc n) id s e h k =
      let (t, ran, held, shorter) = wait_for_job_lem id s (omega arith) k in
      let (u, ran', held', empty) = wait_all fuel n id t (omega arith) (omega arith) held in
      (
        u,
        wait_while_again fuel (λ m. ltb 0 m) s t (lt→ltb 0 (length s.active_jobs) (omega arith)) ran
            ∙ ran',
        held',
        empty,
      )
