-- ===== src/Scheduler/PipesLaws.antt =====
-- src/threads.cpp: the scheduler with its pipes does what the one that is handed the results does.
use zofi.Base.{
  Bool-cases, List, [], ap, arith, false, inl, inr, length, length-map, map, refl, some, some_inj,
  suc, zero, ℕ, ◌++◌, ◌+◌, ◌<◌, ◌==◌, ◌∷◌, ◌≡◌,
}
use zofi.Scheduler.Pipes.{
  Calls, Contents, FdTable, Parent, PipeJob, erase_pipe_job, find_pipe_job, put_message,
}
use zofi.Scheduler.Jobs.{JobData, Scheduler, erase_job, find_job}
use zofi.Utils.Rand.{rand_safe}
use mathlib.Core.Path.{subst}
use zofi.Scheduler.Opened.{opened, Distinct}

-- The scheduler without its pipes.
abbrev pub plain_jobs : List PipeJob → List JobData
plain_jobs js = map (λ (j : PipeJob). j.job) js

abbrev pub plain : {S M G : Type 0} → Parent S M G → Scheduler S
plain p = record { active_jobs = plain_jobs p.active_jobs; results = p.results }

pub find_pipe_job-plain :
    (pid : ℕ) (js : List PipeJob) (j : JobData)
    → find_job pid (plain_jobs js) ≡ some j
    → (p : PipeJob) × (find_pipe_job pid js ≡ some p) × (p.job ≡ j)
unfolding find_job find_pipe_job
find_pipe_job-plain pid [] j e = cc
find_pipe_job-plain pid (k ∷ js) j e = elim (Bool-cases (k.job.child_pid == pid)) [
  | inl here ↦ (k, rw here refl, some_inj (rw (here, find_job) at e))
  | inr there ↦
      let (p, found, same) = find_pipe_job-plain pid js j (rw (there, find_job) at e) in
      (p, rw there found, same)
]

pub erase_pipe_job-plain :
    (pid : ℕ) (js : List PipeJob)
    → plain_jobs (erase_pipe_job pid js) ≡ erase_job pid (plain_jobs js)
unfolding erase_pipe_job erase_job
erase_pipe_job-plain pid [] = refl
erase_pipe_job-plain pid (k ∷ js) = elim (Bool-cases (k.job.child_pid == pid)) [
  | inl here ↦ rw here refl
  | inr there ↦ rw there (ap (λ l. k.job ∷ l) (erase_pipe_job-plain pid js))
]

pub plain_jobs-snoc :
    (js : List PipeJob) (j : PipeJob) → plain_jobs (js ++ j ∷ []) ≡ plain_jobs js ++ j.job ∷ []
plain_jobs-snoc [] j = refl
plain_jobs-snoc (k ∷ js) j = ap (λ l. k.job ∷ l) (plain_jobs-snoc js j)

pub length-plain : (js : List PipeJob) → length (plain_jobs js) ≡ length js
length-plain js = length-map js (λ (j : PipeJob). j.job)

module _ {M G : Type 0} (calls : Calls M G) (start : G) where
  -- The state of rand after some draws.
  abbrev pub after_draws : ℕ → G
  after_draws zero = start
  after_draws (suc n) = (rand_safe calls.rand 0 (after_draws n)).1

  -- What the child of a job sends: its work with the seed drawn for it.
  abbrev pub message : ℕ → M
  message id = calls.child_job_code (rand_safe calls.rand 0 (after_draws id)).0 id

  module _ (base : ℕ) where
    -- The jobs are below `id`, and what each one sends is in its pipe.
    abbrev pub AllSent : ℕ → Contents M → List PipeJob → Type 0
    AllSent id c [] = Unit {0}
    AllSent id c (j ∷ js) =
        ((j.job.id < id) × (c (base + j.job.id) ≡ some (message j.job.id))) × AllSent id c js

    pub AllSent-put_message :
        (id : ℕ) (c : Contents M) (js : List PipeJob) (m : M)
        → AllSent id c js
        → AllSent (suc id) (put_message (base + id) m c) js
    unfolding put_message
    AllSent-put_message id c [] m all = tt
    AllSent-put_message id c (j ∷ js) m ((below, sent), all) =
        let apart : (base + j.job.id == base + id) ≡ false = ground arith in
        ((omega arith, rw apart sent), AllSent-put_message id c js m all)

    pub AllSent-snoc :
        (id : ℕ) (c : Contents M) (js : List PipeJob) (j : PipeJob)
        → AllSent id c js
        → j.job.id < id
        → c (base + j.job.id) ≡ some (message j.job.id)
        → AllSent id c (js ++ j ∷ [])
    AllSent-snoc id c [] j all below sent = ((below, sent), tt)
    AllSent-snoc id c (k ∷ js) j (first, all) below sent =
        (first, AllSent-snoc id c js j all below sent)

    pub AllSent-erase :
        (id pid : ℕ) (c : Contents M) (js : List PipeJob)
        → AllSent id c js
        → AllSent id c (erase_pipe_job pid js)
    unfolding erase_pipe_job
    AllSent-erase id pid c [] all = tt
    AllSent-erase id pid c (j ∷ js) (first, all) = elim (Bool-cases (j.job.child_pid == pid)) [
      | inl here ↦ rw (here, erase_pipe_job) all
      | inr there ↦ rw (there, erase_pipe_job) (first, AllSent-erase id pid c js all)
    ]

    pub AllSent-found :
        (id pid : ℕ) (c : Contents M) (js : List PipeJob) (j : PipeJob)
        → AllSent id c js
        → find_pipe_job pid js ≡ some j
        → c (base + j.job.id) ≡ some (message j.job.id)
    unfolding find_pipe_job
    AllSent-found id pid c [] j all e = cc
    AllSent-found id pid c (k ∷ js) j ((below, sent), all) e =
        elim (Bool-cases (k.job.child_pid == pid)) [
          | inl here ↦
              let same : k ≡ j = some_inj (rw (here, find_pipe_job) at e) in
              subst (λ (x : PipeJob). c (base + x.job.id) ≡ some (message x.job.id)) same sent
          | inr there ↦ AllSent-found id pid c js j all (rw (there, find_pipe_job) at e)
        ]

    module _ {S : Type 0} (fds : FdTable) where
      -- The state when `id` jobs have been launched: beyond the descriptors that it started with,
      -- the scheduler holds one read end for each active job.
      pub record IsWired (id : ℕ) (p : Parent S M G) : Type 0 where
        pub table : p.fds ≡ opened base p.active_jobs fds
        pub distinct : Distinct p.active_jobs
        pub sent : AllSent id p.contents p.active_jobs
        pub drawn : p.generator ≡ after_draws id
        pub made : p.pipes ≡ base + id
