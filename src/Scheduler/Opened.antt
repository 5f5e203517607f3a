-- ===== src/Scheduler/Opened.antt =====
-- src/threads.cpp: the descriptors that the active jobs hold in the scheduler's process.
use zofi.Base.{
  true, Bool-cases, List, [], ap, arith, false, inl, inr, none, refl, some, some_inj, ℕ, ◌++◌, ◌+◌,
  ◌==◌, ◌∙◌, ◌∷◌, ◌≡◌,
}
use zofi.Scheduler.Pipes.{
  FdKind, FdTable, PipeJob, close_fd, erase_pipe_job, fd_at, find_pipe_job, read_end,
}
use mathlib.Core.Path.{subst}

-- None of the jobs reads from this descriptor.
abbrev pub NotFd : ℕ → List PipeJob → Type 0
NotFd fd [] = Unit {0}
NotFd fd (j ∷ js) = ((j.read_fd == fd) ≡ false) × NotFd fd js

abbrev pub Distinct : List PipeJob → Type 0
Distinct [] = Unit {0}
Distinct (j ∷ js) = NotFd j.read_fd js × Distinct js

same_fd : (n : ℕ) → (n == n) ≡ true
same_fd n = ground arith

module _ (base : ℕ) where
  -- The read end that the parent keeps for a job: that of the pipe made for it.
  abbrev pub entry : PipeJob → ℕ × FdKind
  entry j = (j.read_fd, read_end (base + j.job.id))

  -- The descriptors of a table and of the jobs, the latest job in front.
  abbrev pub opened : List PipeJob → FdTable → FdTable
  opened [] t = t
  opened (j ∷ js) t = opened js (entry j ∷ t)

  close_fd-opened :
      (fd : ℕ) (js : List PipeJob) (t : FdTable)
      → NotFd fd js
      → close_fd fd (opened js t) ≡ opened js (close_fd fd t)
  unfolding close_fd
  close_fd-opened fd [] t n = refl
  close_fd-opened fd (j ∷ js) t (apart, n) =
      close_fd-opened fd js (entry j ∷ t) n ∙ ap (opened js) (rw apart refl)

  fd_at-opened :
      (fd : ℕ) (js : List PipeJob) (t : FdTable) → NotFd fd js → fd_at fd (opened js t) ≡ fd_at fd t
  unfolding fd_at
  fd_at-opened fd [] t n = refl
  fd_at-opened fd (j ∷ js) t (apart, n) = fd_at-opened fd js (entry j ∷ t) n ∙ rw apart refl

  -- Closing the descriptor of a job leaves those of the others.
  pub close_fd-found :
      (pid : ℕ) (js : List PipeJob) (j : PipeJob) (t : FdTable)
      → find_pipe_job pid js ≡ some j
      → Distinct js
      → close_fd j.read_fd (opened js t) ≡ opened (erase_pipe_job pid js) t
  unfolding find_pipe_job erase_pipe_job close_fd
  close_fd-found pid [] j t e d = cc
  close_fd-found pid (k ∷ js) j t e (n, d) = elim (Bool-cases (k.job.child_pid == pid)) [
    | inl here ↦
        let same : k ≡ j = some_inj (rw (here, find_pipe_job) at e) in
        subst
          (λ x.
            close_fd x.read_fd (opened js (entry k ∷ t)) ≡ opened (erase_pipe_job pid (k ∷ js)) t)
          same (close_fd-opened k.read_fd js (entry k ∷ t) n ∙ rw (same_fd k.read_fd, here) refl)
    | inr there ↦
        close_fd-found pid js j (entry k ∷ t) (rw (there, find_pipe_job) at e) d ∙ rw there refl
  ]

  pub fd_at-found :
      (pid : ℕ) (js : List PipeJob) (j : PipeJob) (t : FdTable)
      → find_pipe_job pid js ≡ some j
      → Distinct js
      → fd_at j.read_fd (opened js t) ≡ some (read_end (base + j.job.id))
  unfolding find_pipe_job fd_at
  fd_at-found pid [] j t e d = cc
  fd_at-found pid (k ∷ js) j t e (n, d) = elim (Bool-cases (k.job.child_pid == pid)) [
    | inl here ↦
        let same : k ≡ j = some_inj (rw (here, find_pipe_job) at e) in
        subst (λ x. fd_at x.read_fd (opened js (entry k ∷ t)) ≡ some (read_end (base + x.job.id)))
          same (fd_at-opened k.read_fd js (entry k ∷ t) n ∙ rw (same_fd k.read_fd) refl)
    | inr there ↦ fd_at-found pid js j (entry k ∷ t) (rw (there, find_pipe_job) at e) d
  ]

  -- A descriptor that is not open is no job's.
  pub fresh-NotFd :
      (fd : ℕ) (js : List PipeJob) (t : FdTable)
      → fd_at fd (opened js t) ≡ none
      → NotFd fd js × (fd_at fd t ≡ none)
  unfolding fd_at
  fresh-NotFd fd [] t e = (tt, e)
  fresh-NotFd fd (j ∷ js) t e =
      let (n, at) = fresh-NotFd fd js (entry j ∷ t) e in
      elim (Bool-cases (j.read_fd == fd)) [
        | inl same ↦ absurd (cc (rw same at at))
        | inr apart ↦ ((apart, n), rw apart at at)
      ]

  pub opened-snoc :
      (js : List PipeJob) (j : PipeJob) (t : FdTable)
      → opened (js ++ j ∷ []) t ≡ entry j ∷ opened js t
  opened-snoc [] j t = refl
  opened-snoc (k ∷ js) j t = opened-snoc js j (entry k ∷ t)

NotFd-erase : (fd pid : ℕ) (js : List PipeJob) → NotFd fd js → NotFd fd (erase_pipe_job pid js)
unfolding erase_pipe_job
NotFd-erase fd pid [] n = tt
NotFd-erase fd pid (j ∷ js) (apart, n) = elim (Bool-cases (j.job.child_pid == pid)) [
  | inl here ↦ rw (here, erase_pipe_job) n
  | inr there ↦ rw (there, erase_pipe_job) (apart, NotFd-erase fd pid js n)
]

pub Distinct-erase : (pid : ℕ) (js : List PipeJob) → Distinct js → Distinct (erase_pipe_job pid js)
unfolding erase_pipe_job
Distinct-erase pid [] d = tt
Distinct-erase pid (j ∷ js) (n, d) = elim (Bool-cases (j.job.child_pid == pid)) [
  | inl here ↦ rw (here, erase_pipe_job) d
  | inr there ↦ rw (there, erase_pipe_job) (NotFd-erase j.read_fd pid js n, Distinct-erase pid js d)
]

NotFd-snoc :
    (fd : ℕ) (js : List PipeJob) (j : PipeJob)
    → NotFd fd js
    → (j.read_fd == fd) ≡ false
    → NotFd fd (js ++ j ∷ [])
NotFd-snoc fd [] j n e = (e, tt)
NotFd-snoc fd (k ∷ js) j (apart, n) e = (apart, NotFd-snoc fd js j n e)

pub Distinct-snoc :
    (js : List PipeJob) (j : PipeJob) → Distinct js → NotFd j.read_fd js → Distinct (js ++ j ∷ [])
Distinct-snoc [] j d n = (tt, tt)
Distinct-snoc (k ∷ js) j (m, d) (apart, n) =
    (NotFd-snoc k.read_fd js j m (ground arith), Distinct-snoc js j d n)
