-- ===== src/Scheduler/PipesRun.antt =====
-- src/threads.cpp: the loops of the scheduler with its pipes.
use zofi.Scheduler.PipesLaws.{
  AllSent-erase, AllSent-found, IsWired, erase_pipe_job-plain, find_pipe_job-plain, message, plain,
  plain_jobs,
}
use zofi.Scheduler.Pipes.{
  Contents, FdKind, close_fd, erase_pipe_job, read_end, read_from, wait_for_pipe_job, Calls,
  FdTable, Parent, fd_at,
}
use zofi.Scheduler.Opened.{Distinct-erase, close_fd-found, fd_at-found}
use zofi.Base.{
  ◌+◌, Bool, Option-cases, ap, die, inl, inr, ok-injective, refl, sym, true, ◌∙◌, >>=-eq-ok, Option,
  Outcome, assert, false, none, ok, some, ℕ, ◌==◌, ◌≡◌,
}
use mathlib.Core.Path.{subst}
use zofi.Scheduler.Jobs.{erase_job, find_job, Kernel, JobData, Scheduler, wait_for_job}
use zofi.ExitState.Data.{ExitState, Sys, get_wait_pid_exit_state}

-- pipe gives two descriptors that are not open, and does not fail.
abbrev pub IsPipe : (FdTable → Option (ℕ × ℕ)) → Type 0
IsPipe pipe =
    (t : FdTable)
    → (r : ℕ) × (w : ℕ) × (pipe t ≡ some (r, w))
      × ((r == w) ≡ false)
      × (fd_at r t ≡ none)
      × (fd_at w t ≡ none)

read_from-sent :
    {M : Type 0} (k : Option FdKind) (q : ℕ) (m u : M) (c : Contents M)
    → k ≡ some (read_end q)
    → c q ≡ some m
    → read_from k u c ≡ m
unfolding read_from
read_from-sent k q m u c at sent = rw (at, read_from, sent) refl

abbrev pub plain_kernel : {M G : Type 0} → Calls M G → (ℕ → ℕ) → Kernel
plain_kernel calls pid = record { fork = pid; wait = calls.wait }

-- jobFinishedParentCode with what the job sends.
abbrev pub handed :
    {S M G : Type 0} → Calls M G → G → (M → JobData → S → Outcome S) → JobData → S → Outcome S
handed calls start finished j r = finished (message calls start j.id) j r

module _ {S M G : Type 0} (sys : Sys) (calls : Calls M G) (pid : ℕ → ℕ)
    (finished : M → JobData → S → Outcome S) (start : G) (base : ℕ) (fds : FdTable)
    (pipes : IsPipe calls.pipe) (forks : (id : ℕ) → calls.fork id ≡ some (pid id)) where
  abbrev pub Wired : ℕ → Parent S M G → Type 0
  Wired = IsWired calls start base fds

  -- What a successful waitForJob has done.
  record Waited (s t : Scheduler S) : Type 0 where
    pub state : ExitState
    pub known : get_wait_pid_exit_state sys (calls.wait s.active_jobs).1 ≡ ok state
    pub exits : sys.w_if_exited (calls.wait s.active_jobs).1 ≡ true
    pub job : JobData
    pub found : find_job (calls.wait s.active_jobs).0 s.active_jobs ≡ some job
    pub accepted : handed calls start finished job s.results ≡ ok t.results
    pub erased : t.active_jobs ≡ erase_job (calls.wait s.active_jobs).0 s.active_jobs

  assert-true : (b : Bool) → assert b ≡ ok tt → b ≡ true
  assert-true true e = refl
  assert-true false e = absurd (cc)

  wait_for_job-Waited :
      (s t : Scheduler S)
      → wait_for_job sys (plain_kernel calls pid) (handed calls start finished) s ≡ ok t
      → Waited s t
  unfolding wait_for_job
  wait_for_job-Waited s t e =
      let (st, got, e1) =
        >>=-eq-ok (get_wait_pid_exit_state sys (calls.wait s.active_jobs).1) _ e in
      let (u, exits, e2) = >>=-eq-ok (assert (sys.w_if_exited (calls.wait s.active_jobs).1)) _ e1 in
      elim (Option-cases (find_job (calls.wait s.active_jobs).0 s.active_jobs)) [
        | inl lost ↦ absurd (no_job (rw lost at e2))
        | inr (j, found) ↦
            let (r, taken, e3) =
              >>=-eq-ok (handed calls start finished j s.results) _ (rw found at e2) in
            let same = ok-injective e3 in
            record {
              state = st;
              known = got;
              exits = assert-true _ exits;
              job = j;
              found = found;
              accepted = taken ∙ ap (λ (x : Scheduler S). ok x.results) same;
              erased = ap (λ (x : Scheduler S). x.active_jobs) (sym same);
            }
      ]
    where
      no_job : ◌≡◌ {A = Outcome (Scheduler S)} die (ok t) → ⊥
      no_job h = cc

  pub wait_for_pipe_job_lem :
      (id : ℕ) (p : Parent S M G) (t : Scheduler S)
      → Wired id p
      → wait_for_job sys (plain_kernel calls pid) (handed calls start finished) (plain p) ≡ ok t
      → (q : Parent S M G) × (wait_for_pipe_job calls sys finished p ≡ ok q)
        × Wired id q
        × (plain q ≡ t)
  unfolding wait_for_pipe_job
  wait_for_pipe_job_lem id p t w e =
      let done = wait_for_job-Waited (plain p) t e in
      let pid_of = (calls.wait (plain_jobs p.active_jobs)).0 in
      let (j, found, same) = find_pipe_job-plain pid_of p.active_jobs done.job done.found in
      let at : fd_at j.read_fd p.fds ≡ some (read_end (base + j.job.id)) =
        ap (fd_at j.read_fd) w.table
        ∙ fd_at-found base pid_of p.active_jobs j fds found w.distinct in
      let sent = AllSent-found calls start base id pid_of p.contents p.active_jobs j w.sent found in
      let got =
        read_from-sent (fd_at j.read_fd p.fds) (base + j.job.id) (message calls start j.job.id)
          calls.unread p.contents at sent in
      let taken : finished (message calls start j.job.id) j.job p.results ≡ ok t.results =
        subst (λ (x : JobData). handed calls start finished x p.results ≡ ok t.results) (sym same)
          done.accepted in
      (
        record p {
          fds = close_fd j.read_fd p.fds;
          active_jobs = erase_pipe_job pid_of p.active_jobs;
          results = t.results;
        },
        rw (done.known, done.exits, found, got, taken) refl,
        record {
          table =
              ap (close_fd j.read_fd) w.table
              ∙ close_fd-found base pid_of p.active_jobs j fds found w.distinct;
          distinct = Distinct-erase pid_of p.active_jobs w.distinct;
          sent = AllSent-erase calls start base id pid_of p.contents p.active_jobs w.sent;
          drawn = w.drawn;
          made = w.made;
        },
        ap (λ l. record { active_jobs = l; results = t.results })
            (erase_pipe_job-plain pid_of p.active_jobs ∙ sym done.erased),
      )
