-- ===== src/Scheduler/PipesLaunch.antt =====
-- src/threads.cpp: making a pipe and a child for a job.
use zofi.Scheduler.PipesRun.{IsPipe}
use zofi.Scheduler.PipesLaws.{
  AllSent-put_message, AllSent, AllSent-snoc, IsWired, plain, plain_jobs, plain_jobs-snoc,
}
use zofi.Base.{
  Outcome, [], ap, arith, false, ok, refl, some, suc, sym, true, ℕ, ◌++◌, ◌+◌, ◌==◌, ◌∙◌, ◌∷◌, ◌≡◌,
}
use zofi.Scheduler.Pipes.{
  Calls, Contents, FdTable, Parent, PipeJob, child_process, close_fd, fd_at, fork_safe, launch,
  pipe_safe, put_message, read_end, write_end, write_to,
}
use zofi.Scheduler.Opened.{opened-snoc, Distinct-snoc, fresh-NotFd}
use zofi.ExitState.Data.{Sys}
use mathlib.Core.Path.{subst}
use zofi.Utils.Rand.{rand_safe}
use zofi.Scheduler.Jobs.{JobData}

same_number : (n : ℕ) → (n == n) ≡ true
same_number n = ground arith

-- After the parent has closed its write end, the read end is what is new.
close_fd-new :
    (r w n : ℕ) (t : FdTable)
    → (r == w) ≡ false
    → close_fd w ((r, read_end n) ∷ (w, write_end n) ∷ t) ≡ (r, read_end n) ∷ t
unfolding close_fd
close_fd-new r w n t apart = rw (apart, same_number w) refl

-- What the child writes arrives in the pipe made for it.
child_process-put_message :
    {M G : Type 0} (calls : Calls M G) (r w n seed id : ℕ) (t : FdTable) (c : Contents M)
    → (r == w) ≡ false
    → child_process calls ((r, read_end n) ∷ (w, write_end n) ∷ t) r w seed id c
      ≡ put_message n (calls.child_job_code seed id) c
unfolding child_process close_fd fd_at write_to
child_process-put_message calls r w n seed id t c apart = rw (same_number r, same_number w) refl

put_message_self : {M : Type 0} (n : ℕ) (m : M) (c : Contents M) → put_message n m c n ≡ some m
unfolding put_message
put_message_self n m c = rw (same_number n) refl

module _ {S M G : Type 0} (sys : Sys) (calls : Calls M G) (pid : ℕ → ℕ)
    (finished : M → JobData → S → Outcome S) (start : G) (base : ℕ) (fds : FdTable)
    (pipes : IsPipe calls.pipe) (forks : (id : ℕ) → calls.fork id ≡ some (pid id)) where
  abbrev pub Wires : ℕ → Parent S M G → Type 0
  Wires = IsWired calls start base fds

  pub launch_lem :
      (id : ℕ) (p : Parent S M G)
      → Wires id p
      → (q : Parent S M G) × (launch calls id p ≡ ok q)
        × Wires (suc id) q
        × (plain q ≡ record {
          active_jobs = plain_jobs p.active_jobs ++ record { id = id; child_pid = pid id } ∷ [];
          results = p.results;
        })
  unfolding launch pipe_safe fork_safe
  launch_lem id p w =
      let (r, wr, made, apart, r_new, w_new) = pipes p.fds in
      let drawn = rand_safe calls.rand 0 p.generator in
      let new : PipeJob = record {
        job = record { id = id; child_pid = pid id };
        read_fd = r;
        write_fd = wr;
      } in
      let (not_r, free) =
        fresh-NotFd base r p.active_jobs fds (ap (fd_at r) (sym w.table) ∙ r_new) in
      (
        record {
          fds = (r, read_end p.pipes) ∷ p.fds;
          active_jobs = p.active_jobs ++ new ∷ [];
          results = p.results;
          generator = drawn.1;
          contents = put_message p.pipes (calls.child_job_code drawn.0 id) p.contents;
          pipes = p.pipes + 1;
        },
        rw
            (
              made,
              forks id,
              close_fd-new r wr p.pipes p.fds apart,
              child_process-put_message calls r wr p.pipes drawn.0 id p.fds p.contents apart,
            )
            refl,
        record {
          table =
              ap (λ n. (r, read_end n) ∷ p.fds) w.made
              ∙ ap (λ t. (r, read_end (base + id)) ∷ t) w.table
              ∙ sym (opened-snoc base p.active_jobs new fds);
          distinct = Distinct-snoc p.active_jobs new w.distinct not_r;
          sent =
              subst
                (λ n.
                  AllSent calls start base (suc id)
                    (put_message n (calls.child_job_code drawn.0 id) p.contents)
                    (p.active_jobs ++ new ∷ []))
                (sym w.made)
                (AllSent-snoc calls start base (suc id)
                  (put_message (base + id) (calls.child_job_code drawn.0 id) p.contents)
                  p.active_jobs new
                  (AllSent-put_message calls start base id p.contents p.active_jobs
                    (calls.child_job_code drawn.0 id) w.sent)
                  (omega arith)
                  (put_message_self (base + id) (calls.child_job_code drawn.0 id) p.contents
                    ∙ ap (λ g. some (calls.child_job_code (rand_safe calls.rand 0 g).0 id))
                        w.drawn));
          drawn = ap (λ g. (rand_safe calls.rand 0 g).1) w.drawn;
          made = omega (arith, w.made);
        },
        ap (λ l. record { active_jobs = l; results = p.results })
            (plain_jobs-snoc p.active_jobs new),
      )
