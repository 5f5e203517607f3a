-- ===== src/Scheduler/PipesWhole.antt =====
-- src/threads.cpp: the scheduler with its pipes as a whole.
use zofi.Scheduler.PipesLaws.{AllSent, IsWired, after_draws, length-plain, plain, plain_jobs}
use zofi.Scheduler.Jobs.{
  JobData, Run, Scheduler, all_jobs, lift, one_job, run, then_run, wait_for_job, wait_while,
}
use zofi.Base.{
  Bool, Bool-cases, List, Outcome, [], ap, arith, die, false, inl, inr, length, ltb, none, ok,
  ok-injective, refl, some, some_inj, suc, sym, user_die, zero, ℕ, ◌%◌, ◌++◌, ◌+◌, ◌<◌, ◌==◌, ◌^◌,
  ◌∙◌, ◌∷◌, ◌≡◌, ◌≤◌,
}
use zofi.Scheduler.PipesRun.{IsPipe, handed, plain_kernel, wait_for_pipe_job_lem}
use zofi.Scheduler.Pipes.{
  Calls, FdTable, Parent, PipeJob, launch, launch_all, run_pipes, wait_while_pipes,
}
use zofi.Scheduler.PipesLaunch.{launch_lem}
use zofi.ExitState.Data.{Sys}
use mathlib.Core.Path.{subst}
use zofi.Scheduler.Opened.{opened, Distinct}

then_run-ok :
    {A B : Type 0} (m : Run A) (f : A → Run B) {b : B}
    → then_run m f ≡ some (ok b)
    → (a : A) × (m ≡ some (ok a)) × (f a ≡ some (ok b))
then_run-ok none f e = cc
then_run-ok (some die) f e = cc
then_run-ok (some user_die) f e = cc
then_run-ok (some (ok a)) f e = (a, refl, e)

next_id : (id total : ℕ) → id < total → total < 2 ^ 32 → (id + 1) % 2 ^ 32 ≡ suc id
next_id id total below small = omega (arith, below, small)

module _ {S M G : Type 0} (sys : Sys) (calls : Calls M G) (pid : ℕ → ℕ)
    (finished : M → JobData → S → Outcome S) (start : G) (base : ℕ) (fds : FdTable)
    (pipes : IsPipe calls.pipe) (forks : (id : ℕ) → calls.fork id ≡ some (pid id)) where
  abbrev Wired : ℕ → Parent S M G → Type 0
  Wired = IsWired calls start base fds

  length-active : (p : Parent S M G) → length (plain p).active_jobs ≡ length p.active_jobs
  length-active p = length-plain p.active_jobs

  wait_while_pipes_lem :
      (fuel : ℕ) (test : ℕ → Bool) (id : ℕ) (p : Parent S M G) (t : Scheduler S)
      → Wired id p
      → wait_while sys (plain_kernel calls pid) (handed calls start finished) fuel test (plain p)
        ≡ some (ok t)
      → (q : Parent S M G) × (wait_while_pipes calls sys finished fuel test p ≡ some (ok q))
        × Wired id q
        × (plain q ≡ t)
  unfolding wait_while wait_while_pipes
  wait_while_pipes_lem zero test id p t w e = cc
  wait_while_pipes_lem (suc fuel) test id p t w e =
      elim (Bool-cases (test (length p.active_jobs))) [
        | inl again ↦
            let (s1, waited, e1) =
              then_run-ok
                (lift (
                  wait_for_job sys (plain_kernel calls pid) (handed calls start finished)
                    (plain p)))
                _ (rw (length-active p, again) at e) in
            let (q1, waited', w1, same) =
              wait_for_pipe_job_lem sys calls pid finished start base fds pipes forks id p s1 w
                (some_inj waited) in
            let (q, ran, w2, same') = wait_while_pipes_lem fuel test id q1 t w1 (
              subst
                (λ z.
                  wait_while sys (plain_kernel calls pid) (handed calls start finished) fuel test z
                  ≡ some (ok t))
                (sym same) e1) in
            (q, rw (again, waited') ran, w2, same')
        | inr done ↦ (p, rw done refl, w, ok-injective (some_inj (rw (length-active p, done) at e)))
      ]

  -- One round of the loop over the jobs.
  round_lem :
      (fuel jobs id : ℕ) (p : Parent S M G) (t : Scheduler S)
      → Wired id p
      → one_job sys (plain_kernel calls pid) (handed calls start finished) fuel jobs id (plain p)
        ≡ some (ok t)
      → (r : Parent S M G) × (q : Parent S M G) × (wait_while_pipes calls sys finished fuel
            (λ n. n == jobs)
            p
          ≡ some (ok r))
        × (launch calls id r ≡ ok q)
        × Wired (suc id) q
        × (plain q ≡ t)
  unfolding one_job
  round_lem fuel jobs id p t w e =
      let (s, waited, e') =
        then_run-ok
          (wait_while sys (plain_kernel calls pid) (handed calls start finished) fuel
            (λ n. n == jobs) (plain p))
          _ e in
      let (r, ran, w', same) = wait_while_pipes_lem fuel (λ n. n == jobs) id p s w waited in
      let (q, launched, w'', new) =
        launch_lem sys calls pid finished start base fds pipes forks id r w' in
      let add = λ (x : Scheduler S). record x {
        active_jobs = x.active_jobs ++ record { id = id; child_pid = pid id } ∷ [];
      } in
      (r, q, ran, launched, w'', new ∙ ap add same ∙ ok-injective (some_inj e'))

  launch_all_step :
      (fuel jobs total id n : ℕ) (p r q : Parent S M G) {u : Parent S M G}
      → (id == total) ≡ false
      → wait_while_pipes calls sys finished (suc fuel) (λ n. n == jobs) p ≡ some (ok r)
      → launch calls id r ≡ ok q
      → (id + 1) % 2 ^ 32 ≡ n
      → launch_all calls sys finished fuel jobs total n q ≡ some (ok u)
      → launch_all calls sys finished (suc fuel) jobs total id p ≡ some (ok u)
  unfolding launch_all
  launch_all_step fuel jobs total id n p r q more ran launched next e =
      rw (more, ran, launched, next) e

  launch_all_lem :
      (fuel jobs total id : ℕ) (p : Parent S M G) (t : Scheduler S)
      → id ≤ total
      → total < 2 ^ 32
      → Wired id p
      → all_jobs sys
          (plain_kernel calls pid)
          (handed calls start finished)
          fuel
          jobs
          total
          id
          (plain p)
        ≡ some (ok t)
      → (q : Parent S M G) × (launch_all calls sys finished fuel jobs total id p ≡ some (ok q))
        × Wired total q
        × (plain q ≡ t)
  unfolding all_jobs launch_all
  launch_all_lem zero jobs total id p t le small w e = cc
  launch_all_lem (suc fuel) jobs total id p t le small w e = elim (Bool-cases (id == total)) [
    | inl last ↦
        let same : id ≡ total = ground arith in
        (p, rw last refl, subst (λ n. Wired n p) same w, ok-injective (some_inj (rw last at e)))
    | inr more ↦
        let rest = λ (n : ℕ) (x : Scheduler S).
          all_jobs sys (plain_kernel calls pid) (handed calls start finished) fuel jobs total n x in
        let (s, one, e1) =
          then_run-ok
            (one_job sys (plain_kernel calls pid) (handed calls start finished) (suc fuel) jobs id
              (plain p))
            (rest ((id + 1) % 2 ^ 32)) (rw more at e) in
        let (r, q, ran, launched, w', same) = round_lem (suc fuel) jobs id p s w one in
        let next : (id + 1) % 2 ^ 32 ≡ suc id = next_id id total (ground arith) small in
        let (u, ran', w'', same') =
          launch_all_lem fuel jobs total (suc id) q t (ground arith) small w' (
            subst (λ x. rest (suc id) x ≡ some (ok t)) (sym same)
              (subst (λ n. rest n s ≡ some (ok t)) next e1)) in
        (
          u,
          launch_all_step fuel jobs total id (suc id) p r q more ran launched next ran',
          w'',
          same',
        )
  ]

  no_jobs : (js : List PipeJob) → plain_jobs js ≡ [] → js ≡ []
  no_jobs [] e = refl
  no_jobs (j ∷ js) e = absurd (cc)

  -- Where pipe and fork succeed, pipe gives descriptors that are not open, and there are fewer than
  -- 2^32 jobs: when the scheduler that is handed each job's result ends with no job active, so does
  -- the one that gets it through a pipe, with the same results; its descriptor table is then the one
  -- it started with, and rand has been drawn from once for each job.
  pub run_pipes_lem :
      (fuel jobs total : ℕ) (p : Parent S M G) (t : Scheduler S)
      → total < 2 ^ 32
      → p.active_jobs ≡ []
      → p.fds ≡ fds
      → p.generator ≡ start
      → p.pipes ≡ base
      → t.active_jobs ≡ []
      → run sys (plain_kernel calls pid) (handed calls start finished) fuel jobs total (plain p)
        ≡ some (ok t)
      → (q : Parent S M G) × (run_pipes calls sys finished fuel jobs total p ≡ some (ok q))
        × (q.active_jobs ≡ [])
        × (q.results ≡ t.results)
        × (q.fds ≡ fds)
        × (q.generator ≡ after_draws calls start total)
  unfolding run run_pipes
  run_pipes_lem fuel jobs total p t small idle table gen made end e =
      let w : Wired 0 p = record {
        table = table ∙ ap (λ l. opened base l fds) (sym idle);
        distinct = subst (λ l. Distinct l) (sym idle) tt;
        sent = subst (λ l. AllSent calls start base 0 p.contents l) (sym idle) tt;
        drawn = gen;
        made = omega (arith, made);
      } in
      let (s, launched, e1) =
        then_run-ok
          (all_jobs sys (plain_kernel calls pid) (handed calls start finished) fuel jobs total 0
            (plain p))
          _ e in
      let (r, ran, w', same) =
        launch_all_lem fuel jobs total 0 p s (omega arith) small w launched in
      let (q, ran', w'', same') =
        wait_while_pipes_lem fuel (λ n. ltb 0 n) total r t w'
          (subst
            (λ x.
              wait_while sys (plain_kernel calls pid) (handed calls start finished) fuel
                (λ n. ltb 0 n) x
              ≡ some (ok t))
            (sym same) e1) in
      let idle' = no_jobs q.active_jobs (ap (λ (x : Scheduler S). x.active_jobs) same' ∙ end) in
      (
        q,
        rw ran ran',
        idle',
        ap (λ (x : Scheduler S). x.results) same',
        w''.table ∙ ap (λ l. opened base l fds) idle',
        w''.drawn,
      )
