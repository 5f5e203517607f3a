-- ===== src/Runner/JobCode.antt =====
-- src/threads.cpp: childJobCode of the two schedulers, as far as the temporary files go. Each job
-- runs in a process of its own, with the descriptors of the scheduler and one file system.
use zofi.Base.{die, user_die, Bool, List, Outcome, [], ok, some, true, ℕ, ◌>>=◌, ◌∷◌}
use zofi.Runner.Lifecycle.{
  Kernel, LifeOptions, Made, RunnerBase, Started, destroy_runner, make_runner, run_children,
}
use zofi.Utils.Text.{Text}

-- What mkstemp and the calls of run give to one job, and how runAndWait ends: when the attempts run
-- out, or the timing run cannot be started, in userDie.
pub record JobFiles : Type 0 where
  pub out : Made
  pub err : Made
  pub starts : List Started
  pub ended : Outcome (Unit {0})

-- A runner that is made and whose runAndWait has made its calls of run.
unfoldable pub run_job :
    LifeOptions → (Text → Bool) → List ℕ → JobFiles → List Text → Outcome (RunnerBase × Kernel)
run_job opts stat_ok fds j files = do
  (r, k) ←
      make_runner opts stat_ok (some j.out) (some j.err) (record { open_fds = fds; files = files })
  run_children opts j.starts r k

-- The files that exist when the process of the job has ended: exit and abort run no destructor.
unfoldable pub end_job :
    LifeOptions → Bool → Outcome (Unit {0}) → RunnerBase → Kernel → Outcome (List Text)
end_job opts do_cleanup (ok u) r k = do k ← destroy_runner opts do_cleanup r k; ok k.files
end_job opts do_cleanup user_die r k = ok k.files
end_job opts do_cleanup die r k = ok k.files

unfoldable pub child_job :
    LifeOptions → (Text → Bool) → Bool → List ℕ → JobFiles → List Text → Outcome (List Text)
child_job opts stat_ok do_cleanup fds j files = do
  (r, k) ← run_job opts stat_ok fds j files
  end_job opts do_cleanup j.ended r k

-- `OrigRunner OR(Id, NoCleanup)`, whose second parameter is DoCleanup.
unfoldable pub orig_child_job :
    LifeOptions → (Text → Bool) → List ℕ → JobFiles → List Text → Outcome (List Text)
orig_child_job opts stat_ok fds j files = child_job opts stat_ok opts.no_cleanup fds j files

-- `Runner TR(Id, OrigExState, Stats)`, which has DoCleanup set.
unfoldable pub test_child_job :
    LifeOptions → (Text → Bool) → List ℕ → JobFiles → List Text → Outcome (List Text)
test_child_job opts stat_ok fds j files = child_job opts stat_ok true fds j files

-- The jobs of one scheduler in order.
unfoldable pub all_child_jobs :
    (JobFiles → List Text → Outcome (List Text)) → List JobFiles → List Text → Outcome (List Text)
all_child_jobs job [] files = ok files
all_child_jobs job (j ∷ l) files = do files ← job j files; all_child_jobs job l files
