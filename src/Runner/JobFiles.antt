-- ===== src/Runner/JobFiles.antt =====
-- src/threads.cpp and src/runner.cpp: the temporary files that the jobs leave behind.
use zofi.Runner.Lifecycle.{Kernel, RunnerBase, destroy_runner, LifeOptions}
use zofi.Runner.JobCode.{
  end_job, run_job, JobFiles, all_child_jobs, child_job, orig_child_job, test_child_job,
}
use zofi.Runner.LifetimeLaws.{runner_runs}
use zofi.Base.{
  Outcome, die, user_die, Bool, List, [], ap, arith, false, if◌then◌else◌, not, ok, refl, true, ℕ,
  ◌==◌, ◌>>=◌, ◌||◌, ◌∙◌, ◌∷◌, ◌≡◌,
}
use zofi.Scheduler.BarLines.{both}
use zofi.Utils.Number.{is_empty}
use zofi.Utils.Text.{Text}
use zofi.Utils.Diff.{same_bytes}
use zofi.Runner.LifecycleLaws.{kernel, AllStarted}

-- mkstemp gives two descriptors and two named files, and run always gets its child.
abbrev pub IsMade : List ℕ → JobFiles → Type 0
IsMade fds j =
    ((j.out.fd == j.err.fd) ≡ false)
    × (is_empty j.out.path ≡ false)
    × (is_empty j.err.path ≡ false)
    × (same_bytes j.out.path j.err.path ≡ false)
    × AllStarted (j.err.fd ∷ j.out.fd ∷ fds) j.starts

abbrev pub AllMade : List ℕ → List JobFiles → Type 0
AllMade fds [] = Unit {0}
AllMade fds (j ∷ l) = IsMade fds j × AllMade fds l

-- Two more files for each job.
abbrev pub with_files : List JobFiles → List Text → List Text
with_files [] files = files
with_files (j ∷ l) files = with_files l (j.err.path ∷ j.out.path ∷ files)

-- The job's runAndWait has returned, so that its runner is destroyed.
abbrev pub has_returned : Outcome (Unit {0}) → Bool
has_returned (ok u) = true
has_returned user_die = false
has_returned die = false

-- The jobs whose files stay, with cleanup asked for or not: those that have not returned.
abbrev pub staying : Bool → List JobFiles → List JobFiles
staying no_cleanup [] = []
staying no_cleanup (j ∷ l) =
    if no_cleanup || not (has_returned j.ended)
    then j ∷ staying no_cleanup l
    else staying no_cleanup l

module _ (opts : LifeOptions) (stat_ok : Text → Bool) (fds : List ℕ)
    (there : stat_ok opts.binary ≡ true) where
  end_job-files :
      (do_cleanup : Bool) (ended : Outcome (Unit {0})) (out err : Text) (files : List Text)
      (r : RunnerBase) (k : Kernel)
      → destroy_runner opts do_cleanup r k
        ≡ ok (kernel fds (if opts.no_cleanup || not do_cleanup then err ∷ out ∷ files else files))
      → k.files ≡ err ∷ out ∷ files
      → end_job opts do_cleanup ended r k
        ≡ ok (
            if (opts.no_cleanup || not do_cleanup) || not (has_returned ended)
            then err ∷ out ∷ files
            else files)
  unfolding end_job
  end_job-files do_cleanup (ok u) out err files r k gone both =
      ap (λ m. m >>= λ (x : Kernel). ok x.files) gone ∙ ground arith
  end_job-files do_cleanup user_die out err files r k gone both = ground arith
  end_job-files do_cleanup die out err files r k gone both = ground arith

  child_job-files :
      (do_cleanup : Bool) (j : JobFiles) (files : List Text)
      → IsMade fds j
      → child_job opts stat_ok do_cleanup fds j files
        ≡ ok (
            if (opts.no_cleanup || not do_cleanup) || not (has_returned j.ended)
            then j.err.path ∷ j.out.path ∷ files
            else files)
  unfolding child_job run_job
  child_job-files do_cleanup j files (apart, out_named, err_named, two, started) =
      let (r, k, ran, gone, both) =
        runner_runs opts do_cleanup j.out j.err fds files apart out_named err_named two stat_ok
          j.starts there started in
      ap (λ (m : Outcome (RunnerBase × Kernel)). m >>= λ x. end_job opts do_cleanup j.ended x.0 x.1)
        ran
      ∙ end_job-files do_cleanup j.ended j.out.path j.err.path files r k gone both

  orig_child_job-files :
      (j : JobFiles) (files : List Text)
      → IsMade fds j
      → orig_child_job opts stat_ok fds j files ≡ ok (j.err.path ∷ j.out.path ∷ files)
  unfolding orig_child_job
  orig_child_job-files j files made = child_job-files opts.no_cleanup j files made ∙ ground arith

  test_child_job-files :
      (j : JobFiles) (files : List Text)
      → IsMade fds j
      → test_child_job opts stat_ok fds j files
        ≡ ok (
            if opts.no_cleanup || not (has_returned j.ended)
            then j.err.path ∷ j.out.path ∷ files
            else files)
  unfolding test_child_job
  test_child_job-files j files made = child_job-files true j files made ∙ ground arith

  orig_jobs :
      (l : List JobFiles) (files : List Text)
      → AllMade fds l
      → all_child_jobs (orig_child_job opts stat_ok fds) l files ≡ ok (with_files l files)
  unfolding all_child_jobs
  orig_jobs [] files all = refl
  orig_jobs (j ∷ l) files (made, all) =
      ap (λ m. m >>= all_child_jobs (orig_child_job opts stat_ok fds) l)
        (orig_child_job-files j files made)
      ∙ orig_jobs l (j.err.path ∷ j.out.path ∷ files) all

  test_jobs :
      (l : List JobFiles) (files : List Text)
      → AllMade fds l
      → all_child_jobs (test_child_job opts stat_ok fds) l files
        ≡ ok (with_files (staying opts.no_cleanup l) files)
  unfolding all_child_jobs
  test_jobs [] files all = refl
  test_jobs (j ∷ l) files (made, all) =
      let two = j.err.path ∷ j.out.path ∷ files in
      let keep = opts.no_cleanup || not (has_returned j.ended) in
      ap (λ m. m >>= all_child_jobs (test_child_job opts stat_ok fds) l)
        (test_child_job-files j files made)
      ∙ test_jobs l (if keep then two else files) all
      ∙ ap ok (kept_file keep j (staying opts.no_cleanup l) files)
    where
      kept_file :
          (keep : Bool) (j : JobFiles) (l : List JobFiles) (files : List Text)
          → with_files l (if keep then j.err.path ∷ j.out.path ∷ files else files)
            ≡ with_files (if keep then j ∷ l else l) files
      kept_file true j l files = refl
      kept_file false j l files = refl

  -- Where the binary exists and each job gets its files and its children: the jobs of the timing run
  -- leave both files of each of them, with -no-cleanup and without, however runAndWait ends; those of
  -- the test runs leave theirs with -no-cleanup, and else those of just the jobs whose runAndWait
  -- ended the program, as it does when the attempts run out.
  pub all_child_jobs_lem :
      (l : List JobFiles) (files : List Text)
      → AllMade fds l
      → (all_child_jobs (orig_child_job opts stat_ok fds) l files ≡ ok (with_files l files))
        × (all_child_jobs (test_child_job opts stat_ok fds) l files
            ≡ ok (with_files (staying opts.no_cleanup l) files))
  all_child_jobs_lem l files all = (orig_jobs l files all, test_jobs l files all)
