-- ===== src/Runner/LifetimeLaws.antt =====
-- src/runner.cpp: a runner from its constructor to its destructor.
use zofi.Runner.LifecycleLaws.{
  TerminalOk, run_children-Tidy, AllStarted, close_terminal, Tidy, kernel, own_files, with_terminal,
}
use zofi.Runner.Lifecycle.{
  run_children, args_list, Started, close_if_open, make_runner, runner_life, Kernel, LifeOptions,
  Made, RunnerBase, close_open_terminal, close_safe, destroy_runner, file_erase, file_known,
  remove_if_named,
}
use zofi.Base.{
  Bool-cases, Outcome, ap, inl, inr, true, ◌∙◌, Bool, List, Option, [], arith, false, if◌then◌else◌,
  none, not, ok, refl, some, ℕ, ◌==◌, ◌>>=◌, ◌||◌, ◌∷◌, ◌≡◌,
}
use zofi.Utils.Number.{is_empty}
use zofi.Utils.Text.{Text}
use zofi.Runner.Wait.{erase, mem}
use zofi.Utils.Diff.{same_bytes, same_bytes_refl}

close_stdout :
    (no_redirect : Bool) (t : Option ℕ) (out err : ℕ) (fds : List ℕ) (files : List Text)
    → (out == err) ≡ false
    → TerminalOk no_redirect t (err ∷ out ∷ fds)
    → close_safe out (kernel (with_terminal t (err ∷ out ∷ fds)) files)
      ≡ ok (kernel (with_terminal t (err ∷ fds)) files)
unfolding close_safe mem erase
close_stdout no_redirect none out err fds files d h = ground arith
close_stdout no_redirect (some t) out err fds files d h = ground arith

close_stderr :
    (no_redirect : Bool) (t : Option ℕ) (out err : ℕ) (fds : List ℕ) (files : List Text)
    → TerminalOk no_redirect t (err ∷ out ∷ fds)
    → close_safe err (kernel (with_terminal t (err ∷ fds)) files)
      ≡ ok (kernel (with_terminal t fds) files)
unfolding close_safe mem erase
close_stderr no_redirect none out err fds files h = ground arith
close_stderr no_redirect (some t) out err fds files h = ground arith

-- Both files are there, and named.
remove_both :
    (fds : List ℕ) (out err : Text) (files : List Text)
    → is_empty out ≡ false
    → is_empty err ≡ false
    → same_bytes out err ≡ false
    → (remove_if_named out (kernel fds (err ∷ out ∷ files)) >>= λ k. remove_if_named err k)
      ≡ ok (kernel fds files)
unfolding remove_if_named file_known file_erase
remove_both fds [] err files o e d = cc
remove_both fds (a ∷ out) [] files o e d = cc
remove_both fds (a ∷ out) (b ∷ err) files o e d =
    rw (d, same_bytes_refl (a ∷ out)) (rw (same_bytes_refl (b ∷ err)) refl)

module _ (opts : LifeOptions) (do_cleanup : Bool) (out err : Made) (fds : List ℕ)
    (files : List Text) (apart : (out.fd == err.fd) ≡ false) (out_named : is_empty out.path ≡ false)
    (err_named : is_empty err.path ≡ false) (two : same_bytes out.path err.path ≡ false) where
  -- The files that are left.
  abbrev pub left_files : List Text
  left_files = if opts.no_cleanup || not do_cleanup then err.path ∷ out.path ∷ files else files

  -- The destructor's last steps, after the descriptors are closed.
  abbrev clean : Text → Text → Kernel → Outcome Kernel
  clean o e k =
      if opts.no_cleanup || not do_cleanup
      then ok k
      else (remove_if_named o k >>= λ k1. remove_if_named e k1)

  clean_lem :
      clean out.path err.path (kernel fds (err.path ∷ out.path ∷ files))
      ≡ ok (kernel fds left_files)
  clean_lem = elim (Bool-cases (opts.no_cleanup || not do_cleanup)) [
    | inl e ↦ rw e refl
    | inr e ↦ rw e (remove_both fds out.path err.path files out_named err_named two)
  ]

  -- The destructor, on the fields that it reads.
  abbrev destroyed : (Option ℕ × Option ℕ) × (Text × Text) → Option ℕ → Kernel → Outcome Kernel
  destroyed ((o, e), (fo, fe)) t k = do
    k ← close_if_open o k
    k ← close_if_open e k
    k ← close_if_open t k
    clean fo fe k

  destroy_lem :
      (r : RunnerBase) (k : Kernel) (start : RunnerBase)
      → own_files start ≡ ((some out.fd, some err.fd), (out.path, err.path))
      → Tidy opts.no_redirect (err.fd ∷ out.fd ∷ fds) (err.path ∷ out.path ∷ files) start r k
      → destroy_runner opts do_cleanup r k ≡ ok (kernel fds left_files)
  unfolding destroy_runner close_open_terminal close_if_open
  destroy_lem r k start own tidy =
      let t = r.child_terminal_fd in
      let both = err.path ∷ out.path ∷ files in
      ap (λ x. destroyed x t k) (tidy.own ∙ own)
      ∙ ap (λ x. destroyed ((some out.fd, some err.fd), (out.path, err.path)) t x) tidy.table
      ∙ ap
          (λ m. m >>= λ k1.
            close_safe err.fd k1 >>= λ k2. close_if_open t k2 >>= clean out.path err.path)
          (close_stdout opts.no_redirect t out.fd err.fd fds both apart tidy.terminal)
      ∙ ap (λ m. m >>= λ k2. close_if_open t k2 >>= clean out.path err.path)
          (close_stderr opts.no_redirect t out.fd err.fd fds both tidy.terminal)
      ∙ ap (λ m. m >>= clean out.path err.path) (close_terminal t fds both)
      ∙ clean_lem

  -- What the constructor makes.
  abbrev first : RunnerBase
  first = record {
    argv = some opts.binary ∷ args_list opts.args;
    child_pid = 0;
    child_threads = [];
    child_terminal_fd = none;
    stdout_fd = some out.fd;
    stderr_fd = some err.fd;
    stdout_file = out.path;
    stderr_file = err.path;
  }

  -- The runner before its destructor.
  pub runner_runs :
      (stat_ok : Text → Bool) (starts : List Started)
      → stat_ok opts.binary ≡ true
      → AllStarted (err.fd ∷ out.fd ∷ fds) starts
      → (r : RunnerBase) × (k : Kernel) × ((do
        (r, k) ← make_runner opts stat_ok (some out) (some err) (kernel fds files)
        run_children opts starts r k)
          ≡ ok (r, k))
        × (destroy_runner opts do_cleanup r k ≡ ok (kernel fds left_files))
        × (k.files ≡ err.path ∷ out.path ∷ files)
  unfolding make_runner
  runner_runs stat_ok starts there all =
      let fds' = err.fd ∷ out.fd ∷ fds in
      let both = err.path ∷ out.path ∷ files in
      let (r', k', ran, tidy) =
        run_children-Tidy opts fds' both starts first first (kernel fds' both) all
          (record { table = refl; terminal = tt; own = refl }) in
      (
        r',
        k',
        rw there ran,
        destroy_lem r' k' first refl tidy,
        ap (λ (k : Kernel). k.files) tidy.table,
      )

  -- Where the binary exists, mkstemp gives two descriptors and two named files, and every call of
  -- run gets its child, with a terminal on a descriptor that is not in use: a runner's life comes to
  -- its end without closing a descriptor that is not open, however often it runs the child; it leaves
  -- the descriptors as it found them, and of its two files either both or, with cleanup on, none.
  pub runner_life_lem :
      (stat_ok : Text → Bool) (starts : List Started)
      → stat_ok opts.binary ≡ true
      → AllStarted (err.fd ∷ out.fd ∷ fds) starts
      → runner_life opts stat_ok do_cleanup (some out) (some err) starts (kernel fds files)
        ≡ ok (kernel fds left_files)
  unfolding runner_life make_runner
  runner_life_lem stat_ok starts there all =
      let fds' = err.fd ∷ out.fd ∷ fds in
      let both = err.path ∷ out.path ∷ files in
      let (r', k', ran, tidy) =
        run_children-Tidy opts fds' both starts first first (kernel fds' both) all
          (record { table = refl; terminal = tt; own = refl }) in
      rw there (
        ap (λ m. m >>= λ x. destroy_runner opts do_cleanup x.0 x.1) ran
        ∙ destroy_lem r' k' first refl tidy)
