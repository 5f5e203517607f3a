-- ===== src/Main/ProgramLaws.antt =====
-- src/zofi.cpp: the state and the execution time that the test runs work with.
use zofi.Base.{
  is_some, not, ◌&&◌, ◌==◌, Bool-cases, Option, arith, if◌then◌else◌, some_inj, true, user_die,
  Option-cases, false, inl, inr, none, set, ◌⊎◌, List, [], ap, assert, ok-injective, sym, ◌∙◌, ◌∷◌,
  >>=-eq-ok, Bool, Outcome, ok, some, ℕ, ◌≡◌,
}
use zofi.Main.Program.{
  imported_state, set_or_die, needs_timing_run, timing_run, at_least_one, only_if, MainOptions,
  Report, before_tests, main_run, remove_safe, removed_files,
}
use Prim.Native.Nat.{min}
use zofi.ExitState.Data.{unset}
use zofi.Statistics.Store.{
  dump, dump_to_csv, dump_to_moufoplot, make, Statistics, num_tests, orig_exec_time, set_double,
  set_ulong, tests_exec_time,
}
use mathlib.Core.Path.{subst}
use zofi.ExitState.Compare.{ExecutionExitState}
use zofi.Utils.Text.{Text}

remove_safe-eq :
    (removes : Text → Bool) (l : List Text) {l' : List Text}
    → remove_safe removes l ≡ ok l'
    → l' ≡ l
unfolding remove_safe
remove_safe-eq removes [] h = sym (ok-injective h)
remove_safe-eq removes (f ∷ l) h =
    let (t, tested, h1) = >>=-eq-ok (assert (removes f)) _ h in
    let (rest, gone, h2) = >>=-eq-ok (remove_safe removes l) _ h1 in
    sym (ok-injective h2) ∙ ap (λ k. f ∷ k) (remove_safe-eq removes l gone)

set_ulong-num_tests :
    {D : Type 0} (n : ℕ) (st : Statistics D) {st' : Statistics D}
    → set_ulong num_tests n st ≡ ok st'
    → st'.ulong_map num_tests ≡ some n
unfolding set_ulong
set_ulong-num_tests n st h = ap (λ x. x.ulong_map num_tests) (sym (ok-injective h))

set_or_die-eq {ℓ} : {A : Type ℓ} (o : Option A) {a : A} → set_or_die o ≡ ok a → o ≡ some a
set_or_die-eq none h = cc
set_or_die-eq (some x) h = ap some (ok-injective h)

passed :
    {A : Type 0} (stop : Bool) (m : Outcome A) {a : A}
    → (if stop then user_die else m) ≡ ok a
    → m ≡ ok a
passed true m h = cc
passed false m h = h

module _ {D : Type 0} (timing : ℕ → Outcome (D × ExecutionExitState))
    (import_state : Text → ExecutionExitState → Outcome ExecutionExitState)
    (tests : ℕ → D → ExecutionExitState → Statistics D → Outcome (D × Statistics D))
    (removes : Text → Bool) (opts : MainOptions D) where
  abbrev pub Ran : Report D → Type 0
  Ran r =
      (before_tests timing import_state tests removes opts ≡ ok (r.exec_time, r.orig_state))
      × (r.removed ≡ removed_files timing import_state tests removes opts r.orig_state)
      × (r.stats.ulong_map num_tests ≡ some opts.test_runs)

  -- What the test runs had, and what became of their statistics.
  pub main_run-Ran : (r : Report D) → main_run timing import_state tests removes opts ≡ ok r → Ran r
  unfolding main_run
  main_run-Ran r h =
      let (b, before, h1) = >>=-eq-ok (before_tests timing import_state tests removes opts) _ h in
      let (s1, set1, h2) =
        >>=-eq-ok (set_double orig_exec_time b.0 (make opts.bin opts.inject_to opts.test_runs)) _
          h1 in
      let (t, tested, h3) = >>=-eq-ok (tests opts.test_runs b.0 b.1 s1) _ h2 in
      let (files, gone, h4) =
        >>=-eq-ok (remove_safe removes (removed_files timing import_state tests removes opts b.1)) _
          h3 in
      let (s2, set2, h5) = >>=-eq-ok (set_double tests_exec_time t.0 t.1) _ h4 in
      let (s3, set3, h6) = >>=-eq-ok (set_ulong num_tests opts.test_runs s2) _ h5 in
      let (shown, e7, h7) =
        >>=-eq-ok (only_if (at_least_one opts.verbose_level) (dump opts.detection_exit_code s3)) _
          h6 in
      let (csv, e8, h8) = >>=-eq-ok (only_if opts.out_csv_file (dump_to_csv s3)) _ h7 in
      let (mouf, e9, h9) = >>=-eq-ok (only_if opts.out_moufoplot_dir (dump_to_moufoplot s3)) _ h8 in
      subst Ran (ok-injective h9)
        (before, remove_safe-eq removes _ gone, set_ulong-num_tests opts.test_runs s2 set3)

  -- Where the execution time comes from.
  abbrev pub TimeFrom : D → Type 0
  TimeFrom t =
      (opts.bin_exec_time ≡ some t)
      ⊎ ((opts.bin_exec_time ≡ none)
          × (opts.disable_timing_run ≡ false)
          × (st : ExecutionExitState) × (timing (min opts.jobs opts.test_runs) ≡ ok (t, st)))

  enabled : needs_timing_run opts ≡ true → opts.disable_timing_run ≡ false
  unfolding needs_timing_run
  enabled h = ground arith

  timing_run-TimeFrom :
      (t : D) (st : ExecutionExitState) → timing_run timing opts ≡ ok (some t, st) → TimeFrom t
  unfolding timing_run
  timing_run-TimeFrom t st h = elim (Option-cases opts.bin_exec_time) [
    | inr (u, set) ↦ elim (Bool-cases (needs_timing_run opts)) [
      | inl run ↦
          let (m, ran, e) =
            >>=-eq-ok (timing (min opts.jobs opts.test_runs)) _ (rw (run, timing_run) at h) in
          inl (set ∙ ap (λ x. x.0) (ok-injective (rw set at e)))
      | inr skip ↦ inl (ap (λ x. x.0) (ok-injective (rw (skip, timing_run) at h)))
    ]
    | inl unset ↦ elim (Bool-cases (needs_timing_run opts)) [
      | inl run ↦
          let (m, ran, e) =
            >>=-eq-ok (timing (min opts.jobs opts.test_runs)) _ (rw (run, timing_run) at h) in
          inr (
            unset,
            enabled run,
            m.1,
            ran ∙ ap (λ x. ok (x, m.1)) (some_inj (ap (λ x. x.0) (ok-injective (rw unset at e)))),
          )
      | inr skip ↦ inl (ap (λ x. x.0) (ok-injective (rw (skip, timing_run) at h)))
    ]
  ]

  -- If main comes to its end, the test runs had the execution time of -bin-exec-time, or where that
  -- is not set the one that the timing run measured with as many jobs as -j and -test-runs both
  -- allow, which then was not disabled; and the statistics hold the number of test runs.
  pub main_run-time :
      (r : Report D)
      → main_run timing import_state tests removes opts ≡ ok r
      → TimeFrom r.exec_time × (r.stats.ulong_map num_tests ≡ some opts.test_runs)
  unfolding before_tests
  main_run-time r h =
      let ran = main_run-Ran r h in
      let (b, timed, h1) = >>=-eq-ok (timing_run timing opts) _ ran.0 in
      let (orig, state, h2) =
        >>=-eq-ok (imported_state timing import_state tests removes opts.set_orig_exit_state b.1) _
          (passed (not (is_some b.0) && not (opts.test_runs == 0)) _ h1) in
      let (t, set, h3) = >>=-eq-ok (set_or_die b.0) _ h2 in
      let same = set_or_die-eq b.0 set ∙ ap (λ x. some x.0) (ok-injective h3) in
      (timing_run-TimeFrom r.exec_time b.1 (timed ∙ ap (λ o. ok (o, b.1)) same), ran.2)
