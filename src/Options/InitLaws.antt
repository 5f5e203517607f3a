-- ===== src/Options/InitLaws.antt =====
-- src/options.cpp: what init leaves in the options when the program goes on.
use zofi.Options.JobsOption.{
  chars_at-set_jobs, help_messages-set_jobs, injections-set_jobs, set_jobs-natural_at,
  values_of-set_jobs,
}
use zofi.Base.{
  List, if◌then◌else◌, Bool, ltb, true, ◌<◌, ◌==◌, ◌||◌, ◌∙◌, ◌≤◌, Option, none, ok-injective,
  >>=-eq-ok, ok, Bool-cases, arith, false, inl, inr, some, some_inj, ℕ, ◌≡◌,
}
use zofi.Options.Registry.{parse_options, OptionsMap}
use zofi.Options.Init.{
  init, unless_exit, init_parsed, truth_at, init_values, integer_at, chars_at, help_messages,
  natural_at, option_at, values_of, set_jobs,
}
use zofi.Options.ChecksLaws.{init_checks-jobs}
use mathlib.Core.Path.{subst}
use Prim.Native.Char.{code}
use zofi.Options.Checks.{InitValues, Values, init_checks, sanity_checks}
use zofi.Utils.Text.{Text, codes}

init_checks-path :
    (hw_threads : ℕ) (o : InitValues) {jobs : ℕ}
    → init_checks hw_threads o ≡ ok jobs
    → o.binary_exists ≡ true
unfolding init_checks
init_checks-path hw_threads o e = ground arith

init_checks-enough :
    (hw_threads : ℕ) (o : InitValues) {jobs : ℕ}
    → 0 < hw_threads
    → init_checks hw_threads o ≡ ok jobs
    → (0 < jobs) × (jobs ≤ hw_threads) × (o.injections_per_run ≤ 1)
init_checks-enough hw_threads o {jobs} h e = init_checks-jobs hw_threads o jobs h e

-- The options allow a run.
pub IsReady : {D : Type 0} → (Text → Bool) → ℕ → OptionsMap D → Type 0
IsReady file_exists hw_threads m =
    ((file : Text) × (chars_at m (codes "-bin") ≡ ok (some file)) × (file_exists file ≡ true))
    × ((jobs : ℕ) × (natural_at m (codes "-j") ≡ ok jobs) × (0 < jobs) × (jobs ≤ hw_threads))
    × ((n : ℕ) × (natural_at m (codes "-injections-per-run") ≡ ok n) × (n ≤ 1))
    × ((v : Values) × (values_of m ≡ ok v) × (sanity_checks v ≡ ok tt))
    × (help_messages m ≡ ok tt)

module _ {D : Type 0} (file_exists : Text → Bool) (hw_threads : ℕ) where
  module _ (m : OptionsMap D) (file : Text) (v : Values)
      (bin : chars_at m (codes "-bin") ≡ ok (some file)) (values : values_of m ≡ ok v)
      (sane : sanity_checks v ≡ ok tt) (no_help : help_messages m ≡ ok tt) where
    limited-IsReady :
        (jobs old n : ℕ) {m' : OptionsMap D}
        → natural_at m (codes "-j") ≡ ok old
        → file_exists file ≡ true
        → (0 < jobs) × (jobs ≤ hw_threads) × (n ≤ 1)
        → natural_at m (codes "-injections-per-run") ≡ ok n
        → (if old == 0 || ltb hw_threads old then set_jobs jobs m else m) ≡ m'
        → IsReady file_exists hw_threads m'
    unfolding IsReady
    limited-IsReady jobs old n at_j there (some_jobs, enough, one) inj e =
        elim (Bool-cases (old == 0 || ltb hw_threads old)) [
          | inl changed ↦ subst (IsReady file_exists hw_threads) (rw changed at e) (
            (file, chars_at-set_jobs jobs m ∙ bin, there),
            (jobs, set_jobs-natural_at jobs m at_j, some_jobs, enough),
            (n, injections-set_jobs jobs m ∙ inj, one),
            (v, values_of-set_jobs jobs m ∙ values, sane),
            help_messages-set_jobs jobs m ∙ no_help,
          )
          | inr kept ↦ subst (IsReady file_exists hw_threads) (rw kept at e) (
            (file, bin, there),
            (old, at_j, ground arith, ground arith),
            (n, inj, one),
            (v, values, sane),
            no_help,
          )
        ]

    init_values-IsReady :
        {m' : OptionsMap D}
        → 0 < hw_threads
        → init_values file_exists hw_threads m file ≡ ok m'
        → IsReady file_exists hw_threads m'
    unfolding init_values
    init_values-IsReady h e =
        let (code, at_code, e1) = >>=-eq-ok (integer_at m (codes "-detection-exit-code")) _ e in
        let (old, at_j, e2) = >>=-eq-ok (natural_at m (codes "-j")) _ e1 in
        let (mo, at_mo, e3) = >>=-eq-ok (option_at m (codes "-out-moufoplot")) _ e2 in
        let (dir, at_dir, e4) = >>=-eq-ok (chars_at m (codes "-out-moufoplot")) _ e3 in
        let (n, inj, e5) = >>=-eq-ok (natural_at m (codes "-injections-per-run")) _ e4 in
        let (limited, checked, e6) = >>=-eq-ok (init_checks hw_threads _) _ e5 in
        limited-IsReady limited old n at_j (init_checks-path hw_threads _ checked)
          (init_checks-enough hw_threads _ h checked) inj (ok-injective e6)

  unless_exit-IsReady :
      (m : OptionsMap D) (v : Values)
      → values_of m ≡ ok v
      → sanity_checks v ≡ ok tt
      → help_messages m ≡ ok tt
      → (quits : Bool) (path : Option Text) {m' : OptionsMap D} → 0 < hw_threads
      → chars_at m (codes "-bin") ≡ ok path
      → unless_exit file_exists hw_threads quits m path ≡ ok (some m')
      → IsReady file_exists hw_threads m'
  unfolding unless_exit
  unless_exit-IsReady m v values sane no_help true path h bin e = cc
  unless_exit-IsReady m v values sane no_help false none h bin e = cc
  unless_exit-IsReady m v values sane no_help false (some file) h bin e =
      let (m1, checked, e1) = >>=-eq-ok (init_values file_exists hw_threads m file) _ e in
      subst (IsReady file_exists hw_threads) (some_inj (ok-injective e1))
        (init_values-IsReady m file v bin values sane no_help h checked)

  init_parsed-IsReady :
      (m : OptionsMap D) {m' : OptionsMap D}
      → 0 < hw_threads
      → init_parsed file_exists hw_threads m ≡ ok (some m')
      → IsReady file_exists hw_threads m'
  unfolding init_parsed
  init_parsed-IsReady m h e =
      let (v, values, e1) = >>=-eq-ok (values_of m) _ e in
      let (u, sane, e2) = >>=-eq-ok (sanity_checks v) _ e1 in
      let (w, no_help, e3) = >>=-eq-ok (help_messages m) _ e2 in
      let (ver, at_ver, e4) = >>=-eq-ok (option_at m (codes "-version")) _ e3 in
      let (help, at_help, e5) = >>=-eq-ok (truth_at m (codes "-help")) _ e4 in
      let (path, at_bin, e6) = >>=-eq-ok (chars_at m (codes "-bin")) _ e5 in
      unless_exit-IsReady m v values sane no_help (ver.is_set || help) path h at_bin e6

  -- When the number of hardware threads is known, that is not zero, and init comes back, it leaves
  -- options that allow a run: -bin names a file that exists, the number of jobs is between one and
  -- that of the hardware threads, there is at most one injection per run, and the options pass
  -- sanityChecks and helpMessages.
  pub init-IsReady :
      (strtod : Text → D × Text) (rounded : D → D) (options : OptionsMap D) (argv : List Text)
      {m' : OptionsMap D}
      → 0 < hw_threads
      → init file_exists hw_threads strtod rounded options argv ≡ ok (some m')
      → IsReady file_exists hw_threads m'
  unfolding init
  init-IsReady strtod rounded options argv h e =
      let (m, parsed, e1) = >>=-eq-ok (parse_options strtod rounded argv options) _ e in
      init_parsed-IsReady m h e1
