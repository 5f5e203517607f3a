-- ===== src/Runner/LifecycleLaws.antt =====
-- src/runner.cpp: the descriptors and the files over a runner's life.
use zofi.Base.{
  ap, ◌>>=◌, ◌∙◌, Bool, Bool-cases, List, Option, [], arith, false, inl, inr, none, ok, refl, some,
  true, ℕ, ◌∷◌, ◌≡◌,
}
use zofi.Runner.Lifecycle.{
  from_fork, run_children, Kernel, LifeOptions, RunnerBase, Started, after_fork, close_if_open,
  close_open_terminal, close_safe, run_child,
}
use zofi.Runner.Wait.{erase, mem}
use zofi.Utils.Text.{Text}

-- forkpty works and gives a descriptor outside of the list, and so do waitpid and ptrace.
abbrev pub AllStarted : List ℕ → List Started → Type 0
AllStarted fds [] = Unit {0}
AllStarted fds (st ∷ l) =
    ((p : ℕ × ℕ) × (st.forked ≡ some p) × (mem p.1 fds ≡ false))
    × (st.wait_ok ≡ true)
    × (st.cont_ok ≡ true)
    × AllStarted fds l

-- The descriptors that are open, a terminal's among them if there is one.
abbrev pub with_terminal : Option ℕ → List ℕ → List ℕ
with_terminal none fds = fds
with_terminal (some t) fds = t ∷ fds

-- There is a terminal only with redirection, and its descriptor is not in the list.
abbrev pub TerminalOk : Bool → Option ℕ → List ℕ → Type 0
TerminalOk no_redirect none fds = Unit {0}
TerminalOk no_redirect (some t) fds = (no_redirect ≡ false) × (mem t fds ≡ false)

abbrev pub kernel : List ℕ → List Text → Kernel
kernel fds files = record { open_fds = fds; files = files }

-- The files of a runner.
abbrev pub own_files : RunnerBase → (Option ℕ × Option ℕ) × (Text × Text)
own_files r = ((r.stdout_fd, r.stderr_fd), (r.stdout_file, r.stderr_file))

pub close_terminal :
    (t : Option ℕ) (fds : List ℕ) (files : List Text)
    → close_if_open t (kernel (with_terminal t fds) files) ≡ ok (kernel fds files)
unfolding close_if_open close_safe mem erase
close_terminal none fds files = refl
close_terminal (some t) fds files = ground arith

after_fork-run :
    (st : Started) (r : RunnerBase) (k : Kernel)
    → st.wait_ok ≡ true
    → st.cont_ok ≡ true
    → (b : Bool) × (after_fork st r k ≡ ok (b, r, k))
unfolding after_fork
after_fork-run st r k w c = elim (Bool-cases st.set_options_ok) [
  | inl e ↦ (true, rw (w, e, c) refl)
  | inr e ↦ (false, rw (w, e) refl)
]

-- A runner whose terminal is its only descriptor beyond the list.
pub record Tidy (no_redirect : Bool) (fds : List ℕ) (files : List Text) (start r : RunnerBase)
    (k : Kernel) : Type 0 where
  pub table : k ≡ kernel (with_terminal r.child_terminal_fd fds) files
  pub terminal : TerminalOk no_redirect r.child_terminal_fd fds
  pub own : own_files r ≡ own_files start

module _ (fds : List ℕ) (files : List Text) (st : Started) (p : ℕ × ℕ) (start r : RunnerBase)
    (new : mem p.1 fds ≡ false) (w : st.wait_ok ≡ true) (c : st.cont_ok ≡ true)
    (own : own_files r ≡ own_files start) where
  from_fork-Tidy :
      (no_redirect : Bool)
      → TerminalOk no_redirect r.child_terminal_fd fds
      → (b : Bool) × (r' : RunnerBase) × (k' : Kernel) × (from_fork no_redirect st
            (some p)
            r
            (kernel fds files)
          ≡ ok (b, r', k'))
        × Tidy no_redirect fds files start r' k'
  unfolding from_fork
  from_fork-Tidy false t =
      let r' = record r { child_threads = []; child_pid = p.0; child_terminal_fd = some p.1 } in
      let (b, ran) = after_fork-run st r' (kernel (p.1 ∷ fds) files) w c in
      (
        b,
        r',
        kernel (p.1 ∷ fds) files,
        ran,
        record { table = refl; terminal = (refl, new); own = own },
      )
  from_fork-Tidy true t =
      let r' = record r { child_threads = []; child_pid = p.0 } in
      let (b, ran) = after_fork-run st r' (kernel fds files) w c in
      (
        b,
        r',
        kernel fds files,
        ran,
        record { table = no_terminal r.child_terminal_fd t; terminal = t; own = own },
      )
    where
      no_terminal :
          (o : Option ℕ)
          → TerminalOk true o fds
          → kernel fds files ≡ kernel (with_terminal o fds) files
      no_terminal none h = refl
      no_terminal (some x) h = cc

run_child-Tidy :
    (opts : LifeOptions) (fds : List ℕ) (files : List Text) (st : Started) (p : ℕ × ℕ)
    (start r : RunnerBase) (k : Kernel)
    → st.forked ≡ some p
    → mem p.1 fds ≡ false
    → st.wait_ok ≡ true
    → st.cont_ok ≡ true
    → Tidy opts.no_redirect fds files start r k
    → (b : Bool) × (r' : RunnerBase) × (k' : Kernel) × (run_child opts st r k ≡ ok (b, r', k'))
      × Tidy opts.no_redirect fds files start r' k'
unfolding run_child close_open_terminal
run_child-Tidy opts fds files st p start r k f new w c tidy =
    let (b, r', k', ran, next) =
      from_fork-Tidy fds files st p start r new w c tidy.own opts.no_redirect tidy.terminal in
    (
      b,
      r',
      k',
      ap (λ x. run_child opts st r x) tidy.table
          ∙ ap (λ m. m >>= λ k1. from_fork opts.no_redirect st st.forked r k1)
              (close_terminal r.child_terminal_fd fds files)
          ∙ ap (λ o. from_fork opts.no_redirect st o r (kernel fds files)) f
          ∙ ran,
      next,
    )

-- Each run closes the terminal of the one before.
pub run_children-Tidy :
    (opts : LifeOptions) (fds : List ℕ) (files : List Text) (starts : List Started)
    (start r : RunnerBase) (k : Kernel)
    → AllStarted fds starts
    → Tidy opts.no_redirect fds files start r k
    → (r' : RunnerBase) × (k' : Kernel) × (run_children opts starts r k ≡ ok (r', k'))
      × Tidy opts.no_redirect fds files start r' k'
unfolding run_children
run_children-Tidy opts fds files [] start r k all tidy = (r, k, refl, tidy)
run_children-Tidy opts fds files (st ∷ l) start r k ((p, f, new), w, c, all) tidy =
    let (b, r1, k1, ran, tidy1) = run_child-Tidy opts fds files st p start r k f new w c tidy in
    let (r2, k2, ran2, tidy2) = run_children-Tidy opts fds files l start r1 k1 all tidy1 in
    (r2, k2, ap (λ m. m >>= λ t. run_children opts l t.1 t.2) ran ∙ ran2, tidy2)
