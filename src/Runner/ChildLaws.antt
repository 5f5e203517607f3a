-- ===== src/Runner/ChildLaws.antt =====
-- src/runner.cpp: what the program of a child finds, and its timer.
use zofi.Base.{
  arith, ltb, suc, sym, zero, ◌*◌, ◌↔◌, ◌≤◌, ◌⊎◌, Option, ap, die, none, Bool, Bool-cases, false,
  inl, inr, ok, refl, some, true, ℕ, ◌∙◌, ◌≡◌,
}
use zofi.Runner.Child.{
  ChildOptions, Floats, Unix, alarm_safe, child_side, executed, inf_exec_timeout, redirect,
  save_output, set_timeout, start_program,
}
use zofi.Runner.ChildView.{IsProcess, View}

start_program-ok :
    {D P W : Type 0} (floats : Floats D) (unix : Unix P W) (o : ChildOptions D) (x : Bool × P)
    (c : P) (w : W)
    → x.0 ≡ true
    → unix.execve o.binary o.argv o.argp x.1 ≡ some c
    → start_program floats unix o x w ≡ ok (c, w)
unfolding start_program executed
start_program-ok floats unix o (false, p) c w traced started = cc
start_program-ok floats unix o (true, p) c w traced started = rw started refl

module _ {D P W : Type 0} (floats : Floats D) (unix : Unix P W) (v : View P W)
    (proc : IsProcess v unix) where
  pub alarm_safe-fd :
      (secs : D) (fd : ℕ) (p : P)
      → v.description fd (alarm_safe floats unix secs p) ≡ v.description fd p
  unfolding alarm_safe
  alarm_safe-fd secs fd p = elim (Bool-cases (floats.le_one secs)) [
    | inl short ↦ rw short (proc.ualarm-fd (floats.micros secs) fd p)
    | inr far ↦ rw far (proc.alarm-fd (floats.ceil secs) fd p)
  ]

  -- A timeout for which alarmSafe sets no timer.
  abbrev pub IsUnset : D → Type 0
  IsUnset secs =
      ((floats.le_one secs ≡ true) × ((floats.micros secs ≡ 0) ⊎ (1000000 ≤ floats.micros secs)))
      ⊎ ((floats.le_one secs ≡ false) × (floats.ceil secs ≡ 0))

  absurd-some {ℓ} : {A : Type ℓ} (n : ℕ) → some n ≡ none → A
  absurd-some n e = cc

  ualarm-none_iff :
      (n : ℕ) (p : P)
      → v.timer p ≡ none
      → v.timer (unix.ualarm n p) ≡ none ↔ (n ≡ 0) ⊎ (1000000 ≤ n)
  ualarm-none_iff zero p idle = ((λ e. inl refl), (λ u. proc.ualarm-off p))
  ualarm-none_iff (suc n) p idle = elim (Bool-cases (ltb n 999999)) [
    | inl small ↦ (
      (λ e. absurd-some (suc n) (sym (proc.ualarm-on (suc n) p (ground arith) (ground arith)) ∙ e)),
      (λ u. absurd (ground arith)),
    )
    | inr large ↦
        ((λ e. inr (ground arith)), (λ u. proc.ualarm-refused (suc n) p (ground arith) ∙ idle))
  ]

  alarm-none_iff : (n : ℕ) (p : P) → v.timer (unix.alarm n p) ≡ none ↔ n ≡ 0
  alarm-none_iff zero p = ((λ e. refl), (λ z. proc.alarm-off p))
  alarm-none_iff (suc n) p = (
    (λ e. absurd-some (1000000 * suc n) (sym (proc.alarm-on (suc n) p (omega arith)) ∙ e)),
    (λ z. absurd (omega arith)),
  )

  alarm_safe-none_iff :
      (secs : D) (p : P)
      → v.timer p ≡ none
      → v.timer (alarm_safe floats unix secs p) ≡ none ↔ IsUnset secs
  unfolding alarm_safe
  alarm_safe-none_iff secs p idle = elim (Bool-cases (floats.le_one secs)) [
    | inl short ↦
        let i = ualarm-none_iff (floats.micros secs) p idle in
        rw short ((λ e. inl (refl, i.0 e)), (λ u. elim u [ inl (s, m) ↦ i.1 m | inr (s, m) ↦ cc ]))
    | inr far ↦
        let i = alarm-none_iff (floats.ceil secs) p in
        rw far ((λ e. inr (refl, i.0 e)), (λ u. elim u [ inl (s, m) ↦ cc | inr (s, m) ↦ i.1 m ]))
  ]

  pub save_output-fd :
      (b : Bool) (fd f : ℕ) (p : P)
      → v.description fd p ≡ some f
      → v.description fd (save_output floats unix b p) ≡ some f
  unfolding save_output
  save_output-fd true fd f p e = e
  save_output-fd false fd f p e = proc.dup-fd 2 fd f (unix.dup 1 p).1 (proc.dup-fd 1 fd f p e)

  save_output-timer : (b : Bool) (p : P) → v.timer (save_output floats unix b p) ≡ v.timer p
  unfolding save_output
  save_output-timer true p = refl
  save_output-timer false p = proc.dup-timer 2 (unix.dup 1 p).1 ∙ proc.dup-timer 1 p

  redirect-timer :
      (b : Bool) (out err : ℕ) (p : P) (w : W)
      → v.timer (redirect floats unix b out err p w).0 ≡ v.timer p
  unfolding redirect
  redirect-timer true out err p w = refl
  redirect-timer false out err p w =
      proc.dup2-timer err 2 (unix.dup2 out 1 p) ∙ proc.dup2-timer out 1 p

  module _ (o : ChildOptions D) (t : D) (timed : o.bin_exec_time ≡ some t)
      (traces : (p : P) → (unix.traceme p).0 ≡ true)
      (starts : (p : P) → (c : P) × (unix.execve o.binary o.argv o.argp p ≡ some c))
      (out err : ℕ) where
    -- The process before PTRACE_TRACEME, and the files.
    abbrev pub prepared : P → W → P × W
    prepared p w =
        redirect floats unix o.no_redirect out err
          (alarm_safe floats unix (inf_exec_timeout floats unix o t)
            (save_output floats unix o.no_redirect p))
          w

    set_timeout-ok :
        (p : P)
        → set_timeout floats unix true o p
          ≡ ok (alarm_safe floats unix (inf_exec_timeout floats unix o t) p)
    unfolding set_timeout
    set_timeout-ok p =
        ap
          (λ (m : Option D). elim m [
            | none ↦ die
            | some s ↦ ok (alarm_safe floats unix (inf_exec_timeout floats unix o s) p)
          ])
          timed

    pub child_side-prepared :
        (p : P) (w : W)
        → (c : P) × (child_side floats unix true o out err p w ≡ ok (c, (prepared p w).1))
          × ((fd : ℕ) → v.description fd c ≡ v.description fd (prepared p w).0)
          × (v.timer c ≡ v.timer (prepared p w).0)
    unfolding child_side
    child_side-prepared p w =
        let q = (prepared p w).0 in
        let (c, started) = starts (unix.traceme q).1 in
        (
          c,
          rw (set_timeout-ok (save_output floats unix o.no_redirect p)) (
              start_program-ok floats unix o (unix.traceme q) c (prepared p w).1 (traces q)
                started),
          λ fd.
              proc.execve-fd o.binary o.argv o.argp fd (unix.traceme q).1 c started
              ∙ proc.traceme-fd fd q,
          proc.execve-timer o.binary o.argv o.argp (unix.traceme q).1 c started
              ∙ proc.traceme-timer q,
        )

    -- With a known execution time, the child of a test run comes to its program. It has no timer
    -- exactly if the timeout is at most a second and either under a microsecond or, as ualarm
    -- refuses a million, the whole second, or if it is rounded up to 0 seconds.
    pub child_side-no_timer_iff :
        (p : P) (w : W)
        → v.timer p ≡ none
        → (c : P) × (w' : W) × (child_side floats unix true o out err p w ≡ ok (c, w'))
          × (v.timer c ≡ none ↔ IsUnset (inf_exec_timeout floats unix o t))
    child_side-no_timer_iff p w idle =
        let q = save_output floats unix o.no_redirect p in
        let secs = inf_exec_timeout floats unix o t in
        let a = alarm_safe floats unix secs q in
        let (c, e, fds, timer) = child_side-prepared p w in
        let same = timer ∙ redirect-timer o.no_redirect out err a w in
        let known = alarm_safe-none_iff secs q (save_output-timer o.no_redirect p ∙ idle) in
        (c, (prepared p w).1, e, ((λ n. known.0 (sym same ∙ n)), (λ u. same ∙ known.1 u)))
