-- ===== src/Runner/InjectLaws.antt =====
-- src/runner.cpp: the results of tryInjectFaultAt and doBitFlip.
use zofi.Base.{
  Option-cases, some, ◌&&◌, ◌==◌, >>=-eq-ok, Bool, Outcome, ap, arith, assert, false, if◌then◌else◌,
  inl, inr, not, ok, ok-injective, refl, sym, true, ℕ, ◌∙◌, ◌≡◌, ◌≢◌, ◌⊎◌,
}
use zofi.Runner.Inject.{
  continued, flip_and_continue, is_above_zero, do_bit_flip, Target, single_step,
}
use zofi.Regs.Data.{RegState}
use zofi.Regs.Manip.{try_bit_flip}
use zofi.ExitState.Data.{stopped, ExitState, Sys, exit_type_index, get_wait_pid_exit_state}
use zofi.Regs.Select.{Selected}

if-ok :
    {A : Type 0} (b : Bool) (m n : Outcome A) (a : A)
    → (if b then m else n) ≡ ok a
    → ((b ≡ true) × (m ≡ ok a)) ⊎ ((b ≡ false) × (n ≡ ok a))
if-ok true m n a e = inl (refl, e)
if-ok false m n a e = inr (refl, e)

assert-ok : (b : Bool) → assert b ≡ ok tt → b ≡ true
assert-ok true e = refl
assert-ok false e = absurd (cc)

false-true : false ≢ true
false-true e = cc

not-ok :
    {A : Type 0} (b : Bool) (x y : A)
    → x ≢ y
    → (m : Outcome A) → (if not b then ok x else m) ≡ ok y
    → (b ≡ true) × (m ≡ ok y)
not-ok true x y n m e = (refl, e)
not-ok false x y n m e = absurd (n (ok-injective e))

-- The status that a single step must end with.
abbrev pub IsTrap : Sys → ℕ → Type 0
IsTrap sys status =
    (s : ExitState) × (get_wait_pid_exit_state sys status ≡ ok s)
    × (exit_type_index s.exit_type ≡ 3)
    × (s.val ≡ sys.sigtrap)

module _ {M : Type 0} (sys : Sys) (t : Target M) where
  single_step-ok :
      (m m1 : M)
      → single_step sys t m ≡ ok (true, m1)
      → (status : ℕ) × (t.step m ≡ some (status, m1)) × IsTrap sys status
  unfolding single_step
  single_step-ok m m1 e = elim (Option-cases (t.step m)) [
    | inl failed ↦ cc (rw (failed, single_step) at e)
    | inr ((status, n), went) ↦
        let (s, got, more) =
          >>=-eq-ok (get_wait_pid_exit_state sys status) _ (rw (went, single_step) at e) in
        elim (if-ok (exit_type_index s.exit_type == exit_type_index stopped && s.val == sys.sigalrm)
          _ _ (true, m1) more) [
            | inl (_, alarm) ↦ absurd (false-true (ap (λ (x : Bool × M). x.0) (ok-injective alarm)))
            | inr (_, trapped) ↦
                let (v, asserted, same) =
                  >>=-eq-ok
                    (assert (
                      exit_type_index s.exit_type == exit_type_index stopped
                      && s.val == sys.sigtrap))
                    _ trapped in
                let both =
                  assert-ok
                    (exit_type_index s.exit_type == exit_type_index stopped && s.val == sys.sigtrap)
                    asserted in
                (
                  status,
                  went ∙ ap (λ (x : Bool × M). some (status, x.1)) (ok-injective same),
                  (s, got, ground arith, ground arith),
                )
          ]
  ]

  flip_and_continue-ok :
      (r : Selected) (m m3 : M)
      → flip_and_continue sys t r m ≡ ok (true, m3)
      → (rm' : RegState) × (m2 : M) × (try_bit_flip t.ptrace t.rm r.descr.name r.bit m
          ≡ ok (true, rm', m2))
        × (t.cont m2 ≡ some m3)
  unfolding flip_and_continue continued
  flip_and_continue-ok r m m3 e =
      let ((done, rm', m2), flipped, rest) =
        >>=-eq-ok (try_bit_flip t.ptrace t.rm r.descr.name r.bit m) _ e in
      elim (if-ok (not done) _ _ (true, m3) rest) [
        | inl (_, failed) ↦ absurd (false-true (ap (λ (x : Bool × M). x.0) (ok-injective failed)))
        | inr (worked, goes_on) ↦
            let hit : done ≡ true = ground arith in
            (
              rm',
              m2,
              flipped ∙ ap (λ b. ok (b, rm', m2)) hit,
              elim (Option-cases (t.cont m2)) [
                | inl failed ↦ cc (rw failed at goes_on)
                | inr (n, there) ↦
                    there ∙ ap (λ (x : Bool × M). some x.1) (ok-injective (rw there at goes_on))
              ],
            )
      ]

  -- The process that the fault is injected to: the one that was stopped, where the instruction does
  -- not write the register, and else the one after a single step that ended in SIGTRAP.
  abbrev pub IsAt : Selected → M → M → Type 0
  IsAt r m m1 =
      ((r.descr.written ≡ false) × (m1 ≡ m))
      ⊎ ((r.descr.written ≡ true)
          × ((status : ℕ) × (t.step m ≡ some (status, m1)) × IsTrap sys status))

  reached :
      (r : Selected) (m m1 : M)
      → (if r.descr.written then single_step sys t m else ok (true, m)) ≡ ok (true, m1)
      → IsAt r m m1
  reached r m m1 e =
      elim (if-ok r.descr.written (single_step sys t m) (ok (true, m)) (true, m1) e) [
        | inl (writes, ran) ↦ inr (writes, single_step-ok m m1 ran)
        | inr (reads, same) ↦ inl (reads, ap (λ (x : Bool × M). x.1) (sym (ok-injective same)))
      ]

  outside_library :
      (libs : Bool) (m : M)
      → (if libs then t.in_library m else ok false) ≡ ok false
      → (libs ≡ false) ⊎ (t.in_library m ≡ ok false)
  outside_library true m e = inr e
  outside_library false m e = inl refl

  -- Where doBitFlip injects a fault, the register and the bit were chosen with success in the process
  -- m that was stopped, outside the libraries if these are excluded; the process then came, by a
  -- single step that ended in SIGTRAP if the instruction writes the register and by no step if it
  -- does not, to m1; tryBitFlip of that register and bit succeeded on m1 and left m2; and PTRACE_CONT
  -- of m2 left the process that doBitFlip leaves.
  pub do_bit_flip-ok :
      (dont_inject_to_libs : Bool) (m m3 : M)
      → do_bit_flip sys dont_inject_to_libs t m ≡ ok (true, m3)
      → (r : Selected) × (m1 : M) × (rm' : RegState) × (m2 : M) × (t.selected m ≡ ok r)
        × (r.success ≡ true)
        × ((dont_inject_to_libs ≡ false) ⊎ (t.in_library m ≡ ok false))
        × IsAt r m m1
        × (try_bit_flip t.ptrace t.rm r.descr.name r.bit m1 ≡ ok (true, rm', m2))
        × (t.cont m2 ≡ some m3)
  unfolding do_bit_flip
  do_bit_flip-ok libs m m3 e =
      let (u, _, e1) = >>=-eq-ok (assert (is_above_zero t.pid)) _ e in
      let (skip, looked, e2) = >>=-eq-ok (if libs then t.in_library m else ok false) _ e1 in
      elim (if-ok skip _ _ (true, m3) e2) [
        | inl (_, no_flip) ↦ absurd (false-true (ap (λ (x : Bool × M). x.0) (ok-injective no_flip)))
        | inr (outside, e3) ↦
            let (r, chosen, e4) = >>=-eq-ok (t.selected m) _ e3 in
            elim (if-ok (not r.success) _ _ (true, m3) e4) [
              | inl (_, failed) ↦
                  absurd (false-true (ap (λ (x : Bool × M). x.0) (ok-injective failed)))
              | inr (good, e5) ↦
                  let ((b, m1), stepped, e6) =
                    >>=-eq-ok (if r.descr.written then single_step sys t m else ok (true, m)) _
                      e5 in
                  elim (if-ok (not b) _ _ (true, m3) e6) [
                    | inl (_, alarm) ↦
                        absurd (false-true (ap (λ (x : Bool × M). x.0) (ok-injective alarm)))
                    | inr (went, e7) ↦
                        let hit : b ≡ true = ground arith in
                        let (rm', m2, flipped, goes_on) = flip_and_continue-ok r m1 m3 e7 in
                        (
                          r,
                          m1,
                          rm',
                          m2,
                          chosen,
                          ground arith,
                          outside_library libs m (looked ∙ ap ok outside),
                          reached r m m1 (stepped ∙ ap (λ x. ok (x, m1)) hit),
                          flipped,
                          goes_on,
                        )
                  ]
            ]
      ]
