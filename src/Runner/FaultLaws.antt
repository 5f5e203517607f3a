-- ===== src/Runner/FaultLaws.antt =====
-- src/runner.cpp: what doBitFlip leaves in the process that it goes on with.
use zofi.Base.{Bool, ap, inl, inr, ok, ok-injective, some, some_inj, sym, true, ℕ, ◌<◌, ◌∙◌, ◌≡◌}
use mathlib.Core.Path.{subst}
use zofi.Runner.Inject.{Target, do_bit_flip}
use zofi.Runner.InjectLaws.{IsAt, do_bit_flip-ok}
use zofi.Regs.Data.{GpField, GpRegs, RegData, in_gp}
use zofi.Regs.Manip.{IsPtrace, find, str_to_reg_map, try_bit_flip}
use zofi.Regs.Flip.{try_bit_flip-gp}
use zofi.Regs.Select.{Selected}
use zofi.Regs.Toggle.{FlipsGp}
use zofi.Regs.XSave.{Bytes}
use zofi.ExitState.Data.{Sys}

module _ {M : Type 0} (sys : Sys) (t : Target M) where
  -- There is at most one process that the fault can be injected to.
  IsAt-unique : (r : Selected) (m a b : M) → IsAt sys t r m a → IsAt sys t r m b → a ≡ b
  IsAt-unique r m a b (inl (reads, same)) (inl (reads', same')) = same ∙ sym same'
  IsAt-unique r m a b (inl (reads, same)) (inr (writes, rest)) = absurd (cc)
  IsAt-unique r m a b (inr (writes, rest)) (inl (reads, same)) = absurd (cc)
  IsAt-unique r m a b (inr (writes, (status, ran, trap))) (inr (writes', (status', ran', trap'))) =
      ap (λ (x : ℕ × M). x.1) (some_inj (sym ran ∙ ran'))

  -- Where doBitFlip injects a fault to a general purpose register, with m1 the process after the
  -- single step over an instruction that writes the register, and the stopped process for one that
  -- does not: the process that PTRACE_CONT gets has the registers of m1 with just the selected bit
  -- inverted, and the other register set of m1.
  pub do_bit_flip-gp :
      IsPtrace t.ptrace
      → (libs : Bool) (m m1 m3 : M) (r : Selected) (g : GpRegs) (x : Bytes) (d : RegData)
        (f : GpField)
      → t.selected m ≡ ok r
      → IsAt sys t r m m1
      → t.ptrace.get_regs m1 ≡ some g
      → t.ptrace.get_regset m1 ≡ some x
      → ((h : GpField) (i : ℕ) → g h i < 256)
      → find r.descr.name str_to_reg_map ≡ some d
      → d.reg_ptr ≡ in_gp f
      → do_bit_flip sys libs t m ≡ ok (true, m3)
      → (m2 : M) × (g' : GpRegs) × (t.ptrace.get_regs m2 ≡ some g')
        × FlipsGp f r.bit g g'
        × (t.ptrace.get_regset m2 ≡ some x)
        × (t.cont m2 ≡ some m3)
  do_bit_flip-gp ptrace libs m m1 m3 r g x d f chosen here hg hx bytes hd hp run =
      let (r', m1', rm', m2, chosen', good, outside, there, flipped, goes_on) =
        do_bit_flip-ok sys t libs m m3 run in
      let same_reg : r' ≡ r = ok-injective (sym chosen' ∙ chosen) in
      let same_place : m1' ≡ m1 =
        IsAt-unique r m m1' m1 (subst (λ q. IsAt sys t q m m1') same_reg there) here in
      let flip : try_bit_flip t.ptrace t.rm r.descr.name r.bit m1 ≡ ok (true, rm', m2) =
        subst (λ q. try_bit_flip t.ptrace t.rm q.descr.name q.bit m1 ≡ ok (true, rm', m2)) same_reg
          (subst (λ n. try_bit_flip t.ptrace t.rm r'.descr.name r'.bit n ≡ ok (true, rm', m2))
            same_place flipped) in
      let (g', read, flips, kept) =
        try_bit_flip-gp t.ptrace ptrace t.rm rm' r.descr.name r.bit m1 m2 g x d f hg hx bytes hd hp
          flip in
      (m2, g', read, flips, kept, goes_on)
