-- ===== src/Regs/SelectLaws.antt =====
-- src/regManip.cpp: the choice of getSelectedRegAndBit among the candidates.
use zofi.Base.{
  In, get_or-In, sym, >>=-eq-ok, [], arith, get_or, length, ok, true, ◌+◌, ◌<◌, ◌∷◌, ◌≡◌, ◌≤◌,
}
use mathlib.Core.Path.{subst}
use zofi.Regs.Insn.{InstrRegs, RegsVec}
use zofi.Regs.Select.{pick, candidates, select, InjectOptions, Selected, select_bit, select_reg}
use zofi.Utils.Rand.{rand_safe-lt, Generator}
use zofi.Regs.Data.{RegDescr}

module _ {G : Type 0} (rand : Generator G) where
  select_bit_sound :
      (o : InjectOptions) (d : RegDescr) (g g' : G) (r : Selected)
      → select_bit rand o d g ≡ ok (r, g')
      → r.success ≡ true
      → (r.descr ≡ d) × (d.start_bit ≤ r.bit) × (r.bit < d.start_bit + d.bits)
  unfolding select_bit
  select_bit_sound o d g g' r e s = ground arith

  pub select_reg-lt :
      (o : InjectOptions) (d : RegDescr) (ds : RegsVec) (g : G)
      → (select_reg rand o (d ∷ ds) g).0 < length (d ∷ ds)
  unfolding select_reg
  select_reg-lt o d ds g = ground (arith, rand_safe-lt rand (length (d ∷ ds)) g)

  pick_sound :
      (o : InjectOptions) (regs : RegsVec) (g g' : G) (r : Selected)
      → pick rand o regs g ≡ ok (r, g')
      → r.success ≡ true
      → In r.descr regs × (r.descr.start_bit ≤ r.bit) × (r.bit < r.descr.start_bit + r.descr.bits)
  unfolding pick
  pick_sound o [] g g' r e s = absurd (ground arith)
  pick_sound o (d ∷ ds) g g' r e s =
      let chosen = select_reg rand o (d ∷ ds) g in
      let found = select_bit_sound o (get_or (d ∷ ds) chosen.0 d) chosen.1 g' r e s in
      (
        subst (λ x. In x (d ∷ ds)) (sym found.0)
            (get_or-In (d ∷ ds) chosen.0 d (select_reg-lt o d ds g)),
        rw found.0 found.1,
        rw found.0 found.2,
      )

  -- A choice that succeeds is one of the candidates, and its bit lies in the bits of the register.
  pub select_sound :
      (o : InjectOptions) (v : InstrRegs) (g g' : G) (r : Selected)
      → select rand o v g ≡ ok (r, g')
      → r.success ≡ true
      → (regs : RegsVec) × (candidates o v ≡ ok regs)
        × In r.descr regs
        × (r.descr.start_bit ≤ r.bit)
        × (r.bit < r.descr.start_bit + r.descr.bits)
  unfolding select
  select_sound o v g g' r e s =
      let (regs, known, picked) = >>=-eq-ok (candidates o v) (λ regs. pick rand o regs g) e in
      let found = pick_sound o regs g g' r picked s in (regs, known, found.0, found.1, found.2)
