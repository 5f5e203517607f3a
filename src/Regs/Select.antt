-- ===== src/Regs/Select.antt =====
-- src/regManip.cpp: getSelectedRegAndBit, the choice of the register and the bit to flip.
use zofi.Base.{
  is_some, get_or, Bool, Option, Outcome, String, [], assert, false, if◌then◌else◌, leb, length,
  ltb, none, ok, some, to_unsigned, true, ◌&&◌, ◌+◌, ◌>>=◌, ◌>>◌, ◌||◌, ◌∷◌, ℕ,
}
use zofi.Regs.Data.{RegDescr, get_bits}
use zofi.Regs.Insn.{Capstone, InstrRegs, RegsVec, get_instr_registers}
use zofi.Utils.Text.{Text, codes, is_in}
use zofi.Utils.Rand.{Generator, rand_safe}
use zofi.Utils.Number.{strtol_safe}
use zofi.Regs.Manip.{get_reg_data_for_str_safe}

-- The options that the choice reads: -inject-to, -force-inject-to-reg and -force-inject-to-bit.
pub record InjectOptions : Type 0 where
  pub inject_to : Text
  pub force_inject_to_reg : Option String
  pub force_inject_to_bit : Option Text

-- RegDescr()
abbrev pub no_descr : RegDescr
no_descr = record { name = ""; start_bit = 0; bits = 0; written = false }

pub record Selected : Type 0 where
  pub descr : RegDescr
  pub bit : ℕ
  pub success : Bool

-- The vector that the options and the instruction leave to choose from.
unfoldable pub candidates : InjectOptions → InstrRegs → Outcome RegsVec
candidates o v = elim o.force_inject_to_reg [
  | some forced ↦ do
    d ← get_reg_data_for_str_safe forced true
    b ← get_bits d
    ok (record { name = forced; start_bit = d.start_bit; bits = b; written = false } ∷ [])
  | none ↦ do
    assert (is_in o.inject_to (codes "r") || is_in o.inject_to (codes "w"))
    ok (
        if is_in o.inject_to (codes "r") && is_in o.inject_to (codes "w")
        then v.all_regs
        else if is_in o.inject_to (codes "r")
        then v.r_regs
        else v.w_regs)
]

module _ {G : Type 0} (rand : Generator G) where
  -- Which of the candidates: the first if it was forced, else one at random.
  unfoldable pub select_reg : InjectOptions → RegsVec → G → ℕ × G
  select_reg o regs g =
      if is_some o.force_inject_to_reg then (0, g) else rand_safe rand (length regs) g

  abbrev in_range : RegDescr → ℕ → Bool
  in_range d bit = leb d.start_bit bit && ltb bit (d.start_bit + d.bits)

  -- Step 3: the bit.
  unfoldable pub select_bit : InjectOptions → RegDescr → G → Outcome (Selected × G)
  select_bit o d g = elim o.force_inject_to_bit [
    | some word ↦ do
      n ← strtol_safe word
      let bit = to_unsigned n
      ok (record { descr = d; bit = bit; success = in_range d bit }, g)
    | none ↦ do
      let r = rand_safe rand d.bits g
      assert (in_range d (d.start_bit + r.0))
      ok (record { descr = d; bit = d.start_bit + r.0; success = true }, r.1)
  ]

  -- Steps 2 and 3 on the candidates.
  unfoldable pub pick : InjectOptions → RegsVec → G → Outcome (Selected × G)
  pick o [] g = ok (record { descr = no_descr; bit = 0; success = false }, g)
  pick o (d ∷ ds) g =
      let picked = select_reg o (d ∷ ds) g in select_bit o (get_or (d ∷ ds) picked.0 d) picked.1

  unfoldable pub select : InjectOptions → InstrRegs → G → Outcome (Selected × G)
  select o v g = do regs ← candidates o v; pick o regs g

  unfoldable pub get_selected_reg_and_bit :
      Capstone → InjectOptions → (ℕ → ℕ) → ℕ → G → Outcome (Selected × G)
  get_selected_reg_and_bit capstone o peek ip g = do
    v ← get_instr_registers capstone o.inject_to peek ip
    select o v g
