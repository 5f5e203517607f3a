-- ===== src/Regs/Insn.antt =====
-- src/regManip.cpp: isControlInstr and getInstrRegisters. The capstone disassembler is a
-- parameter: its structures are the records below, and the functions that the code calls are those
-- of `Capstone`.
use zofi.Base.{
  Bool, List, Option, Outcome, String, [], assert, false, for_each, if◌then◌else◌, none, not, ok,
  some, take, true, ◌%◌, ◌&&◌, ◌++◌, ◌+◌, ◌-◌, ◌==◌, ◌>>=◌, ◌>>◌, ◌^◌, ◌||◌, ◌∷◌, ℕ,
}
use zofi.Regs.Data.{RegDescr, get_bits}
use zofi.Regs.Manip.{get_reg_data_for_str_safe}
use zofi.Utils.Text.{Text, codes, is_in}

-- The group numbers that the code tests, and all others.
pub data Group : Type 0 where
  jump call ret int iret privilege branch_relative : Group
  other_group : ℕ → Group

-- `access & CS_AC_WRITE` and `access & CS_AC_READ` of a register operand are the two Booleans.
pub data Operand : Type 0 where
  op_reg : (id : ℕ) (writes reads : Bool) → Operand
  op_mem : (segment base index : ℕ) → Operand
  op_other : Operand

pub record Insn : Type 0 where
  pub groups : List Group
  pub regs_read : List ℕ
  pub regs_write : List ℕ
  pub operands : List Operand

pub record Capstone : Type 0 where
  pub reg_name : ℕ → String
  pub reg_invalid : ℕ
  -- cs_open, cs_option and cs_disasm of at most one instruction: `none` where Cnt is 0.
  pub disasm : List ℕ → Outcome (Option Insn)

abbrev pub is_control_group : Group → Bool
is_control_group (other_group g) = false
is_control_group jump = true
is_control_group call = true
is_control_group ret = true
is_control_group int = true
is_control_group iret = true
is_control_group privilege = true
is_control_group branch_relative = true

-- The loop over the groups of isControlInstr.
unfoldable pub scan_groups : Bool → List Group → Bool
scan_groups found [] = found
scan_groups found (g ∷ rest) = scan_groups (if is_control_group g then true else found) rest

unfoldable pub is_control_instr : Insn → Bool
is_control_instr i = scan_groups false i.groups

abbrev pub RegsVec : Type 0
RegsVec = List RegDescr

pub record InstrRegs : Type 0 where
  pub w_regs : RegsVec
  pub r_regs : RegsVec
  pub all_regs : RegsVec

abbrev pub no_regs : InstrRegs
no_regs = record { w_regs = []; r_regs = []; all_regs = [] }

-- push_back on each of the vectors.
abbrev pub push_w : RegDescr → InstrRegs → InstrRegs
push_w d v = record v { w_regs = v.w_regs ++ d ∷ [] }

abbrev pub push_r : RegDescr → InstrRegs → InstrRegs
push_r d v = record v { r_regs = v.r_regs ++ d ∷ [] }

abbrev pub push_all : RegDescr → InstrRegs → InstrRegs
push_all d v = record v { all_regs = v.all_regs ++ d ∷ [] }

-- RegDescr(RegStr, RData.getStartBit(), RData.getBits(), Written)
unfoldable pub describe : String → Bool → Outcome RegDescr
describe r written = do
  d ← get_reg_data_for_str_safe r false
  b ← get_bits d
  ok (record { name = r; start_bit = d.start_bit; bits = b; written = written })

-- Step 1: the instruction pointer.
unfoldable pub collect_ip : Text → Insn → InstrRegs → Outcome InstrRegs
collect_ip inject_to i v =
    if (is_in inject_to (codes "c") && is_control_instr i)
      || (is_in inject_to (codes "o") && not (is_control_instr i))
    then (do d ← describe "rip" false; ok (push_all d (push_r d (push_w d v))))
    else ok v

-- The loop that copies the sixteen bytes at ChildIP with PTRACE_PEEKTEXT. `peek` gives the word
-- that ptrace returns, as its bit pattern; ptraceSafe dies at -1.
unfoldable pub child_mem : (ℕ → ℕ) → ℕ → Outcome (List ℕ)
child_mem peek ip =
    for_each 16
      (λ i mem. do
        let word = peek (ip + i)
        assert (not (word == 2 ^ 64 - 1))
        ok (mem ++ (word % 256) ∷ []))
      []

module _ (capstone : Capstone) where
  -- Step 2: the implicitly accessed registers.
  unfoldable pub collect_read : List ℕ → InstrRegs → Outcome InstrRegs
  collect_read [] v = ok v
  collect_read (id ∷ ids) v = do
    d ← describe (capstone.reg_name id) false
    collect_read ids (push_r d v)

  unfoldable pub collect_write : List ℕ → InstrRegs → Outcome InstrRegs
  collect_write [] v = ok v
  collect_write (id ∷ ids) v = do
    d ← describe (capstone.reg_name id) true
    collect_write ids (push_w d v)

  unfoldable pub collect_implicit : Text → Insn → InstrRegs → Outcome InstrRegs
  collect_implicit inject_to i v =
      if is_in inject_to (codes "i")
      then (do v' ← collect_read i.regs_read v; collect_write i.regs_write v')
      else ok v

  -- Step 3: the explicitly accessed registers.
  unfoldable pub collect_mem : List ℕ → InstrRegs → Outcome InstrRegs
  collect_mem [] v = ok v
  collect_mem (id ∷ ids) v =
      let named =
        describe (capstone.reg_name id) false
        >>= (λ d. collect_mem ids (push_all d (push_r d v))) in
      let skipped = collect_mem ids v in if id == capstone.reg_invalid then skipped else named

  unfoldable pub collect_operand : Operand → InstrRegs → Outcome InstrRegs
  collect_operand (op_reg id writes reads) v = do
    d ← describe (capstone.reg_name id) false
    ok (
        if writes
        then (let d' = record d { written = true } in push_all d' (push_w d' v))
        else if reads
        then push_all d (push_r d v)
        else push_all d v)
  collect_operand (op_mem segment base index) v = collect_mem (segment ∷ base ∷ index ∷ []) v
  collect_operand op_other v = ok v

  unfoldable pub collect_operands : List Operand → InstrRegs → Outcome InstrRegs
  collect_operands [] v = ok v
  collect_operands (o ∷ os) v = do v' ← collect_operand o v; collect_operands os v'

  unfoldable pub collect_explicit : Text → Insn → InstrRegs → Outcome InstrRegs
  collect_explicit inject_to i v =
      if is_in inject_to (codes "e") then collect_operands i.operands v else ok v

  -- The three steps on a disassembled instruction.
  unfoldable pub collect : Text → Insn → Outcome InstrRegs
  collect inject_to i = do
    v1 ← collect_ip inject_to i no_regs
    v2 ← collect_implicit inject_to i v1
    collect_explicit inject_to i v2

  -- getInstrRegisters. cs_disasm is given the first eight of the bytes.
  unfoldable pub get_instr_registers : Text → (ℕ → ℕ) → ℕ → Outcome InstrRegs
  get_instr_registers inject_to peek ip = do
    mem ← child_mem peek ip
    found ← capstone.disasm (take 8 mem)
    elim found [ none ↦ ok no_regs | some i ↦ collect inject_to i ]
