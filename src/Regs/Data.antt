-- ===== src/Regs/Data.antt =====
-- src/regManip.h: RegData and RegDescr, and where a register of regs.def lives.
use zofi.Base.{ℕ, ◌==◌, ◌&&◌, Bool, String, Outcome, ok, die, ltb, if◌then◌else◌}
use zofi.Regs.XSave.{Bytes, VecRegsState}

-- The fields of `user_regs_struct` that regs.def names. Each is a word of eight bytes.
pub data GpField : Type 0 where
  r8 r9 r10 r11 r12 r13 r14 r15 rbp rax rbx rcx rdx rdi rsi rsp orig_rax rip : GpField
  cs eflags ss fs_base gs_base ds es fs gs : GpField

abbrev pub gp_index : GpField → ℕ
gp_index r8 = 0
gp_index r9 = 1
gp_index r10 = 2
gp_index r11 = 3
gp_index r12 = 4
gp_index r13 = 5
gp_index r14 = 6
gp_index r15 = 7
gp_index rbp = 8
gp_index rax = 9
gp_index rbx = 10
gp_index rcx = 11
gp_index rdx = 12
gp_index rdi = 13
gp_index rsi = 14
gp_index rsp = 15
gp_index orig_rax = 16
gp_index rip = 17
gp_index cs = 18
gp_index eflags = 19
gp_index ss = 20
gp_index fs_base = 21
gp_index gs_base = 22
gp_index ds = 23
gp_index es = 24
gp_index fs = 25
gp_index gs = 26

-- The pointer of a DEF_REG line: a field of gpregs, an offset into vecregs.xsave, a row of
-- vecregs.zmm, or none.
pub data Location : Type 0 where
  in_gp : GpField → Location
  in_xsave : ℕ → Location
  in_zmm : ℕ → Location
  nullptr : Location

pub record RegData : Type 0 where
  pub reg_ptr : Location
  pub start_bit : ℕ
  pub bits : ℕ

unfoldable pub reg_data : Location → ℕ → ℕ → RegData
reg_data p s b = record { reg_ptr = p; start_bit = s; bits = b }

-- RegData::getRegPtr, with its assertion.
unfoldable pub get_reg_ptr : RegData → Outcome Location
get_reg_ptr d = elim d.reg_ptr [ nullptr ↦ die | p ↦ ok p ]

-- RegData::getBits, with its assertion.
unfoldable pub get_bits : RegData → Outcome ℕ
get_bits d = if ltb 0 d.bits then ok d.bits else die

pub record RegDescr : Type 0 where
  pub name : String
  pub start_bit : ℕ
  pub bits : ℕ
  pub written : Bool

abbrev pub GpRegs : Type 0
GpRegs = GpField → Bytes

unfoldable pub update_gp : GpRegs → GpField → ℕ → ℕ → GpRegs
update_gp g f at v h i = if gp_index h == gp_index f && i == at then v else g h i

-- The buffers of a RegisterManipulator.
pub record RegState : Type 0 where
  pub gpregs : GpRegs
  pub vecregs : VecRegsState
