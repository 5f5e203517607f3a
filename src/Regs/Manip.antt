-- ===== src/Regs/Manip.antt =====
-- src/regManip.h and src/regManip.cpp: class RegisterManipulator, but for the choice of a register
-- (see `Select`). ptrace is the record `Ptrace`, over the kernel's state of the traced process.
use zofi.Base.{
  suc, zero, ◌≡◌, ℕ, ◌+◌, ◌*◌, ◌/◌, ◌%◌, ◌^◌, Bool, true, false, String, List, [], ◌∷◌, Option,
  none, some, Outcome, ok, die, user_die, ◌>>=◌, ◌>>◌, assert, if◌then◌else◌,
}
use Prim.Native.Nat.{bit_xor}
use text.Mathlib.Text.{◌==◌ as str_eq}
use zofi.Regs.XSave.{Bytes, update, import_data}
use zofi.Regs.Data.{
  Location, in_gp, in_xsave, in_zmm, nullptr, RegData, get_reg_ptr, get_bits, GpRegs, update_gp,
  RegState,
}
use zofi.Regs.Table.{def_regs}

-- std::map::operator[] = on StrToRegMap.
abbrev pub RegMap : Type 0
RegMap = List (String × RegData)

unfoldable pub insert : String → RegData → RegMap → RegMap
insert k v [] = (k, v) ∷ []
insert k v ((j, w) ∷ m) = if str_eq j k then (k, v) ∷ m else (j, w) ∷ insert k v m

unfoldable pub find : String → RegMap → Option RegData
find k [] = none
find k ((j, v) ∷ m) = if str_eq j k then some v else find k m

unfoldable pub populate : RegMap → List (String × RegData) → RegMap
populate m [] = m
populate m ((k, v) ∷ rest) = populate (insert k v m) rest

-- RegisterManipulator::RegisterManipulator, step 1.
unfoldable pub str_to_reg_map : RegMap
str_to_reg_map = populate [] def_regs

unfoldable pub get_reg_data_for_str_safe : String → Bool → Outcome RegData
get_reg_data_for_str_safe r user_error = elim (find r str_to_reg_map) [
  | none ↦ if user_error then user_die else die
  | some d ↦ ok d
]

-- RegisterManipulator::getStartBit and getBits.
unfoldable pub start_bit_of : String → Outcome ℕ
start_bit_of r = do d ← get_reg_data_for_str_safe r false; ok d.start_bit

unfoldable pub bits_of : String → Outcome ℕ
bits_of r = do d ← get_reg_data_for_str_safe r false; get_bits d

-- A failed request is `none`, the -1 of ptrace.
pub record Ptrace (M : Type 0) : Type 0 where
  pub get_regs : M → Option GpRegs
  pub get_regset : M → Option Bytes
  pub set_regs : GpRegs → M → Option M
  pub set_regset : Bytes → M → Option M

-- The manual page: a set request that succeeds is what the next get request reads, and the two
-- register sets are independent.
pub record IsPtrace {M : Type 0} (p : Ptrace M) : Type 0 where
  pub get_regs-set_regs : (g : GpRegs) (m n : M) → p.set_regs g m ≡ some n → p.get_regs n ≡ some g
  pub get_regset-set_regs :
      (g : GpRegs) (m n : M) → p.set_regs g m ≡ some n → p.get_regset n ≡ p.get_regset m
  pub get_regset-set_regset :
      (x : Bytes) (m n : M) → p.set_regset x m ≡ some n → p.get_regset n ≡ some x
  pub get_regs-set_regset :
      (x : Bytes) (m n : M) → p.set_regset x m ≡ some n → p.get_regs n ≡ p.get_regs m

-- RegisterManipulator::RegisterManipulator, step 2, and VecRegsState::VecRegsState.
abbrev pub initial_state : RegState
initial_state = record { gpregs = λ f i. 0; vecregs = record { xsave = λ i. 0; zmm = λ i. 0 } }

-- The byte of a register that holds bit number `bit`, read and written through RegField + Bit / 8.
unfoldable pub read_byte : RegState → Location → ℕ → ℕ
read_byte s (in_gp f) i = s.gpregs f i
read_byte s (in_xsave at) i = s.vecregs.xsave (at + i)
read_byte s (in_zmm row) i = s.vecregs.zmm (row * 64 + i)
read_byte s nullptr i = 0

unfoldable pub write_byte : RegState → Location → ℕ → ℕ → RegState
write_byte s (in_gp f) i v = record s { gpregs = update_gp s.gpregs f i v }
write_byte s (in_xsave at) i v = record s {
  vecregs = record s.vecregs { xsave = update s.vecregs.xsave (at + i) v };
}
write_byte s (in_zmm row) i v = record s {
  vecregs = record s.vecregs { zmm = update s.vecregs.zmm (row * 64 + i) v };
}
write_byte s nullptr i v = s

-- RegisterManipulator::getRegisterPtr: the register's field and the byte within it.
unfoldable pub get_register_ptr : String → ℕ → Outcome (Location × ℕ)
get_register_ptr r bit = do
  d ← get_reg_data_for_str_safe r false
  p ← get_reg_ptr d
  ok (p, bit / 8)

-- RegisterManipulator::getRegisterContents<uint8_t>: the pointer is never null behind the
-- assertion of getRegPtr, so the read never fails.
unfoldable pub get_register_contents : RegState → String → ℕ → Outcome (ℕ × Bool)
get_register_contents s r bit = do at ← get_register_ptr r bit; ok (read_byte s at.0 at.1, true)

unfoldable pub set_register_contents : RegState → String → ℕ → ℕ → Outcome (Bool × RegState)
set_register_contents s r v bit = do
  d ← get_reg_data_for_str_safe r false
  p ← get_reg_ptr d
  elim p [ nullptr ↦ ok (false, s) | q ↦ ok (true, write_byte s q (bit / 8) v) ]

module _ {M : Type 0} (p : Ptrace M) where
  -- PTRACE_GETREGS through ptraceSafe, which dies; a failed PTRACE_GETREGSET leaves the buffer.
  unfoldable pub import_registers_to : RegState → M → Outcome RegState
  import_registers_to s m = elim (p.get_regs m) [
    | none ↦ die
    | some g ↦ do
      v ←
          import_data
            (elim (p.get_regset m) [ none ↦ s.vecregs | some x ↦ record s.vecregs { xsave = x } ])
      ok (record { gpregs = g; vecregs = v })
  ]

  unfoldable pub export_registers : RegState → M → Bool × M
  export_registers s m = elim (p.set_regs s.gpregs m) [
    | none ↦ (false, m)
    | some m' ↦ elim (p.set_regset s.vecregs.xsave m') [
      | none ↦ (false, m')
      | some m'' ↦ (true, m'')
    ]
  ]

  -- The end of tryBitFlip: the modified buffers go back to the process.
  unfoldable pub export_flip : RegState → M → Bool × RegState × M
  export_flip s m = let sent = export_registers s m in (sent.0, s, sent.1)

  unfoldable pub try_bit_flip : RegState → String → ℕ → M → Outcome (Bool × RegState × M)
  try_bit_flip s r bit m = do
    assert (elim (find r str_to_reg_map) [ none ↦ false | some d ↦ true ])
    s' ← import_registers_to s m
    old ← get_register_contents s' r bit
    assert old.1
    new ← set_register_contents s' r (bit_xor old.0 (2 ^ (bit % 8)) % 256) bit
    ok (if new.0 then export_flip new.1 m else (false, new.1, m))

  -- RegisterManipulator::getProgramCounter. The eight bytes of the pointer, the lowest first.
  abbrev read_word : RegState → Location → ℕ → ℕ
  read_word s at zero = 0
  read_word s at (suc n) = read_word s at n + read_byte s at n * 256 ^ n

  unfoldable pub get_program_counter : RegState → M → Outcome (ℕ × RegState)
  get_program_counter s m = do
    s' ← import_registers_to s m
    at ← get_register_ptr "rip" 0
    ok (read_word s' at.0 8, s')
