-- ===== src/Regs/Tests.antt =====
-- Runs of the register manipulation on concrete values, and the theorems at such values.
use zofi.Base.{◌⊎◌, Bool, die, some_inj, ap, arith, ok, refl, some, sym, ◌↔◌, ◌≡◌}
use zofi.Regs.Toggle.{FlipsGp}
use zofi.Regs.Manip.{
  initial_state, export_flip, export_registers, try_bit_flip, write_byte, IsPtrace, Ptrace, find,
  insert, populate, str_to_reg_map,
}
use zofi.Regs.Flip.{
  flipped_state, try_bit_flip-die_iff, try_bit_flip-eq, try_bit_flip-gp, try_bit_flip-zmm,
}
use zofi.Regs.Data.{
  get_reg_ptr, in_zmm, nullptr, GpField, GpRegs, RegData, RegState, in_gp, reg_data,
}
use zofi.Regs.XSave.{Bytes}

abbrev zeros : Bytes
zeros i = 0

abbrev gp_zeros : GpRegs
gp_zeros f i = 0

-- A process whose requests all succeed.
abbrev Process : Type 0
Process = GpRegs × Bytes

abbrev plain : Ptrace Process
plain = record {
  get_regs = λ m. some m.0;
  get_regset = λ m. some m.1;
  set_regs = λ g m. some (g, m.1);
  set_regset = λ x m. some (m.0, x);
}

plain-IsPtrace : IsPtrace plain
plain-IsPtrace = record {
  get_regs-set_regs = λ g m n e. ap (λ (k : Process). some k.0) (sym (some_inj e));
  get_regset-set_regs = λ g m n e. ap (λ (k : Process). some k.1) (sym (some_inj e));
  get_regset-set_regset = λ x m n e. ap (λ (k : Process). some k.1) (sym (some_inj e));
  get_regs-set_regset = λ x m n e. ap (λ (k : Process). some k.0) (sym (some_inj e));
}

abbrev ah_data : RegData
ah_data = record { reg_ptr = in_gp GpField.rax; start_bit = 8; bits = 8 }

ah_known : find "ah" str_to_reg_map ≡ some ah_data
unfolding find str_to_reg_map populate insert reg_data
ah_known = refl

abbrev blank : RegState
blank = initial_state

abbrev process : Process
process = (gp_zeros, zeros)

-- The process after bit 9 of ah is flipped.
abbrev ah_flipped : RegState
ah_flipped = flipped_state plain plain-IsPtrace blank gp_zeros zeros (in_gp GpField.rax) 9

try_bit_flip-gp_example :
    (g' : GpRegs) × (some (ah_flipped.gpregs) ≡ some g')
    × FlipsGp GpField.rax 9 gp_zeros g'
    × (some zeros ≡ some zeros)
unfolding export_flip export_registers write_byte
try_bit_flip-gp_example =
    try_bit_flip-gp plain plain-IsPtrace blank ah_flipped "ah" 9 process (ah_flipped.gpregs, zeros)
      gp_zeros zeros ah_data GpField.rax refl refl (λ h i. omega arith) ah_known refl
      (try_bit_flip-eq plain plain-IsPtrace blank "ah" 9 process gp_zeros zeros ah_data refl refl
        ah_known (in_gp GpField.rax) (unfold get_reg_ptr in refl) (λ e. cc))

abbrev ymm3_data : RegData
ymm3_data = record { reg_ptr = in_zmm 3; start_bit = 0; bits = 256 }

ymm3_known : find "ymm3" str_to_reg_map ≡ some ymm3_data
unfolding find str_to_reg_map populate insert reg_data
ymm3_known = refl

abbrev ymm3_flipped : RegState
ymm3_flipped = flipped_state plain plain-IsPtrace blank gp_zeros zeros (in_zmm 3) 200

try_bit_flip-zmm_example : (some gp_zeros ≡ some gp_zeros) × (some zeros ≡ some zeros)
unfolding export_flip export_registers write_byte
try_bit_flip-zmm_example =
    try_bit_flip-zmm plain plain-IsPtrace blank ymm3_flipped "ymm3" 200 process process gp_zeros
      zeros ymm3_data 3 refl refl ymm3_known refl
      (try_bit_flip-eq plain plain-IsPtrace blank "ymm3" 200 process gp_zeros zeros ymm3_data refl
        refl ymm3_known (in_zmm 3) (unfold get_reg_ptr in refl) (λ e. cc))

abbrev cr0_data : RegData
cr0_data = record { reg_ptr = nullptr; start_bit = 0; bits = 64 }

cr0_known : find "cr0" str_to_reg_map ≡ some cr0_data
unfolding find str_to_reg_map populate insert reg_data
cr0_known = refl

try_bit_flip-die_iff_example :
    ((try_bit_flip plain blank "cr0" 1 process ≡ die) ↔ (cr0_data.reg_ptr ≡ nullptr))
    × ((try_bit_flip plain blank "cr0" 1 process ≡ die)
        ⊎ ((b : Bool) × (t : RegState) × (n : Process) × (try_bit_flip plain blank "cr0" 1 process
              ≡ ok (b, t, n))))
try_bit_flip-die_iff_example =
    try_bit_flip-die_iff plain plain-IsPtrace blank "cr0" 1 process gp_zeros zeros cr0_data refl
      refl cr0_known
