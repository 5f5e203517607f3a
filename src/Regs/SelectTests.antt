-- ===== src/Regs/SelectTests.antt =====
-- The choice of a register and a bit on a concrete instruction, and the theorems at it.
use zofi.Regs.Data.{get_reg_ptr, nullptr, GpField, RegData, RegDescr, get_bits, in_gp, reg_data}
use zofi.Base.{
  die, ◌⊎◌, Bool, List, String, [], false, for_each, none, ok, refl, some, suc, true, ℕ, ◌+◌, ◌<◌,
  ◌∷◌, ◌≡◌, ◌≤◌,
}
use zofi.Regs.TableLaws.{in_buffer, storage_bits}
use zofi.Utils.Text.{codes, find_text, is_in, starts_with}
use zofi.Regs.Manip.{find, get_reg_data_for_str_safe, insert, populate, str_to_reg_map}
use zofi.Regs.Chosen.{get_selected-fits, select_implicit_only}
use zofi.Regs.Insn.{
  Capstone, Insn, InstrRegs, child_mem, collect, collect_explicit, collect_implicit, collect_ip,
  collect_operand, collect_operands, collect_read, collect_write, describe, get_instr_registers,
  op_reg,
}
use zofi.Regs.Known.{IsKnown, collect-IsKnown}
use zofi.Regs.Select.{
  InjectOptions, Selected, candidates, get_selected_reg_and_bit, pick, select, select_bit,
  select_reg,
}
use zofi.Utils.Rand.{Generator, rand_safe}

-- An instruction that writes rax and reads it implicitly.
abbrev one_insn : Insn
one_insn = record {
  groups = [];
  regs_read = 1 ∷ [];
  regs_write = [];
  operands = op_reg 1 true false ∷ [];
}

abbrev one_reg : Capstone
one_reg = record { reg_name = λ id. "rax"; reg_invalid = 0; disasm = λ mem. ok (some one_insn) }

abbrev only : String → InjectOptions
only t = record { inject_to = codes t; force_inject_to_reg = none; force_inject_to_bit = none }

abbrev counting : Generator ℕ
counting g = (g, suc g)

abbrev no_memory : ℕ → ℕ
no_memory i = 0

abbrev rax_written : RegDescr
rax_written = record { name = "rax"; start_bit = 0; bits = 64; written = true }

abbrev rax_read : RegDescr
rax_read = record { name = "rax"; start_bit = 0; bits = 64; written = false }

-- The vectors with only explicit and with only implicit registers.
abbrev explicit_regs : InstrRegs
explicit_regs = record { w_regs = rax_written ∷ []; r_regs = []; all_regs = rax_written ∷ [] }

abbrev implicit_regs : InstrRegs
implicit_regs = record { w_regs = []; r_regs = rax_read ∷ []; all_regs = [] }

-- The generator gives 7 for the register and 8 for the bit.
abbrev rax_bit_8 : Selected
rax_bit_8 = record { descr = rax_written; bit = 8; success = true }

abbrev rax_data : RegData
rax_data = record { reg_ptr = in_gp GpField.rax; start_bit = 0; bits = 64 }

rax_known : find "rax" str_to_reg_map ≡ some rax_data
unfolding find str_to_reg_map populate insert reg_data
rax_known = refl

describe-rax :
    (w : Bool)
    → describe "rax" w ≡ ok (record { name = "rax"; start_bit = 0; bits = 64; written = w })
unfolding describe get_reg_data_for_str_safe get_bits find str_to_reg_map populate insert reg_data
describe-rax w = refl

collect-explicit : collect one_reg (codes "rwe") one_insn ≡ ok explicit_regs
unfolding collect collect_ip collect_implicit collect_explicit collect_operands collect_operand
    is_in find_text starts_with
collect-explicit = rw (describe-rax false) refl

collect-implicit : collect one_reg (codes "rwi") one_insn ≡ ok implicit_regs
unfolding collect collect_ip collect_implicit collect_explicit collect_read collect_write is_in
    find_text starts_with
collect-implicit = rw (describe-rax false) refl

select-explicit : select counting (only "rwe") explicit_regs 7 ≡ ok (rax_bit_8, 9)
unfolding select candidates pick select_reg select_bit rand_safe is_in find_text starts_with
select-explicit = refl

child_mem-zero : (m : List ℕ) × (child_mem no_memory 0 ≡ ok m)
unfolding child_mem for_each
child_mem-zero = (_, refl)

select_whole :
    get_selected_reg_and_bit counting one_reg (only "rwe") no_memory 0 7 ≡ ok (rax_bit_8, 9)
unfolding get_selected_reg_and_bit get_instr_registers
select_whole = rw (child_mem-zero.1) (rw collect-explicit select-explicit)

get_selected-fits_example :
    (d : RegData) × (find "rax" str_to_reg_map ≡ some d)
    × (d.start_bit ≤ 8)
    × (8 < d.start_bit + d.bits)
    × (((d.reg_ptr ≡ nullptr) × (get_reg_ptr d ≡ die))
        ⊎ ((8 < storage_bits d.reg_ptr) × (in_buffer d.reg_ptr ≡ true)))
get_selected-fits_example =
    get_selected-fits counting one_reg (only "rwe") no_memory 0 7 9 rax_bit_8 select_whole refl

explicit-IsKnown : IsKnown explicit_regs
explicit-IsKnown = collect-IsKnown one_reg (codes "rwe") one_insn explicit_regs collect-explicit

select_implicit_only_example :
    (r : Selected) × (select counting (only "rwi") implicit_regs 7 ≡ ok (r, 7))
    × (r.success ≡ false)
unfolding is_in find_text starts_with
select_implicit_only_example =
    select_implicit_only counting one_reg (only "rwi") one_insn implicit_regs 7 refl refl refl refl
      refl refl collect-implicit
