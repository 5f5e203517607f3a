-- ===== src/Regs/DumpTests.antt =====
-- dump and dumpMachine on concrete registers.
use zofi.Utils.Print.{decimal, decimal_digits, hex_byte, hex_digit}
use zofi.Regs.Data.{
  GpField, Location, RegData, RegState, gp_index, in_gp, in_xsave, in_zmm, nullptr,
}
use zofi.Regs.Manip.{initial_state, read_byte}
use zofi.Base.{
  [], arith, if◌then◌else◌, refl, true, ℕ, ◌%◌, ◌++◌, ◌-◌, ◌/◌, ◌<◌, ◌==◌, ◌≡◌, ◌≢◌, ◌≤◌,
}
use zofi.Utils.Text.{Text, codes}
use zofi.Regs.Dump.{dump_bytes, dump_descr, dump_value}
use zofi.Regs.DumpLaws.{bytes_value, dump_value-read, read_hex}

-- The bytes of rax are 18, 17 and so on, from the lowest; all else is zero.
abbrev rax_counts : RegState
rax_counts = record initial_state {
  gpregs = λ f i. if gp_index f == gp_index GpField.rax then (18 - i) % 256 else 0;
}

rax_counts-small : (p : Location) (i : ℕ) → read_byte rax_counts p i < 256
unfolding read_byte
rax_counts-small (in_gp f) i = ground arith
rax_counts-small (in_xsave at) i = omega arith
rax_counts-small (in_zmm row) i = omega arith
rax_counts-small nullptr i = omega arith

abbrev eax : RegData
eax = record { reg_ptr = in_gp GpField.rax; start_bit = 0; bits = 32 }

abbrev high_a : RegData
high_a = record { reg_ptr = in_gp GpField.rax; start_bit = 8; bits = 8 }

not_null : (f : GpField) → in_gp f ≢ nullptr
not_null f e = cc

dump_value-read_example :
    (digits : Text) × (dump_value rax_counts eax ≡ codes "0x" ++ digits)
    × (read_hex 0 digits ≡ bytes_value (read_byte rax_counts eax.reg_ptr) (0 / 8) (32 / 8 - 0 / 8))
    × (32 ≤ 0 → digits ≡ [])
dump_value-read_example = dump_value-read rax_counts eax (not_null GpField.rax) rax_counts-small

eax_digits : dump_value rax_counts eax ≡ codes "0x0f101112 "
unfolding dump_value dump_bytes hex_byte hex_digit read_byte
eax_digits = refl

-- Nothing is printed of ah.
ah_digits : dump_value rax_counts high_a ≡ codes "0x"
unfolding dump_value dump_bytes hex_byte hex_digit read_byte
ah_digits = refl

eax_descr :
    dump_descr (record { name = "eax"; start_bit = 0; bits = 32; written = true })
    ≡ codes "<Reg: eax StartBit:0 Bits:32 W>"
unfolding dump_descr decimal decimal_digits
eax_descr = refl
