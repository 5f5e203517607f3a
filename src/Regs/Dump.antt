-- ===== src/Regs/Dump.antt =====
-- src/regManip.cpp: dump and dumpMachine of the RegisterManipulator, and RegDescr::dump.
use zofi.Base.{
  List, Outcome, String, [], if◌then◌else◌, leb, ok, suc, zero, ℕ, ◌%◌, ◌++◌, ◌/◌, ◌==◌, ◌>>=◌, ◌∷◌,
}
use zofi.Utils.Print.{decimal, hex_byte, pad_left}
use zofi.Utils.Text.{Text, codes}
use zofi.Regs.Manip.{Ptrace, import_registers_to, initial_state, read_byte}
use zofi.Regs.Data.{RegData, RegDescr, RegState, nullptr}
use zofi.Regs.Table.{def_regs}

-- RegDescr::dump; `Bits:` and `StartBit:` are unsigned.
unfoldable pub dump_descr : RegDescr → Text
dump_descr r =
    codes "<Reg: "
    ++ (codes r.name
        ++ (codes " StartBit:"
            ++ (decimal r.start_bit
                ++ (codes " Bits:"
                    ++ (decimal r.bits
                        ++ (codes " "
                            ++ ((if r.written then codes "W" else codes "R") ++ codes ">")))))))

-- Byte, from the last one down to `first`, each as two hexadecimal digits, and a space after every
-- eighth.
unfoldable pub dump_bytes : (ℕ → ℕ) → ℕ → ℕ → Text
dump_bytes byte_at first zero = []
dump_bytes byte_at first (suc byte) =
    let rest =
      hex_byte (byte_at byte)
      ++ ((if byte % 8 == 0 then codes " " else []) ++ dump_bytes byte_at first byte) in
    if leb first byte then rest else []

-- The value that dump prints for a DEF_REG line.
unfoldable pub dump_value : RegState → RegData → Text
dump_value s d = elim d.reg_ptr [
  | nullptr ↦ codes "Unsupported"
  | p ↦ codes "0x" ++ dump_bytes (read_byte s p) (d.start_bit / 8) (d.bits / 8)
]

-- The line that dump prints for a DEF_REG line.
unfoldable pub dump_row : RegState → String × RegData → Text
dump_row s (k, d) = pad_left 12 (codes k) ++ (codes ": " ++ (dump_value s d ++ codes "\n"))

unfoldable pub dump_rows : (String × RegData → Text) → List (String × RegData) → Text
dump_rows row [] = []
dump_rows row (r ∷ rows) = row r ++ dump_rows row rows

-- RegisterManipulator::dump
unfoldable pub dump : RegState → Text
dump s = dump_rows (dump_row s) def_regs

-- `0x%016lx` of the eight bytes at the register's pointer, whatever its bits are.
unfoldable pub long_hex : (ℕ → ℕ) → ℕ → Text
long_hex byte_at zero = []
long_hex byte_at (suc n) = hex_byte (byte_at n) ++ long_hex byte_at n

unfoldable pub machine_value : RegState → RegData → Text
machine_value s d = elim d.reg_ptr [
  | nullptr ↦ codes "Unsupported"
  | p ↦ codes "0x" ++ long_hex (read_byte s p) 8
]

unfoldable pub machine_row : RegState → String × RegData → Text
machine_row s (k, d) = pad_left 12 (codes k) ++ (codes ": " ++ (machine_value s d ++ codes "\n"))

module _ {M : Type 0} (p : Ptrace M) where
  -- RegisterManipulator::dumpMachine: it reads the machine into two buffers of its own, while the
  -- pointers of regs.def are into gpregs and vecregs of the object.
  unfoldable pub dump_machine : RegState → M → Outcome Text
  dump_machine s m = do
    read ← import_registers_to p initial_state m
    ok (dump_rows (machine_row s) def_regs)
