-- ===== src/Regs/ExportLaws.antt =====
-- src/regManip.cpp: what exportData writes is what importData reads.
use zofi.Base.{Bool, false, ltb, ℕ, ◌&&◌, ◌*◌, ◌+◌, ◌<◌, ◌==◌, ◌≡◌, ◌≢◌}
use zofi.Regs.XSaveLaws.{offset}
use zofi.Regs.XSave.{Bytes}

-- Byte 16 of a register below 15, which the export of the next register overwrites.
abbrev pub is_lost : ℕ → ℕ → Bool
is_lost reg byte = ltb reg 15 && byte == 16

-- The bytes before `byte` of register `reg` are written, but for those that are lost, and what no
-- byte of a register has is as it was.
record Written (old buf : Bytes) (reg byte : ℕ) (x : Bytes) : Type 0 where
  bytes_at :
      (r b : ℕ)
      → b < 64
      → r * 64 + b < reg * 64 + byte
      → is_lost r b ≡ false
      → x (offset r b) ≡ buf (r * 64 + b)
  outside : (i : ℕ) → ((r b : ℕ) → r < 32 → b < 64 → offset r b ≢ i) → x i ≡ old i
