-- ===== src/Regs/DumpLaws.antt =====
-- src/regManip.cpp: the digits that dump prints.
use zofi.Regs.XSaveLaws.{imported, import_data-ok}
use zofi.Regs.Table.{def_regs}
use zofi.Base.{
  none, ok, ◌>>=◌, Bool-cases, inl, inr, some, ap, sym, ◌≢◌, leb, ◌∙◌, ◌≤◌, Bool, [], arith, false,
  if◌then◌else◌, ltb, refl, suc, true, zero, ℕ, ◌%◌, ◌*◌, ◌++◌, ◌+◌, ◌-◌, ◌/◌, ◌<◌, ◌==◌, ◌^◌, ◌∷◌,
  ◌≡◌,
}
use zofi.Regs.Manip.{initial_state, Ptrace, import_registers_to, read_byte}
use zofi.Regs.XSave.{VecRegsState}
use zofi.Regs.Dump.{dump_rows, machine_row, dump_machine, dump_value, dump_bytes}
use zofi.Regs.Data.{GpRegs, Location, RegData, RegState, in_gp, in_xsave, in_zmm, nullptr}
use mathlib.Core.Path.{subst}
use native.Mathlib.Nat.{pow-succ'}
use zofi.Utils.Print.{hex_byte, hex_digit}
use zofi.Utils.Text.{Text, codes}

abbrev pub hex_value : ℕ → ℕ
hex_value c = if ltb c b'a' then c - b'0' else c - b'a' + 10

-- The number that hexadecimal digits spell, spaces left out.
abbrev pub read_hex : ℕ → Text → ℕ
read_hex acc [] = acc
read_hex acc (c ∷ s) = read_hex (if c == b' ' then acc else acc * 16 + hex_value c) s

-- The bytes from `first` on, the lowest first, as a number.
abbrev pub bytes_value : (ℕ → ℕ) → ℕ → ℕ → ℕ
bytes_value byte_at first zero = 0
bytes_value byte_at first (suc n) = byte_at (first + n) * 256 ^ n + bytes_value byte_at first n

hex_digit-read : (n : ℕ) → n < 16 → hex_value (hex_digit n) ≡ n
unfolding hex_digit
hex_digit-read n h = ground arith

hex_digit-ne_space : (n : ℕ) → (hex_digit n == b' ') ≡ false
unfolding hex_digit
hex_digit-ne_space n = ground arith

read_hex-byte :
    (acc b : ℕ) (s : Text) → b < 256 → read_hex acc (hex_byte b ++ s) ≡ read_hex (acc * 256 + b) s
unfolding hex_byte
read_hex-byte acc b s h =
    let whole : (acc * 16 + b / 16) * 16 + b % 16 ≡ acc * 256 + b = omega arith in
    rw
      (
        hex_digit-ne_space (b / 16),
        hex_digit-ne_space (b % 16),
        hex_digit-read (b / 16) (omega arith),
        hex_digit-read (b % 16) (omega arith),
        whole,
      )
      refl

read_hex-gap :
    (b : Bool) (acc : ℕ) (s : Text)
    → read_hex acc ((if b then codes " " else []) ++ s) ≡ read_hex acc s
read_hex-gap true acc s = refl
read_hex-gap false acc s = refl

module _ (byte_at : ℕ → ℕ) (small : (i : ℕ) → byte_at i < 256) where
  -- Nothing is printed of a register whose bits start where their number ends.
  dump_bytes-empty : (first n : ℕ) → n ≤ first → dump_bytes byte_at first n ≡ []
  unfolding dump_bytes
  dump_bytes-empty first zero h = refl
  dump_bytes-empty first (suc n) h =
      let none_left : leb first n ≡ false = ground arith in rw none_left refl

  shift_in : (acc b p w : ℕ) → (acc * 256 + b) * p + w ≡ acc * (256 * p) + (b * p + w)
  shift_in acc b p w = grind arith

  read_hex-dump_bytes :
      (first n acc : ℕ)
      → read_hex acc (dump_bytes byte_at first (first + n))
        ≡ acc * 256 ^ n + bytes_value byte_at first n
  unfolding dump_bytes
  read_hex-dump_bytes first zero acc =
      let at : first + 0 ≡ first = omega arith in
      rw (at, dump_bytes-empty first first (omega arith)) (omega arith)
  read_hex-dump_bytes first (suc n) acc =
      let more : leb first (first + n) ≡ true = ground arith in
      let at : first + suc n ≡ suc (first + n) = omega arith in
      rw (at, more)
        (read_hex-byte acc (byte_at (first + n)) _ (small (first + n))
          ∙ read_hex-gap ((first + n) % 8 == 0) (acc * 256 + byte_at (first + n)) _
          ∙ read_hex-dump_bytes first n (acc * 256 + byte_at (first + n))
          ∙ shift_in acc (byte_at (first + n)) (256 ^ n) (bytes_value byte_at first n)
          ∙ ap (λ p. acc * p + (byte_at (first + n) * 256 ^ n + bytes_value byte_at first n))
              (sym (pow-succ' 256 n)))

read_hex-range :
    (byte_at : ℕ → ℕ) (small : (i : ℕ) → byte_at i < 256) (first n : ℕ)
    → read_hex 0 (dump_bytes byte_at first n) ≡ bytes_value byte_at first (n - first)
read_hex-range byte_at small first n = elim (Bool-cases (leb n first)) [
  | inl short ↦
      let empty : n - first ≡ 0 = ground arith in
      rw (dump_bytes-empty byte_at small first n (ground arith), empty) refl
  | inr above ↦
      let split : first + (n - first) ≡ n = ground arith in
      subst (λ m. read_hex 0 (dump_bytes byte_at first m) ≡ bytes_value byte_at first (n - first))
        split (read_hex-dump_bytes byte_at small first (n - first) 0 ∙ omega arith)
]

-- Where the buffers hold bytes, what dump prints for a register of the table that it can reach is 0x
-- and then digits that spell, spaces left out, the bytes from number START_BIT / 8 to below number
-- BITS / 8, the lowest last; no digits at all where BITS is not above START_BIT, as for ah.
pub dump_value-read :
    (s : RegState) (d : RegData)
    → d.reg_ptr ≢ nullptr
    → ((p : Location) (i : ℕ) → read_byte s p i < 256)
    → (digits : Text) × (dump_value s d ≡ codes "0x" ++ digits)
      × (read_hex 0 digits
          ≡ bytes_value (read_byte s d.reg_ptr) (d.start_bit / 8) (d.bits / 8 - d.start_bit / 8))
      × (d.bits ≤ d.start_bit → digits ≡ [])
unfolding dump_value
dump_value-read s d reach small =
    let first = d.start_bit / 8 in
    let byte_at = read_byte s d.reg_ptr in
    (
      dump_bytes byte_at first (d.bits / 8),
      reached d.reg_ptr reach,
      read_hex-range byte_at (small d.reg_ptr) first (d.bits / 8),
      λ h. dump_bytes-empty byte_at (small d.reg_ptr) first (d.bits / 8) (omega arith),
    )
  where
    reached :
        (p : Location)
        → p ≢ nullptr
        → (elim p [
          | nullptr ↦ codes "Unsupported"
          | q ↦ codes "0x" ++ dump_bytes (read_byte s q) (d.start_bit / 8) (d.bits / 8)
        ])
          ≡ codes "0x" ++ dump_bytes (read_byte s p) (d.start_bit / 8) (d.bits / 8)
    reached (in_gp f) h = refl
    reached (in_xsave n) h = refl
    reached (in_zmm n) h = refl
    reached nullptr h = absurd (h refl)

module _ {M : Type 0} (p : Ptrace M) where
  import_registers_to-ok :
      (s : RegState) (m : M) (g : GpRegs)
      → p.get_regs m ≡ some g
      → (r : RegState) × (import_registers_to p s m ≡ ok r)
  unfolding import_registers_to
  import_registers_to-ok s m g at_m =
      let v = elim (p.get_regset m) as (λ x. VecRegsState) [
        | none ↦ s.vecregs
        | some x ↦ record s.vecregs { xsave = x }
      ] in
      (
        record { gpregs = g; vecregs = record v { zmm = imported v.xsave v.zmm } },
        rw (at_m, import_registers_to)
            (ap (λ x. x >>= λ w. ok (record { gpregs = g; vecregs = w })) (import_data-ok v)),
      )

  dump_machine-rows :
      (s : RegState) (m : M) (g : GpRegs)
      → p.get_regs m ≡ some g
      → dump_machine p s m ≡ ok (dump_rows (machine_row s) def_regs)
  unfolding dump_machine
  dump_machine-rows s m g at_m =
      let (r, read) = import_registers_to-ok initial_state m g at_m in
      ap (λ x. x >>= λ read. ok (dump_rows (machine_row s) def_regs)) read

  -- Whatever two processes hold in their registers, dumpMachine prints the same for both: the
  -- buffers of the object, and not what it has read.
  pub dump_machine-stale :
      (s : RegState) (m n : M) (g h : GpRegs)
      → p.get_regs m ≡ some g
      → p.get_regs n ≡ some h
      → dump_machine p s m ≡ dump_machine p s n
  dump_machine-stale s m n g h at_m at_n =
      dump_machine-rows s m g at_m ∙ sym (dump_machine-rows s n h at_n)
