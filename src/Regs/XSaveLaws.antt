-- ===== src/Regs/XSaveLaws.antt =====
-- src/regManip.h, src/regManip.cpp: the import and export loops of VecRegsState, byte by byte.
use zofi.Base.{
  ==_iff, ap, refl, ◌∙◌, Bool-cases, inl, inr, iterate_inv, suc, ◌==◌, for_each, for_each-ok,
  iterate, Outcome, arith, die, if◌then◌else◌, ltb, ok, user_die, ◌*◌, ◌+◌, ◌-◌, ◌<◌, ◌≡◌, ◌⊎◌, ℕ,
}
use zofi.Regs.XSave.{
  export_byte, export_data, set_zmm, get_zmm, Bytes, VecRegsState, import_byte, import_data, update,
  get_zmm_internal, legacy_xmm_0to15, xsave_size, ymm_hi128_0to15, zmm_full_16to31, zmm_hi256_0to15,
}

-- The offset that getZMMInternal gives, where it gives one.
abbrev value_of : Outcome ℕ → ℕ
value_of (ok a) = a
value_of die = 0
value_of user_die = 0

unfoldable pub offset : ℕ → ℕ → ℕ
offset reg byte = value_of (get_zmm_internal reg byte)

pub get_zmm_internal-ok :
    (reg byte : ℕ) → reg < 32 → byte < 64 → get_zmm_internal reg byte ≡ ok (offset reg byte)
unfolding get_zmm_internal offset
get_zmm_internal-ok reg byte h k = ground arith

pub get_zmm_internal-lt : (reg byte : ℕ) → reg < 32 → byte < 64 → offset reg byte < xsave_size
unfolding get_zmm_internal offset
get_zmm_internal-lt reg byte h k = ground arith

-- The place of a byte of a register in the diagram of struct XSave.
abbrev pub zmm_slot : ℕ → ℕ → ℕ
zmm_slot reg byte =
    if ltb reg 16
    then (if ltb byte 16
        then legacy_xmm_0to15 + reg * 16 + byte
        else if ltb byte 32
        then ymm_hi128_0to15 + reg * 16 + (byte - 16)
        else zmm_hi256_0to15 + reg * 32 + (byte - 32))
    else zmm_full_16to31 + (reg - 16) * 64 + byte

-- The two bytes of a low register at which the bounds of getZMMInternal are off by one.
abbrev pub IsMisplaced : ℕ → ℕ → Type 0
IsMisplaced reg byte = (reg < 16) × ((byte ≡ 16) ⊎ (byte ≡ 32))

-- The loops without the calls of die, which get_zmm_internal-ok rules out.
import_row : Bytes → ℕ → Bytes → Bytes
import_row xsave reg =
    iterate 64 (λ byte zmm. update zmm (reg * 64 + byte) (xsave (offset reg byte)))

pub imported : Bytes → Bytes → Bytes
imported xsave = iterate 32 (import_row xsave)

pub import_data-ok :
    (s : VecRegsState) → import_data s ≡ ok (record s { zmm = imported s.xsave s.zmm })
unfolding import_data imported import_row import_byte get_zmm
import_data-ok s = rw (for_each-ok 32 _ (import_row s.xsave) s.zmm row)
  where
    byte_ok :
        (reg : ℕ)
        → reg < 32
        → (byte : ℕ) (zmm : Bytes) → byte < 64
        → import_byte s.xsave reg byte zmm
          ≡ ok (update zmm (reg * 64 + byte) (s.xsave (offset reg byte)))
    byte_ok reg h byte zmm k = rw (get_zmm_internal-ok reg byte h k, import_byte, get_zmm)

    row :
        (reg : ℕ) (zmm : Bytes)
        → reg < 32
        → for_each 64 (import_byte s.xsave reg) zmm ≡ ok (import_row s.xsave reg zmm)
    row reg zmm h = for_each-ok 64 _ _ zmm (byte_ok reg h)

-- The rows below `reg` are filled, and the first `byte` bytes of row `reg`.
record Filled (x : Bytes) (reg byte : ℕ) (buf : Bytes) : Type 0 where
  rows : (r b : ℕ) → r < reg → b < 64 → buf (r * 64 + b) ≡ x (offset r b)
  row : (b : ℕ) → b < byte → buf (reg * 64 + b) ≡ x (offset reg b)

fill_byte :
    (x : Bytes) (reg byte : ℕ) (buf : Bytes)
    → byte < 64
    → Filled x reg byte buf
    → Filled x reg (suc byte) (update buf (reg * 64 + byte) (x (offset reg byte)))
unfolding update
fill_byte x reg byte buf h v = record {
  rows = λ r b p q. ground (arith, v.rows r b p q);
  row = λ b p. elim (Bool-cases (b == byte)) [
    | inl same ↦ ground arith
    | inr other ↦ ground (arith, v.row b)
  ];
}

fill_row :
    (x : Bytes) (reg : ℕ) (buf : Bytes)
    → Filled x reg 0 buf
    → Filled x (suc reg) 0 (import_row x reg buf)
unfolding import_row
fill_row x reg buf v =
    let full =
      iterate_inv (Filled x reg) 64 (λ byte zmm. update zmm (reg * 64 + byte) (x (offset reg byte)))
        buf v (λ byte t h. fill_byte x reg byte t h) in
    record {
      rows = λ r b p q. elim (Bool-cases (r == reg)) [
        | inl same ↦ (let e = (==_iff r reg).0 same in rw e (full.row b q))
        | inr other ↦ full.rows r b (ground arith) q
      ];
      row = λ b p. absurd (omega arith);
    }

pub imported_lem :
    (x buf : Bytes) (reg byte : ℕ)
    → reg < 32
    → byte < 64
    → imported x buf (reg * 64 + byte) ≡ x (offset reg byte)
unfolding imported
imported_lem x buf reg byte h k =
    (iterate_inv (λ r. Filled x r 0) 32 (import_row x) buf start (λ r t _. fill_row x r t)).rows reg
      byte h k
  where
    start : Filled x 0 0 buf
    start = record { rows = λ r b p q. absurd (omega arith); row = λ b p. absurd (omega arith) }

unfoldable pub export_row : Bytes → ℕ → Bytes → Bytes
export_row buf reg = iterate 64 (λ byte x. update x (offset reg byte) (buf (reg * 64 + byte)))

unfoldable pub exported : Bytes → Bytes → Bytes
exported buf = iterate 32 (export_row buf)

pub export_data-ok :
    (s : VecRegsState) → export_data s ≡ ok (record s { xsave = exported s.zmm s.xsave })
unfolding export_data exported export_row export_byte set_zmm
export_data-ok s = rw (for_each-ok 32 _ (export_row s.zmm) s.xsave row)
  where
    byte_ok :
        (reg : ℕ)
        → reg < 32
        → (byte : ℕ) (x : Bytes) → byte < 64
        → export_byte s.zmm reg byte x ≡ ok (update x (offset reg byte) (s.zmm (reg * 64 + byte)))
    byte_ok reg h byte x k = rw (get_zmm_internal-ok reg byte h k, export_byte, set_zmm)

    row :
        (reg : ℕ) (x : Bytes)
        → reg < 32
        → for_each 64 (export_byte s.zmm reg) x ≡ ok (export_row s.zmm reg x)
    row reg x h = for_each-ok 64 _ _ x (byte_ok reg h)

pub offset-next_row : (reg byte : ℕ) → reg < 15 → byte ≡ 16 → offset reg byte ≡ zmm_slot (reg + 1) 0
unfolding offset get_zmm_internal
offset-next_row reg byte h e = ground arith

-- After the import, byte 16 of each of the registers 0 to 14 is byte 0 of the next register.
pub import_data-next_register :
    (s : VecRegsState) (reg : ℕ)
    → reg < 15
    → (t : VecRegsState) × (import_data s ≡ ok t)
      × (t.zmm (reg * 64 + 16) ≡ s.xsave (zmm_slot (reg + 1) 0))
import_data-next_register s reg p = (
  record s { zmm = imported s.xsave s.zmm },
  import_data-ok s,
  imported_lem s.xsave s.zmm reg 16 (omega arith) (omega arith)
      ∙ ap s.xsave (offset-next_row reg 16 p refl),
)
