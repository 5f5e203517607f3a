-- ===== src/Regs/XSave.antt =====
-- src/regManip.h: struct XSave and struct VecRegsState, and the import and export loops of
-- src/regManip.cpp. `XSave` is a flat buffer of bytes, addressed by the offset of each field, so
-- that an index past the end of a row reads the next row, as in the compiled struct.
use zofi.Base.{ℕ, ◌+◌, ◌-◌, ◌*◌, Outcome, ok, die, ◌>>=◌, leb, ◌==◌, if◌then◌else◌, for_each}

abbrev pub xmm_bytes : ℕ
xmm_bytes = 16

abbrev pub ymm_hi_bytes : ℕ
ymm_hi_bytes = 16

abbrev pub ymm_bytes : ℕ
ymm_bytes = 32

abbrev pub opmask_bytes : ℕ
opmask_bytes = 8

abbrev pub zmm_hi_bytes : ℕ
zmm_hi_bytes = 32

abbrev pub zmm_bytes : ℕ
zmm_bytes = 64

abbrev pub mm_bytes : ℕ
mm_bytes = 16

abbrev pub num_zmm_regs : ℕ
num_zmm_regs = 32

-- The offsets of the fields, each the sum of the sizes before it.
abbrev pub legacy_fsave_fcw : ℕ
legacy_fsave_fcw = 0

abbrev pub legacy_fsave_fsw : ℕ
legacy_fsave_fsw = legacy_fsave_fcw + 2

abbrev pub legacy_fsave_ftw : ℕ
legacy_fsave_ftw = legacy_fsave_fsw + 2

abbrev pub legacy_fsave_fop : ℕ
legacy_fsave_fop = legacy_fsave_ftw + 2

abbrev pub legacy_fsave_fip : ℕ
legacy_fsave_fip = legacy_fsave_fop + 2

abbrev pub legacy_fsave_fdp : ℕ
legacy_fsave_fdp = legacy_fsave_fip + 8

abbrev pub legacy_fsave_mxcsr : ℕ
legacy_fsave_mxcsr = legacy_fsave_fdp + 8

abbrev pub legacy_fsave_mxcsr_mask : ℕ
legacy_fsave_mxcsr_mask = legacy_fsave_mxcsr + 4

abbrev pub legacy_mm_0to7 : ℕ
legacy_mm_0to7 = legacy_fsave_mxcsr_mask + 4

abbrev pub legacy_xmm_0to15 : ℕ
legacy_xmm_0to15 = legacy_mm_0to7 + 8 * mm_bytes

abbrev pub legacy_reserved : ℕ
legacy_reserved = legacy_xmm_0to15 + 16 * xmm_bytes

abbrev pub header_xstate_bv : ℕ
header_xstate_bv = legacy_reserved + 96

abbrev pub header_xcomp_bv : ℕ
header_xcomp_bv = header_xstate_bv + 8

abbrev pub header_reserved : ℕ
header_reserved = header_xcomp_bv + 8

abbrev pub ymm_hi128_0to15 : ℕ
ymm_hi128_0to15 = header_reserved + 48

abbrev pub opmask_0to7 : ℕ
opmask_0to7 = ymm_hi128_0to15 + 16 * ymm_hi_bytes

abbrev pub zmm_hi256_0to15 : ℕ
zmm_hi256_0to15 = opmask_0to7 + 8 * opmask_bytes

abbrev pub zmm_full_16to31 : ℕ
zmm_full_16to31 = zmm_hi256_0to15 + 16 * zmm_hi_bytes

-- sizeof(XSave)
abbrev pub xsave_size : ℕ
xsave_size = zmm_full_16to31 + 16 * zmm_bytes

abbrev pub Bytes : Type 0
Bytes = ℕ → ℕ

unfoldable pub update : Bytes → ℕ → ℕ → Bytes
update mem at v i = if i == at then v else mem i

-- XSave::getZMMInternal, as the offset of the byte that it refers to.
unfoldable pub get_zmm_internal : ℕ → ℕ → Outcome ℕ
get_zmm_internal reg byte =
    if leb reg 15
    then (if leb byte xmm_bytes
        then ok (legacy_xmm_0to15 + reg * xmm_bytes + byte)
        else if leb byte ymm_bytes
        then ok (ymm_hi128_0to15 + reg * ymm_hi_bytes + (byte - ymm_hi_bytes))
        else if leb byte zmm_bytes
        then ok (zmm_hi256_0to15 + reg * zmm_hi_bytes + (byte - zmm_hi_bytes))
        else die)
    else if leb reg 31
    then ok (zmm_full_16to31 + (reg - 16) * zmm_bytes + byte)
    else die

unfoldable pub get_zmm : Bytes → ℕ → ℕ → Outcome ℕ
get_zmm xsave reg byte = do at ← get_zmm_internal reg byte; ok (xsave at)

unfoldable pub set_zmm : ℕ → ℕ → ℕ → Bytes → Outcome Bytes
set_zmm reg byte v xsave = do at ← get_zmm_internal reg byte; ok (update xsave at v)

-- `zmm` is the array of NumZMMRegs rows of ZMMBytes bytes, flat.
pub record VecRegsState : Type 0 where
  pub xsave : Bytes
  pub zmm : Bytes

unfoldable pub import_byte : Bytes → ℕ → ℕ → Bytes → Outcome Bytes
import_byte xsave reg byte zmm = do
  v ← get_zmm xsave reg byte
  ok (update zmm (reg * zmm_bytes + byte) v)

unfoldable pub import_data : VecRegsState → Outcome VecRegsState
import_data s = do
  zmm ← for_each num_zmm_regs (λ reg. for_each zmm_bytes (import_byte s.xsave reg)) s.zmm
  ok (record s { zmm = zmm })

unfoldable pub export_byte : Bytes → ℕ → ℕ → Bytes → Outcome Bytes
export_byte zmm reg byte = set_zmm reg byte (zmm (reg * zmm_bytes + byte))

unfoldable pub export_data : VecRegsState → Outcome VecRegsState
export_data s = do
  xsave ← for_each num_zmm_regs (λ reg. for_each zmm_bytes (export_byte s.zmm reg)) s.xsave
  ok (record s { xsave = xsave })
