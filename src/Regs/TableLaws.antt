-- ===== src/Regs/TableLaws.antt =====
-- src/regs.def: facts about the register table, by evaluation of the whole of it.
use zofi.Base.{
  false, inl, inr, ◌⊎◌, ◌<◌, ◌≤◌, [], arith, refl, ◌*◌, ◌||◌, ◌∷◌, ◌+◌, leb, some, if◌then◌else◌,
  ◌≡◌, ◌&&◌, true, ltb, Bool, String, List, ℕ,
}
use zofi.Regs.Data.{nullptr, in_zmm, reg_data, in_gp, in_xsave, Location, RegData}
use zofi.Regs.Manip.{insert, populate, RegMap, str_to_reg_map, find}
use zofi.Regs.XSave

-- The bits behind the pointer of a DEF_REG line: the field that it points to. A null pointer has
-- none.
abbrev pub storage_bits : Location → ℕ
storage_bits (in_gp f) = 64
storage_bits (in_xsave at) =
    if ltb at XSave.legacy_fsave_fip
    then 16
    else if ltb at XSave.legacy_fsave_mxcsr
    then 64
    else if ltb at XSave.legacy_mm_0to7
    then 32
    else if ltb at XSave.legacy_xmm_0to15
    then XSave.mm_bytes * 8
    else XSave.opmask_bytes * 8
storage_bits (in_zmm row) = XSave.zmm_bytes * 8
storage_bits nullptr = 0

abbrev pub in_buffer : Location → Bool
in_buffer (in_xsave at) =
    ltb at XSave.legacy_xmm_0to15 || (leb XSave.opmask_0to7 at && ltb at XSave.zmm_hi256_0to15)
in_buffer (in_zmm row) = ltb row XSave.num_zmm_regs
in_buffer (in_gp f) = true
in_buffer nullptr = false

-- A number of bits fits behind the pointer, where it is not null.
abbrev fits_behind : ℕ → Location → Bool
fits_behind n nullptr = true
fits_behind n p = leb n (storage_bits p) && in_buffer p

fits_behind-cases :
    (n : ℕ) (p : Location)
    → fits_behind n p ≡ true
    → (p ≡ nullptr) ⊎ ((n ≤ storage_bits p) × (in_buffer p ≡ true))
fits_behind-cases n nullptr h = inl refl
fits_behind-cases n (in_gp f) h = inr (ground arith, refl)
fits_behind-cases n (in_xsave at) h = inr (ground arith, ground arith)
fits_behind-cases n (in_zmm row) h = inr (ground arith, ground arith)

abbrev row_fits : RegData → Bool
row_fits d = ltb 0 d.bits && fits_behind (d.start_bit + d.bits) d.reg_ptr

all_fit : List (String × RegData) → Bool
all_fit [] = true
all_fit ((k, d) ∷ rest) = row_fits d && all_fit rest

table_fits : all_fit str_to_reg_map ≡ true
unfolding all_fit str_to_reg_map populate insert reg_data
table_fits = refl

row_fits-find :
    (r : String) (m : RegMap) {d : RegData}
    → all_fit m ≡ true
    → find r m ≡ some d
    → row_fits d ≡ true
unfolding all_fit find
row_fits-find r [] h e = cc
row_fits-find r ((k, v) ∷ rest) {d} h e = ground (arith, row_fits-find r rest {d = d})

-- Every register that the map knows has a bit, and either it has no storage, or its bits lie in the
-- field that it points to, inside the buffer.
pub find-fits :
    (r : String) {d : RegData}
    → find r str_to_reg_map ≡ some d
    → (0 < d.bits)
      × ((d.reg_ptr ≡ nullptr)
          ⊎ ((d.start_bit + d.bits ≤ storage_bits d.reg_ptr) × (in_buffer d.reg_ptr ≡ true)))
find-fits r {d} e =
    let h = row_fits-find r str_to_reg_map {d = d} table_fits e in
    (ground arith, fits_behind-cases (d.start_bit + d.bits) d.reg_ptr (ground arith))
