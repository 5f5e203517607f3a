-- ===== src/Regs/Known.antt =====
-- src/regManip.cpp: the registers that getInstrRegisters collects, against the table.
use zofi.Base.{
  In, if◌then◌else◌, >>=-eq-ok, List, Option-cases, Outcome, arith, false, ok-injective, refl,
  ◌>>=◌, Bool, String, [], inl, inr, ok, some, true, ◌++◌, ◌∷◌, ◌≡◌, ℕ,
}
use zofi.Regs.Insn.{
  Operand, collect, collect_explicit, collect_implicit, collect_mem, collect_operand,
  collect_operands, collect_write, no_regs, op_mem, op_other, op_reg, push_all, push_w, Capstone,
  Insn, collect_ip, collect_read, push_r, InstrRegs, RegsVec, describe,
}
use mathlib.Core.Path.{subst}
use zofi.Utils.Text.{Text}
use zofi.Regs.Manip.{find, get_reg_data_for_str_safe, str_to_reg_map}
use zofi.Regs.Data.{RegData, RegDescr, get_bits}

abbrev pub Known : RegDescr → Type 0
Known d =
    (rd : RegData) × (find d.name str_to_reg_map ≡ some rd)
    × (d.start_bit ≡ rd.start_bit)
    × (d.bits ≡ rd.bits)

abbrev pub AllKnown : RegsVec → Type 0
AllKnown [] = Unit {0}
AllKnown (d ∷ ds) = Known d × AllKnown ds

AllKnown-push : (ds : RegsVec) (d : RegDescr) → AllKnown ds → Known d → AllKnown (ds ++ d ∷ [])
AllKnown-push [] d h k = (k, tt)
AllKnown-push (x ∷ ds) d h k = (h.0, AllKnown-push ds d h.1 k)

pub Known-In : (ds : RegsVec) (d : RegDescr) → AllKnown ds → In d ds → Known d
Known-In [] d h m = absurd m
Known-In (x ∷ ds) d h (inl e) = rw e h.0
Known-In (x ∷ ds) d h (inr m) = Known-In ds d h.1 m

pub record IsKnown (v : InstrRegs) : Type 0 where
  pub w_known : AllKnown v.w_regs
  pub r_known : AllKnown v.r_regs
  pub all_known : AllKnown v.all_regs

pub get_reg_data-found :
    (r : String) (user_error : Bool) (rd : RegData)
    → get_reg_data_for_str_safe r user_error ≡ ok rd
    → find r str_to_reg_map ≡ some rd
unfolding get_reg_data_for_str_safe
get_reg_data-found r user_error rd e = elim (Option-cases (find r str_to_reg_map)) [
  | inl missing ↦ absurd (ground (arith, missing))
  | inr (d, found) ↦ ground (arith, found)
]

pub get_bits-bits : (rd : RegData) (n : ℕ) → get_bits rd ≡ ok n → n ≡ rd.bits
unfolding get_bits
get_bits-bits rd n e = ground arith

describe-Known :
    (r : String) (written : Bool) (d : RegDescr)
    → describe r written ≡ ok d
    → Known d × Known (record d { written = true })
unfolding describe
describe-Known r written d e =
    let (rd, data_ok, rest) = >>=-eq-ok (get_reg_data_for_str_safe r false) _ e in
    let (n, bits_ok, built) = >>=-eq-ok (get_bits rd) _ rest in
    let known : Known (record { name = r; start_bit = rd.start_bit; bits = n; written = written }) =
      (rd, get_reg_data-found r false rd data_ok, refl, get_bits-bits rd n bits_ok) in
    rw (← ok-injective built) (known, known)

abbrev pub Keeps : Outcome InstrRegs → Type 0
Keeps m = (v : InstrRegs) → m ≡ ok v → IsKnown v

pub Keeps-ok : (u : InstrRegs) → IsKnown u → Keeps (ok u)
Keeps-ok u k v e = subst IsKnown (ok-injective e) k

Keeps-bind :
    (m : Outcome InstrRegs) (f : InstrRegs → Outcome InstrRegs)
    → Keeps m
    → ((u : InstrRegs) → IsKnown u → Keeps (f u))
    → Keeps (m >>= f)
Keeps-bind m f first rest v e = let (u, got, more) = >>=-eq-ok m f e in rest u (first u got) v more

Keeps-describe :
    (r : String) (written : Bool) (f : RegDescr → Outcome InstrRegs)
    → ((d : RegDescr) → Known d → Known (record d { written = true }) → Keeps (f d))
    → Keeps (describe r written >>= f)
Keeps-describe r written f rest v e =
    let (d, got, more) = >>=-eq-ok (describe r written) f e in
    let known = describe-Known r written d got in rest d known.0 known.1 v more

Keeps-if : (b : Bool) (m n : Outcome InstrRegs) → Keeps m → Keeps n → Keeps (if b then m else n)
Keeps-if true m n km kn = km
Keeps-if false m n km kn = kn

push_w-IsKnown : (d : RegDescr) (u : InstrRegs) → Known d → IsKnown u → IsKnown (push_w d u)
push_w-IsKnown d u h k = record {
  w_known = AllKnown-push u.w_regs d k.w_known h;
  r_known = k.r_known;
  all_known = k.all_known;
}

push_r-IsKnown : (d : RegDescr) (u : InstrRegs) → Known d → IsKnown u → IsKnown (push_r d u)
push_r-IsKnown d u h k = record {
  w_known = k.w_known;
  r_known = AllKnown-push u.r_regs d k.r_known h;
  all_known = k.all_known;
}

push_all-IsKnown : (d : RegDescr) (u : InstrRegs) → Known d → IsKnown u → IsKnown (push_all d u)
push_all-IsKnown d u h k = record {
  w_known = k.w_known;
  r_known = k.r_known;
  all_known = AllKnown-push u.all_regs d k.all_known h;
}

collect_ip-IsKnown : (t : Text) (i : Insn) (u : InstrRegs) → IsKnown u → Keeps (collect_ip t i u)
unfolding collect_ip
collect_ip-IsKnown t i u k =
    Keeps-if _ _ _
      (Keeps-describe "rip" false _ λ d h _.
        Keeps-ok _ (push_all-IsKnown d _ h (push_r-IsKnown d _ h (push_w-IsKnown d u h k))))
      (Keeps-ok u k)

module _ (c : Capstone) where
  collect_read-IsKnown : (ids : List ℕ) (u : InstrRegs) → IsKnown u → Keeps (collect_read c ids u)
  unfolding collect_read
  collect_read-IsKnown [] u k = Keeps-ok u k
  collect_read-IsKnown (id ∷ ids) u k =
      Keeps-describe (c.reg_name id) false _
        λ d h _. collect_read-IsKnown ids (push_r d u) (push_r-IsKnown d u h k)

  collect_write-IsKnown : (ids : List ℕ) (u : InstrRegs) → IsKnown u → Keeps (collect_write c ids u)
  unfolding collect_write
  collect_write-IsKnown [] u k = Keeps-ok u k
  collect_write-IsKnown (id ∷ ids) u k =
      Keeps-describe (c.reg_name id) true _
        λ d h _. collect_write-IsKnown ids (push_w d u) (push_w-IsKnown d u h k)

  collect_implicit-IsKnown :
      (t : Text) (i : Insn) (u : InstrRegs) → IsKnown u → Keeps (collect_implicit c t i u)
  unfolding collect_implicit
  collect_implicit-IsKnown t i u k =
      Keeps-if _ _ _
        (Keeps-bind _ _ (collect_read-IsKnown i.regs_read u k) (collect_write-IsKnown i.regs_write))
        (Keeps-ok u k)

  collect_mem-IsKnown : (ids : List ℕ) (u : InstrRegs) → IsKnown u → Keeps (collect_mem c ids u)
  unfolding collect_mem
  collect_mem-IsKnown [] u k = Keeps-ok u k
  collect_mem-IsKnown (id ∷ ids) u k = Keeps-if _ _ _ (collect_mem-IsKnown ids u k) (
      Keeps-describe (c.reg_name id) false _
        λ d h _. collect_mem-IsKnown ids _ (push_all-IsKnown d _ h (push_r-IsKnown d u h k)))

  collect_operand-IsKnown :
      (op : Operand) (u : InstrRegs) → IsKnown u → Keeps (collect_operand c op u)
  unfolding collect_operand
  collect_operand-IsKnown (op_reg id true reads) u k =
      Keeps-describe (c.reg_name id) false _
        λ d _ h. Keeps-ok _ (push_all-IsKnown _ _ h (push_w-IsKnown _ u h k))
  collect_operand-IsKnown (op_reg id false true) u k =
      Keeps-describe (c.reg_name id) false _
        λ d h _. Keeps-ok _ (push_all-IsKnown d _ h (push_r-IsKnown d u h k))
  collect_operand-IsKnown (op_reg id false false) u k =
      Keeps-describe (c.reg_name id) false _ λ d h _. Keeps-ok _ (push_all-IsKnown d u h k)
  collect_operand-IsKnown (op_mem segment base index) u k =
      collect_mem-IsKnown (segment ∷ base ∷ index ∷ []) u k
  collect_operand-IsKnown op_other u k = Keeps-ok u k

  collect_operands-IsKnown :
      (ops : List Operand) (u : InstrRegs) → IsKnown u → Keeps (collect_operands c ops u)
  unfolding collect_operands
  collect_operands-IsKnown [] u k = Keeps-ok u k
  collect_operands-IsKnown (op ∷ ops) u k =
      Keeps-bind _ _ (collect_operand-IsKnown op u k) (collect_operands-IsKnown ops)

  pub collect-IsKnown : (t : Text) (i : Insn) → Keeps (collect c t i)
  unfolding collect collect_explicit
  collect-IsKnown t i =
      Keeps-bind _ _
        (collect_ip-IsKnown t i no_regs (record { w_known = tt; r_known = tt; all_known = tt }))
        λ u k.
          Keeps-bind _ _ (collect_implicit-IsKnown t i u k)
            λ u' k'. Keeps-if _ _ _ (collect_operands-IsKnown i.operands u' k') (Keeps-ok u' k')
