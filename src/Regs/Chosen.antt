-- ===== src/Regs/Chosen.antt =====
-- src/regManip.cpp: getSelectedRegAndBit from the instruction to the choice.
use zofi.Regs.Data.{get_reg_ptr, nullptr, RegDescr, get_bits, RegData}
use zofi.Regs.TableLaws.{in_buffer, find-fits, storage_bits}
use zofi.Base.{
  die, get_or-In, get_or, leb, ltb, lt→ltb, String, refl, ◌⊎◌, >>=-eq-ok, Bool-cases, List, Option,
  Option-cases, Outcome, [], ap, arith, false, inl, inr, none, ok, ok-injective, some, sym, take,
  true, ◌+◌, ◌<◌, ◌∙◌, ◌∷◌, ◌≡◌, ◌≤◌, ℕ,
}
use zofi.Utils.Rand.{rand_safe, rand_safe-lt, Generator}
use zofi.Regs.Select.{
  select_bit, select_reg, no_descr, pick, select, InjectOptions, Selected, candidates,
  get_selected_reg_and_bit,
}
use zofi.Regs.SelectLaws.{select_reg-lt, select_sound}
use zofi.Regs.Known.{
  Known, get_bits-bits, get_reg_data-found, AllKnown, IsKnown, Keeps-ok, Known-In, collect-IsKnown,
}
use zofi.Regs.Insn.{
  collect_explicit, Capstone, Insn, InstrRegs, RegsVec, child_mem, collect, collect_implicit,
  collect_ip, collect_read, collect_write, describe, get_instr_registers, no_regs, push_r, push_w,
}
use zofi.Regs.Manip.{get_reg_data_for_str_safe, find, str_to_reg_map}
use zofi.Utils.Text.{Text, codes, is_in}

get_instr_registers-IsKnown :
    (c : Capstone) (t : Text) (peek : ℕ → ℕ) (ip : ℕ) (v : InstrRegs)
    → get_instr_registers c t peek ip ≡ ok v
    → IsKnown v
unfolding get_instr_registers
get_instr_registers-IsKnown c t peek ip v e =
    let (mem, _, rest) = >>=-eq-ok (child_mem peek ip) _ e in
    let (found, _, last) = >>=-eq-ok (c.disasm (take 8 mem)) _ rest in decoded found last
  where
    decoded :
        (found : Option Insn)
        → ◌≡◌ {A = Outcome InstrRegs}
            (elim found [ none ↦ ok no_regs | some i ↦ collect c t i ])
            (ok v)
        → IsKnown v
    decoded none h = Keeps-ok no_regs (record { w_known = tt; r_known = tt; all_known = tt }) v h
    decoded (some i) h = collect-IsKnown c t i v h

candidates-free :
    (o : InjectOptions) (v : InstrRegs) (regs : RegsVec)
    → o.force_inject_to_reg ≡ none
    → candidates o v ≡ ok regs
    → (regs ≡ v.all_regs) ⊎ ((regs ≡ v.r_regs) ⊎ (regs ≡ v.w_regs))
unfolding candidates
candidates-free o v regs free e = ground arith

candidates-forced :
    (o : InjectOptions) (v : InstrRegs) (regs : RegsVec) (forced : String)
    → o.force_inject_to_reg ≡ some forced
    → candidates o v ≡ ok regs
    → (d : RegDescr) × (regs ≡ d ∷ []) × Known d
unfolding candidates
candidates-forced o v regs forced given e =
    let (rd, data_ok, rest) =
      >>=-eq-ok (get_reg_data_for_str_safe forced true) _ (rw (given, candidates) at e) in
    let (n, bits_ok, built) = >>=-eq-ok (get_bits rd) _ rest in
    (
      record { name = forced; start_bit = rd.start_bit; bits = n; written = false },
      sym (ok-injective built),
      (rd, get_reg_data-found forced true rd data_ok, refl, get_bits-bits rd n bits_ok),
    )

candidates-AllKnown :
    (o : InjectOptions) (v : InstrRegs) (regs : RegsVec)
    → IsKnown v
    → candidates o v ≡ ok regs
    → AllKnown regs
candidates-AllKnown o v regs k e = elim (Option-cases o.force_inject_to_reg) [
  | inl free ↦ elim (candidates-free o v regs free e) [
    | inl all ↦ rw all k.all_known
    | inr (inl reads) ↦ rw reads k.r_known
    | inr (inr writes) ↦ rw writes k.w_known
  ]
  | inr (forced, given) ↦
      let (d, one, known) = candidates-forced o v regs forced given e in rw one (known, tt)
]

get_reg_ptr-nullptr : (d : RegData) → d.reg_ptr ≡ nullptr → get_reg_ptr d ≡ die
unfolding get_reg_ptr
get_reg_ptr-nullptr d e = rw e refl

-- A choice that succeeds names a register of the table, and the bit lies in its bits. Either the
-- register has no storage, so that getRegPtr ends in its assertion, or the bit lies in the field that
-- the register points to, inside the buffer.
pub get_selected-fits :
    {G : Type 0} (rand : Generator G) (c : Capstone) (o : InjectOptions) (peek : ℕ → ℕ) (ip : ℕ)
    (g g' : G) (r : Selected)
    → get_selected_reg_and_bit rand c o peek ip g ≡ ok (r, g')
    → r.success ≡ true
    → (d : RegData) × (find r.descr.name str_to_reg_map ≡ some d)
      × (d.start_bit ≤ r.bit)
      × (r.bit < d.start_bit + d.bits)
      × (((d.reg_ptr ≡ nullptr) × (get_reg_ptr d ≡ die))
          ⊎ ((r.bit < storage_bits d.reg_ptr) × (in_buffer d.reg_ptr ≡ true)))
unfolding get_selected_reg_and_bit
get_selected-fits rand c o peek ip g g' r e s =
    let (v, got, chosen) = >>=-eq-ok (get_instr_registers c o.inject_to peek ip) _ e in
    let (regs, from, there, low, high) = select_sound rand o v g g' r chosen s in
    let (d, found, starts, bits) =
      Known-In regs r.descr
        (candidates-AllKnown o v regs (get_instr_registers-IsKnown c o.inject_to peek ip v got)
          from)
        there in
    (
      d,
      found,
      omega arith,
      omega arith,
      elim (find-fits r.descr.name {d = d} found).1 [
        | inl no_storage ↦ inl (no_storage, get_reg_ptr-nullptr d no_storage)
        | inr (room, inside) ↦ inr (omega arith, inside)
      ],
    )

module _ (c : Capstone) where
  collect_read-all_regs :
      (ids : List ℕ) (u v : InstrRegs) → collect_read c ids u ≡ ok v → v.all_regs ≡ u.all_regs
  unfolding collect_read
  collect_read-all_regs [] u v e = ap (λ (w : InstrRegs). w.all_regs) (sym (ok-injective e))
  collect_read-all_regs (id ∷ ids) u v e =
      let (d, _, rest) = >>=-eq-ok (describe (c.reg_name id) false) _ e in
      collect_read-all_regs ids (push_r d u) v rest

  collect_write-all_regs :
      (ids : List ℕ) (u v : InstrRegs) → collect_write c ids u ≡ ok v → v.all_regs ≡ u.all_regs
  unfolding collect_write
  collect_write-all_regs [] u v e = ap (λ (w : InstrRegs). w.all_regs) (sym (ok-injective e))
  collect_write-all_regs (id ∷ ids) u v e =
      let (d, _, rest) = >>=-eq-ok (describe (c.reg_name id) true) _ e in
      collect_write-all_regs ids (push_w d u) v rest

  collect_implicit-all_regs :
      (t : Text) (i : Insn) (u v : InstrRegs)
      → collect_implicit c t i u ≡ ok v
      → v.all_regs ≡ u.all_regs
  unfolding collect_implicit
  collect_implicit-all_regs t i u v e = elim (Bool-cases (is_in t (codes "i"))) [
    | inl on ↦
        let (w, reads, writes) =
          >>=-eq-ok (collect_read c i.regs_read u) _ (rw (on, collect_implicit) at e) in
        collect_write-all_regs i.regs_write w v writes ∙ collect_read-all_regs i.regs_read u w reads
    | inr off ↦
        ap (λ (w : InstrRegs). w.all_regs) (sym (ok-injective (rw (off, collect_implicit) at e)))
  ]

  -- With none of e, c and o in -inject-to nothing is added to the vector of all registers.
  collect_implicit_only :
      (t : Text) (i : Insn) (v : InstrRegs)
      → is_in t (codes "e") ≡ false
      → is_in t (codes "c") ≡ false
      → is_in t (codes "o") ≡ false
      → collect c t i ≡ ok v
      → v.all_regs ≡ []
  unfolding collect collect_explicit collect_ip
  collect_implicit_only t i v he hc ho e =
      let (u, ip, rest) = >>=-eq-ok (collect_ip t i no_regs) _ e in
      let (w, implicit, explicit) = >>=-eq-ok (collect_implicit c t i u) _ rest in
      let last : w ≡ v = ok-injective (rw (he, collect_explicit) at explicit) in
      let first : no_regs ≡ u = ok-injective (rw (hc, ho, collect_ip) at ip) in
      ap (λ (x : InstrRegs). x.all_regs) (sym last)
      ∙ collect_implicit-all_regs t i u w implicit
      ∙ ap (λ (x : InstrRegs). x.all_regs) (sym first)

-- -inject-to with r and w, and none of e, c and o, so that only i can stand beside them: the
-- implicitly accessed registers are never added to the vector that is chosen from, and no choice
-- succeeds, whatever the instruction.
pub select_implicit_only :
    {G : Type 0} (rand : Generator G) (c : Capstone) (o : InjectOptions) (i : Insn) (v : InstrRegs)
    (g : G)
    → o.force_inject_to_reg ≡ none
    → is_in o.inject_to (codes "r") ≡ true
    → is_in o.inject_to (codes "w") ≡ true
    → is_in o.inject_to (codes "e") ≡ false
    → is_in o.inject_to (codes "c") ≡ false
    → is_in o.inject_to (codes "o") ≡ false
    → collect c o.inject_to i ≡ ok v
    → (r : Selected) × (select rand o v g ≡ ok (r, g)) × (r.success ≡ false)
unfolding select candidates pick
select_implicit_only rand c o i v g forced hr hw he hc ho got =
    let empty = collect_implicit_only c o.inject_to i v he hc ho got in
    (
      record { descr = no_descr; bit = 0; success = false },
      rw (forced, select, candidates) (rw (hr, hw) (rw (empty, pick))),
      refl,
    )

module _ {G : Type 0} (rand : Generator G) where
  select_bit-total :
      (o : InjectOptions) (d : RegDescr) (g : G)
      → o.force_inject_to_bit ≡ none
      → 0 < d.bits
      → (r : Selected) × (g' : G) × (select_bit rand o d g ≡ ok (r, g')) × (r.success ≡ true)
  unfolding select_bit
  select_bit-total o d g free h =
      let drawn = rand_safe rand d.bits g in
      let low : leb d.start_bit (d.start_bit + drawn.0) ≡ true = ground arith in
      let high : ltb (d.start_bit + drawn.0) (d.start_bit + d.bits) ≡ true =
        lt→ltb _ _ (omega (arith, rand_safe-lt rand d.bits g h)) in
      (
        record { descr = d; bit = d.start_bit + drawn.0; success = true },
        drawn.1,
        rw (free, select_bit) (rw (low, high)),
        refl,
      )

  -- Where the bit is not forced and the options leave a register of the instruction to choose from,
  -- the choice succeeds: its assertion holds for every number that rand draws.
  pub select-total :
      (o : InjectOptions) (v : InstrRegs) (d : RegDescr) (ds : RegsVec) (g : G)
      → o.force_inject_to_bit ≡ none
      → IsKnown v
      → candidates o v ≡ ok (d ∷ ds)
      → (r : Selected) × (g' : G) × (select rand o v g ≡ ok (r, g')) × (r.success ≡ true)
  unfolding select pick
  select-total o v d ds g free k e =
      let chosen = select_reg rand o (d ∷ ds) g in
      let x = get_or (d ∷ ds) chosen.0 d in
      let (rd, found, starts, bits) =
        Known-In (d ∷ ds) x (candidates-AllKnown o v (d ∷ ds) k e)
          (get_or-In (d ∷ ds) chosen.0 d (select_reg-lt rand o d ds g)) in
      let (r, g', ran, good) =
        select_bit-total o x chosen.1 free (omega (arith, (find-fits x.name {d = rd} found).0)) in
      (r, g', rw (e, select) ran, good)
