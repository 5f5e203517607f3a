-- ===== src/Regs/Flip.antt =====
-- src/regManip.cpp: tryBitFlip on the traced process, by the kind of the register.
use zofi.Regs.Toggle.{FlipsGp, toggle, update_gp-FlipsGp}
use zofi.Base.{
  ok-injective, ◌⊎◌, die, ◌↔◌, Option-cases, false, ap, inl, inr, sym, ◌∙◌, String, ok, some, ◌≢◌,
  Bool, arith, refl, true, ◌%◌, ◌/◌, ◌<◌, ◌≡◌, ℕ,
}
use zofi.Regs.Data.{
  in_xsave, in_zmm, in_gp, GpField, GpRegs, Location, RegData, RegState, get_reg_ptr, nullptr,
  update_gp,
}
use zofi.Regs.Manip.{
  export_registers, export_flip, IsPtrace, Ptrace, find, get_reg_data_for_str_safe,
  get_register_contents, get_register_ptr, import_registers_to, read_byte, set_register_contents,
  str_to_reg_map, try_bit_flip, write_byte,
}
use zofi.Regs.XSave.{Bytes}
use zofi.Regs.XSaveLaws.{import_data-ok, imported}

Location-cases : (at : Location) → (at ≡ nullptr) ⊎ (at ≢ nullptr)
Location-cases nullptr = inl refl
Location-cases (in_gp f) = inr (λ e. cc)
Location-cases (in_xsave a) = inr (λ e. cc)
Location-cases (in_zmm r) = inr (λ e. cc)

get_reg_ptr-ok :
    (d : RegData) (at : Location) → d.reg_ptr ≡ at → at ≢ nullptr → get_reg_ptr d ≡ ok at
unfolding get_reg_ptr
get_reg_ptr-ok d nullptr e ne = absurd (ne refl)
get_reg_ptr-ok d at e ne = rw (e, get_reg_ptr)

get_reg_data-ok :
    (r : String) (d : RegData)
    → find r str_to_reg_map ≡ some d
    → get_reg_data_for_str_safe r false ≡ ok d
unfolding get_reg_data_for_str_safe
get_reg_data-ok r d e = rw (e, get_reg_data_for_str_safe)

get_register_contents-ok :
    (s : RegState) (r : String) (bit : ℕ) (d : RegData) (at : Location)
    → find r str_to_reg_map ≡ some d
    → get_reg_ptr d ≡ ok at
    → get_register_contents s r bit ≡ ok (read_byte s at (bit / 8), true)
unfolding get_register_contents get_register_ptr
get_register_contents-ok s r bit d at e h =
    rw (get_reg_data-ok r d e, get_register_contents, get_register_ptr) (rw h)

set_register_contents-ok :
    (s : RegState) (r : String) (v bit : ℕ) (d : RegData) (at : Location)
    → find r str_to_reg_map ≡ some d
    → get_reg_ptr d ≡ ok at
    → at ≢ nullptr
    → set_register_contents s r v bit ≡ ok (true, write_byte s at (bit / 8) v)
unfolding set_register_contents
set_register_contents-ok s r v bit d nullptr e h ne = absurd (ne refl)
set_register_contents-ok s r v bit d at e h ne =
    rw (get_reg_data-ok r d e, set_register_contents) (rw h)

module _ {M : Type 0} (p : Ptrace M) (ptrace : IsPtrace p) where
  -- The buffers after importRegistersTo.
  abbrev pub imported_state : RegState → GpRegs → Bytes → RegState
  imported_state s g x = record {
    gpregs = g;
    vecregs = record { xsave = x; zmm = imported x s.vecregs.zmm };
  }

  abbrev pub flipped_state : RegState → GpRegs → Bytes → Location → ℕ → RegState
  flipped_state s g x at bit =
      let u = imported_state s g x in
      write_byte u at (bit / 8) (toggle (read_byte u at (bit / 8)) (bit % 8))

  import_registers_to-ok :
      (s : RegState) (m : M) (g : GpRegs) (x : Bytes)
      → p.get_regs m ≡ some g
      → p.get_regset m ≡ some x
      → import_registers_to p s m ≡ ok (imported_state s g x)
  unfolding import_registers_to
  import_registers_to-ok s m g x hg hx =
      rw (hg, hx, import_registers_to) (rw (import_data-ok (record s.vecregs { xsave = x })))

  pub try_bit_flip-eq :
      (s : RegState) (r : String) (bit : ℕ) (m : M) (g : GpRegs) (x : Bytes) (d : RegData)
      → p.get_regs m ≡ some g
      → p.get_regset m ≡ some x
      → find r str_to_reg_map ≡ some d
      → (at : Location) → get_reg_ptr d ≡ ok at
      → at ≢ nullptr
      → try_bit_flip p s r bit m ≡ ok (export_flip p (flipped_state s g x at bit) m)
  unfolding try_bit_flip
  try_bit_flip-eq s r bit m g x d hg hx hd at hp ne =
      rw (hd, try_bit_flip)
        (rw (import_registers_to-ok s m g x hg hx) (
          rw (get_register_contents-ok (imported_state s g x) r bit d at hd hp)
            (rw (set_register_contents-ok (imported_state s g x) r _ bit d at hd hp ne))))

  -- What a successful export leaves in the process.
  export_flip-sent :
      (s t : RegState) (m n : M)
      → export_flip p s m ≡ (true, t, n)
      → (p.get_regs n ≡ some s.gpregs) × (p.get_regset n ≡ some s.vecregs.xsave)
  unfolding export_flip export_registers
  export_flip-sent s t m n e = elim (Option-cases (p.set_regs s.gpregs m)) [
    | inl failed ↦ absurd (cc (ap (λ r. r.0) (rw (failed, export_flip, export_registers) at e)))
    | inr (m1, sent) ↦ elim (Option-cases (p.set_regset s.vecregs.xsave m1)) [
      | inl failed ↦ absurd (ground (arith, sent, failed))
      | inr (m2, done) ↦
          let same : m2 ≡ n = ground (arith, sent, done) in
          rw (← same) (
            ptrace.get_regs-set_regset _ m1 m2 done ∙ ptrace.get_regs-set_regs _ m m1 sent,
            ptrace.get_regset-set_regset _ m1 m2 done,
          )
    ]
  ]

  -- After a successful flip the process has the buffers with the modified byte.
  try_bit_flip-sent :
      (s t : RegState) (r : String) (bit : ℕ) (m n : M) (g : GpRegs) (x : Bytes) (d : RegData)
      (at : Location)
      → p.get_regs m ≡ some g
      → p.get_regset m ≡ some x
      → find r str_to_reg_map ≡ some d
      → d.reg_ptr ≡ at
      → at ≢ nullptr
      → try_bit_flip p s r bit m ≡ ok (true, t, n)
      → let w = flipped_state s g x at bit in
        (p.get_regs n ≡ some w.gpregs) × (p.get_regset n ≡ some w.vecregs.xsave)
  try_bit_flip-sent s t r bit m n g x d at hg hx hd hp ne run =
      let ran = try_bit_flip-eq s r bit m g x d hg hx hd at (get_reg_ptr-ok d at hp ne) ne in
      export_flip-sent (flipped_state s g x at bit) t m n (ok-injective (sym ran ∙ run))

  -- A successful flip of a general purpose register inverts that bit of it in the process, keeps
  -- every other bit of the general purpose registers, and keeps the other register set.
  pub try_bit_flip-gp :
      (s t : RegState) (r : String) (bit : ℕ) (m n : M) (g : GpRegs) (x : Bytes) (d : RegData)
      (f : GpField)
      → p.get_regs m ≡ some g
      → p.get_regset m ≡ some x
      → ((h : GpField) (i : ℕ) → g h i < 256)
      → find r str_to_reg_map ≡ some d
      → d.reg_ptr ≡ in_gp f
      → try_bit_flip p s r bit m ≡ ok (true, t, n)
      → (g' : GpRegs) × (p.get_regs n ≡ some g') × FlipsGp f bit g g' × (p.get_regset n ≡ some x)
  unfolding write_byte read_byte
  try_bit_flip-gp s t r bit m n g x d f hg hx bytes hd hp run =
      let sent = try_bit_flip-sent s t r bit m n g x d (in_gp f) hg hx hd hp (λ e. cc) run in
      (
        update_gp g f (bit / 8) (toggle (g f (bit / 8)) (bit % 8)),
        sent.0,
        update_gp-FlipsGp f bit g bytes,
        sent.1,
      )

  -- A successful flip of a vector register changes nothing in the process: the byte is modified in
  -- the `zmm` array, which is never exported.
  pub try_bit_flip-zmm :
      (s t : RegState) (r : String) (bit : ℕ) (m n : M) (g : GpRegs) (x : Bytes) (d : RegData)
      (row : ℕ)
      → p.get_regs m ≡ some g
      → p.get_regset m ≡ some x
      → find r str_to_reg_map ≡ some d
      → d.reg_ptr ≡ in_zmm row
      → try_bit_flip p s r bit m ≡ ok (true, t, n)
      → (p.get_regs n ≡ some g) × (p.get_regset n ≡ some x)
  unfolding write_byte
  try_bit_flip-zmm s t r bit m n g x d row hg hx hd hp run =
      try_bit_flip-sent s t r bit m n g x d (in_zmm row) hg hx hd hp (λ e. cc) run

  try_bit_flip-nullptr :
      (s : RegState) (r : String) (bit : ℕ) (m : M) (g : GpRegs) (x : Bytes) (d : RegData)
      → p.get_regs m ≡ some g
      → p.get_regset m ≡ some x
      → find r str_to_reg_map ≡ some d
      → d.reg_ptr ≡ nullptr
      → try_bit_flip p s r bit m ≡ die
  unfolding try_bit_flip get_register_contents get_register_ptr get_reg_ptr
  try_bit_flip-nullptr s r bit m g x d hg hx hd hp =
      rw (hd, try_bit_flip)
        (rw (import_registers_to-ok s m g x hg hx) (
          rw (get_reg_data-ok r d hd, get_register_contents, get_register_ptr)
            (rw (hp, get_reg_ptr))))

  -- tryBitFlip of a known register in a process whose registers can be read ends the program
  -- exactly when the register has no storage; otherwise it returns.
  pub try_bit_flip-die_iff :
      (s : RegState) (r : String) (bit : ℕ) (m : M) (g : GpRegs) (x : Bytes) (d : RegData)
      → p.get_regs m ≡ some g
      → p.get_regset m ≡ some x
      → find r str_to_reg_map ≡ some d
      → ((try_bit_flip p s r bit m ≡ die) ↔ (d.reg_ptr ≡ nullptr))
        × ((try_bit_flip p s r bit m ≡ die)
            ⊎ ((b : Bool) × (t : RegState) × (n : M) × (try_bit_flip p s r bit m ≡ ok (b, t, n))))
  try_bit_flip-die_iff s r bit m g x d hg hx hd = elim (Location-cases d.reg_ptr) [
    | inl none_there ↦
        let dead = try_bit_flip-nullptr s r bit m g x d hg hx hd none_there in
        ((λ _. none_there, λ _. dead), inl dead)
    | inr there ↦
        let ran =
          try_bit_flip-eq s r bit m g x d hg hx hd d.reg_ptr (get_reg_ptr-ok d d.reg_ptr refl there)
            there in
        let sent = export_flip p (flipped_state s g x d.reg_ptr bit) m in
        ((λ dead. cc, λ e. absurd (there e)), inr (sent.0, sent.1, sent.2, ran))
  ]
