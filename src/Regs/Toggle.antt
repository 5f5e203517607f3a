-- ===== src/Regs/Toggle.antt =====
-- src/regManip.cpp: what `OldByte ^ (1 << BitIdx)` does to the bits of a byte and of the registers.
use zofi.Base.{
  ==_iff, Bool, Bool-cases, List, [], arith, get_elem?, if◌then◌else◌, inl, inr, refl, some, suc,
  true, zero, ℕ, ◌%◌, ◌&&◌, ◌-◌, ◌/◌, ◌<◌, ◌==◌, ◌^◌, ◌∷◌, ◌≡◌,
}
use zofi.Regs.Data.{GpField, GpRegs, gp_index, update_gp}
use Prim.Native.Nat.{bit_xor}

-- Bit number k of a byte.
abbrev pub bit_at : ℕ → ℕ → ℕ
bit_at v k = (v / 2 ^ k) % 2

abbrev pub toggle : ℕ → ℕ → ℕ
toggle v k = bit_xor v (2 ^ k) % 256

every_value : (ℕ → Bool) → ℕ → Bool
every_value test zero = true
every_value test (suc top) = every_value test top && test top

every_value-at :
    (test : ℕ → Bool) (top v : ℕ) → v < top → every_value test top ≡ true → test v ≡ true
unfolding every_value
every_value-at test zero v less passed = absurd (omega arith)
every_value-at test (suc top) v less passed = ground (arith, every_value-at test top v)

toggle_bit : ℕ → ℕ → ℕ → Bool
toggle_bit v k j = bit_at (toggle v k) j == (if j == k then 1 - bit_at v j else bit_at v j)

toggle_table : every_value (λ v. every_value (λ k. every_value (toggle_bit v k) 8) 8) 256 ≡ true
unfolding every_value toggle_bit
toggle_table = refl

-- `OldByte ^ (1 << k)` inverts bit k of a byte and keeps the others.
bit_at-toggle :
    (v k j : ℕ)
    → v < 256
    → k < 8
    → j < 8
    → bit_at (toggle v k) j ≡ (if j == k then 1 - bit_at v j else bit_at v j)
unfolding toggle_bit
bit_at-toggle v k j h p q =
    (==_iff _ _).0
      (every_value-at _ 8 j q (every_value-at _ 8 k p (every_value-at _ 256 v h toggle_table)))

fields : List GpField
fields =
    GpField.r8 ∷ GpField.r9 ∷ GpField.r10 ∷ GpField.r11 ∷ GpField.r12 ∷ GpField.r13 ∷ GpField.r14
    ∷ GpField.r15 ∷ GpField.rbp ∷ GpField.rax ∷ GpField.rbx ∷ GpField.rcx ∷ GpField.rdx
    ∷ GpField.rdi ∷ GpField.rsi ∷ GpField.rsp ∷ GpField.orig_rax ∷ GpField.rip ∷ GpField.cs
    ∷ GpField.eflags ∷ GpField.ss ∷ GpField.fs_base ∷ GpField.gs_base ∷ GpField.ds ∷ GpField.es
    ∷ GpField.fs ∷ GpField.gs ∷ []

of_index-gp_index : (f : GpField) → get_elem? fields (gp_index f) ≡ some f
unfolding fields
of_index-gp_index GpField.r8 = refl
of_index-gp_index GpField.r9 = refl
of_index-gp_index GpField.r10 = refl
of_index-gp_index GpField.r11 = refl
of_index-gp_index GpField.r12 = refl
of_index-gp_index GpField.r13 = refl
of_index-gp_index GpField.r14 = refl
of_index-gp_index GpField.r15 = refl
of_index-gp_index GpField.rbp = refl
of_index-gp_index GpField.rax = refl
of_index-gp_index GpField.rbx = refl
of_index-gp_index GpField.rcx = refl
of_index-gp_index GpField.rdx = refl
of_index-gp_index GpField.rdi = refl
of_index-gp_index GpField.rsi = refl
of_index-gp_index GpField.rsp = refl
of_index-gp_index GpField.orig_rax = refl
of_index-gp_index GpField.rip = refl
of_index-gp_index GpField.cs = refl
of_index-gp_index GpField.eflags = refl
of_index-gp_index GpField.ss = refl
of_index-gp_index GpField.fs_base = refl
of_index-gp_index GpField.gs_base = refl
of_index-gp_index GpField.ds = refl
of_index-gp_index GpField.es = refl
of_index-gp_index GpField.fs = refl
of_index-gp_index GpField.gs = refl

gp_index_inj : (f h : GpField) → gp_index f ≡ gp_index h → f ≡ h
gp_index_inj f h e = cc (of_index-gp_index f, of_index-gp_index h)

-- Every bit of the general purpose registers but bit `bit` of field `f` is kept; that one is
-- inverted.
abbrev pub FlipsGp : GpField → ℕ → GpRegs → GpRegs → Type 0
FlipsGp f bit g g' =
    (h : GpField) (i k : ℕ)
    → k < 8
    → bit_at (g' h i) k ≡ (
        if gp_index h == gp_index f && (i == bit / 8 && k == bit % 8)
        then 1 - bit_at (g h i) k
        else bit_at (g h i) k)

pub update_gp-FlipsGp :
    (f : GpField) (bit : ℕ) (g : GpRegs)
    → ((h : GpField) (i : ℕ) → g h i < 256)
    → FlipsGp f bit g (update_gp g f (bit / 8) (toggle (g f (bit / 8)) (bit % 8)))
unfolding update_gp
update_gp-FlipsGp f bit g bytes h i k lt = elim (Bool-cases (gp_index h == gp_index f)) [
  | inr other ↦ rw (other, update_gp)
  | inl same ↦ elim (Bool-cases (i == bit / 8)) [
    | inr other ↦ rw (same, other, update_gp)
    | inl here ↦
        let e = gp_index_inj h f ((==_iff _ _).0 same) in
        let e' = (==_iff i (bit / 8)).0 here in
        rw (same, here, update_gp)
          (rw (e, e')
            (bit_at-toggle (g f (bit / 8)) (bit % 8) k (bytes f (bit / 8)) (omega arith) lt))
  ]
]
