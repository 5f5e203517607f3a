-- ===== src/Options/ValuesLaws.antt =====
-- src/options.h: the values that setValueFromStr can give.
use zofi.Base.{
  to_int, >>=-eq-ok, Bool, Bool-cases, false, if◌then◌else◌, inl, inr, ltb, ltb→lt, negate, ok,
  ok-injective, suc, sym, true, zero, ◌%◌, ◌-◌, ◌≡◌, ◌≤◌, arith, negsuc, pos, ℕ, ℤ, ◌<◌, ◌^◌,
}
use Prim.Native.Nat.{min}
use zofi.Options.Values.{
  OptionVar, get_val_for_str, set_value, set_value_from_str, strtod_safe, Kind, Value, bytes, chars,
  natural, real, signed, strings, truth,
}
use zofi.Utils.Number.{
  sign_of, skip_spaces, starts_with_digit, strtol_safe, strtoul_safe, strtol, strtoul,
}
use mathlib.Core.Path.{subst}
use zofi.Utils.Text.{Text}

-- A two's complement number of `bits + 1` bits.
abbrev pub InRange : ℕ → ℤ → Type 0
InRange bits (pos n) = n < 2 ^ bits
InRange bits (negsuc n) = n < 2 ^ bits

-- The value is one that a variable of this type can hold.
abbrev pub HasKind : {D : Type 0} → Kind → Value D → Type 0
HasKind Kind.int (signed z) = InRange 31 z
HasKind Kind.long (signed z) = InRange 63 z
HasKind Kind.unsigned (natural n) = n < 2 ^ 32
HasKind Kind.ulong (natural n) = n < 2 ^ 64
HasKind Kind.bool (truth b) = Unit
HasKind Kind.cstr (chars s) = Unit
HasKind Kind.string (bytes s) = Unit
HasKind Kind.float (real x) = Unit
HasKind Kind.double (real x) = Unit
HasKind Kind.cstrs (strings l) = Unit
HasKind k v = ⊥

to_int-InRange : (z : ℤ) → InRange 31 (to_int z)
unfolding to_int
to_int-InRange (pos n) = elim (Bool-cases (ltb (n % 2 ^ 32) (2 ^ 31))) [
  | inl e ↦ rw e (ltb→lt _ _ e)
  | inr e ↦ rw e (ground arith)
]
to_int-InRange (negsuc n) = elim (Bool-cases (ltb (2 ^ 32 - 1 - n % 2 ^ 32) (2 ^ 31))) [
  | inl e ↦ rw e (ltb→lt _ _ e)
  | inr e ↦ rw e (ground arith)
]

negate-InRange : (m : ℕ) → m ≤ 2 ^ 63 → InRange 63 (negate m)
negate-InRange zero h = omega arith
negate-InRange (suc m) h = omega arith

clamped :
    (minus : Bool) (n : ℕ)
    → InRange 63 (if minus then negate (min n (2 ^ 63)) else pos (min n (2 ^ 63 - 1)))
clamped true n = negate-InRange (min n (2 ^ 63)) (omega arith)
clamped false n = omega arith

strtol-InRange : (s : Text) → InRange 63 (strtol s).0
unfolding strtol
strtol-InRange s = elim (Bool-cases (starts_with_digit (sign_of (skip_spaces s)).1)) [
  | inl e ↦ rw e (clamped (sign_of (skip_spaces s)).0 _)
  | inr e ↦ rw e (omega arith)
]

strtoul-lt : (s : Text) → (strtoul s).0 < 2 ^ 64
unfolding strtoul
strtoul-lt s = ground arith

-- A value that is given is the one that was read.
strtol_safe-InRange : (s : Text) {z : ℤ} → strtol_safe s ≡ ok z → InRange 63 z
unfolding strtol_safe
strtol_safe-InRange s {z = z} h = subst (InRange 63) (ground arith) (strtol-InRange s)

strtoul_safe-lt : (s : Text) {n : ℕ} → strtoul_safe s ≡ ok n → n < 2 ^ 64
unfolding strtoul_safe
strtoul_safe-lt s h = ground (arith, strtoul-lt s)

module _ {D : Type 0} (strtod : Text → D × Text) (rounded : D → D) where
  get_val_for_str-HasKind :
      (k : Kind) (s : Text) {v : Value D} → get_val_for_str strtod rounded k s ≡ ok v → HasKind k v
  unfolding get_val_for_str
  get_val_for_str-HasKind Kind.int s h =
      let (z, read, e) = >>=-eq-ok (strtol_safe s) _ h in
      subst (HasKind Kind.int) (ok-injective e) (to_int-InRange z)
  get_val_for_str-HasKind Kind.unsigned s h =
      let (n, read, e) = >>=-eq-ok (strtoul_safe s) _ h in
      subst (HasKind Kind.unsigned) (ok-injective e) (omega arith)
  get_val_for_str-HasKind Kind.bool s h =
      let (z, read, e) = >>=-eq-ok (strtol_safe s) _ h in
      subst (HasKind Kind.bool) (ok-injective e) tt
  get_val_for_str-HasKind Kind.long s h =
      let (z, read, e) = >>=-eq-ok (strtol_safe s) _ h in
      subst (HasKind Kind.long) (ok-injective e) (strtol_safe-InRange s read)
  get_val_for_str-HasKind Kind.ulong s h =
      let (n, read, e) = >>=-eq-ok (strtoul_safe s) _ h in
      subst (HasKind Kind.ulong) (ok-injective e) (strtoul_safe-lt s read)
  get_val_for_str-HasKind Kind.cstr s h = subst (HasKind Kind.cstr) (ok-injective h) tt
  get_val_for_str-HasKind Kind.string s h = subst (HasKind Kind.string) (ok-injective h) tt
  get_val_for_str-HasKind Kind.float s h =
      let (x, read, e) = >>=-eq-ok (strtod_safe strtod s) _ h in
      subst (HasKind Kind.float) (ok-injective e) tt
  get_val_for_str-HasKind Kind.double s h =
      let (x, read, e) = >>=-eq-ok (strtod_safe strtod s) _ h in
      subst (HasKind Kind.double) (ok-injective e) tt
  get_val_for_str-HasKind Kind.cstrs s h = subst (HasKind Kind.cstrs) (ok-injective h) tt

  -- setValueFromStr sets the option and gives it a value of its type; the declaration stays.
  pub set_value_from_str-HasKind :
      (opt : OptionVar D) (s : Text) {opt' : OptionVar D}
      → set_value_from_str strtod rounded opt s ≡ ok opt'
      → (v : Value D) × (HasKind opt.kind v) × (opt' ≡ set_value opt v)
  unfolding set_value_from_str set_value
  set_value_from_str-HasKind opt s h =
      let (v, got, e) = >>=-eq-ok (get_val_for_str strtod rounded opt.kind s) _ h in
      (v, get_val_for_str-HasKind opt.kind s got, sym (ok-injective e))
