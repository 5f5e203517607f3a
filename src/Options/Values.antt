-- ===== src/Options/Values.antt =====
-- src/options.h: OptionBase and Option<T>. The type argument is a `Kind`, and strtod of the C
-- library with its result type are parameters.
use zofi.Base.{
  to_int, Bool, List, Option, Outcome, [], false, if◌then◌else◌, negsuc, not, ok, pos, some, true,
  user_die, ℕ, ℤ, ◌%◌, ◌==◌, ◌>>=◌, ◌^◌, ◌||◌, ◌∷◌,
}
use zofi.Utils.Number.{is_empty, strtol_safe, strtoul_safe}
use zofi.Utils.Text.{Text}

-- The T of the specializations of getValForStr.
pub data Kind : Type 0 where
  int : Kind
  unsigned : Kind
  bool : Kind
  long : Kind
  ulong : Kind
  cstr : Kind
  string : Kind
  float : Kind
  double : Kind
  cstrs : Kind

pub data Value (D : Type 0) : Type 0 where
  -- int and long.
  signed : ℤ → Value D
  -- unsigned and unsigned long.
  natural : ℕ → Value D
  truth : Bool → Value D
  -- A null pointer is `none`.
  chars : Option Text → Value D
  bytes : Text → Value D
  -- float and double.
  real : D → Value D
  -- A pointer into an array of C strings.
  strings : Option (List Text) → Value D

pub record OptionVar (D : Type 0) : Type 0 where
  pub flag : Text
  pub kind : Kind
  pub description : Text
  pub val : Value D
  pub is_set : Bool

-- The conversion of a long to bool.
abbrev pub to_bool : ℤ → Bool
to_bool (pos n) = not (n == 0)
to_bool (negsuc n) = true

-- getNeedsValue
unfoldable pub kind_needs_value : Kind → Bool
kind_needs_value Kind.bool = false
kind_needs_value k = true

module _ {D : Type 0} (strtod : Text → D × Text) where
  unfoldable pub strtod_safe : Text → Outcome D
  strtod_safe s = let r = strtod s in if is_empty s || not (is_empty r.1) then user_die else ok r.0

  -- getValForStr. `rounded` is the conversion of a double to float.
  unfoldable pub get_val_for_str : (D → D) → Kind → Text → Outcome (Value D)
  get_val_for_str rounded Kind.int s = do v ← strtol_safe s; ok (signed (to_int v))
  get_val_for_str rounded Kind.unsigned s = do v ← strtoul_safe s; ok (natural (v % 2 ^ 32))
  get_val_for_str rounded Kind.bool s = do v ← strtol_safe s; ok (truth (to_bool v))
  get_val_for_str rounded Kind.long s = do v ← strtol_safe s; ok (signed v)
  get_val_for_str rounded Kind.ulong s = do v ← strtoul_safe s; ok (natural v)
  get_val_for_str rounded Kind.cstr s = ok (chars (some s))
  get_val_for_str rounded Kind.string s = ok (bytes s)
  get_val_for_str rounded Kind.float s = do v ← strtod_safe s; ok (real (rounded v))
  get_val_for_str rounded Kind.double s = do v ← strtod_safe s; ok (real v)
  get_val_for_str rounded Kind.cstrs s = ok (strings (some (s ∷ [])))

  -- Option::setValueFromStr
  unfoldable pub set_value_from_str : (D → D) → OptionVar D → Text → Outcome (OptionVar D)
  set_value_from_str rounded opt s = do
    v ← get_val_for_str rounded opt.kind s
    ok (record opt { val = v; is_set = true })

-- Option::setValue
unfoldable pub set_value : {D : Type 0} → OptionVar D → Value D → OptionVar D
set_value opt v = record opt { val = v; is_set = true }
