-- ===== src/Base/Exits.antt =====
-- What a function of the program ends in: a value, `die` (a bug report and `abort`, also a failed
-- `assert`, which the default build keeps), or `userDie` (a message and `exit(1)`).
use mathlib.Core.Path.{◌≡◌, refl}
use mathlib.Core.Bool.{Bool, true, false}

pub data Outcome {ℓ} (A : Type ℓ) : Type ℓ where
  ok : A → Outcome A
  die : Outcome A
  user_die : Outcome A

infixl 5 ◌>>=◌ ◌>>◌
-- The rest of a function runs only on a value.
abbrev pub ◌>>=◌ {ℓ κ} : {A : Type ℓ} {B : Type κ} → Outcome A → (A → Outcome B) → Outcome B
die >>= rest = die
user_die >>= rest = user_die
ok x >>= rest = rest x

-- assert(b)
abbrev pub assert : Bool → Outcome (Unit {0})
assert false = die
assert true = ok tt

abbrev pub ◌>>◌ {κ} : {B : Type κ} → Outcome (Unit {0}) → Outcome B → Outcome B
test >> rest = test >>= (λ done. rest)

pub ok-injective {ℓ} : {A : Type ℓ} {a b : A} → ok a ≡ ok b → a ≡ b
ok-injective e = cc

pub >>=-eq-ok {ℓ κ} :
    {A : Type ℓ} {B : Type κ} (first : Outcome A) (rest : A → Outcome B) {result : B}
    → (first >>= rest) ≡ ok result
    → (x : A) × (first ≡ ok x) × (rest x ≡ ok result)
>>=-eq-ok die rest h = cc
>>=-eq-ok user_die rest h = cc
>>=-eq-ok (ok x) rest h = (x, refl, h)

pub bind_congr {ℓ κ} :
    {A : Type ℓ} {B : Type κ} (m : Outcome A) (f g : A → Outcome B)
    → ((a : A) → f a ≡ g a)
    → (m >>= f) ≡ (m >>= g)
bind_congr die f g h = refl
bind_congr user_die f g h = refl
bind_congr (ok a) f g h = h a

pub bind_assoc {ℓ κ μ} :
    {A : Type ℓ} {B : Type κ} {C : Type μ} (m : Outcome A) (f : A → Outcome B) (g : B → Outcome C)
    → (m >>= λ a. f a >>= g) ≡ ((m >>= f) >>= g)
bind_assoc die f g = refl
bind_assoc user_die f g = refl
bind_assoc (ok a) f g = refl
