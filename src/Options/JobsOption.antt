-- ===== src/Options/JobsOption.antt =====
-- src/options.cpp: what the assignment to Jobs in init leaves alone.
use zofi.Options.Registry.{OptionsMap, find_option}
use zofi.Options.Values.{OptionVar, natural, set_value}
use zofi.Base.{
  >>=-eq-ok, Bool-cases, Option, [], ap, arith, false, inl, inr, none, ok, ok-injective, refl, some,
  some_inj, ℕ, ◌>>=◌, ◌∷◌, ◌≡◌,
}
use zofi.Options.LastValue.{same_flags}
use zofi.Options.Init.{
  as_natural, chars_at, help_messages, natural_at, option_at, or_die, set_jobs, text_at,
  text_if_set, values_of,
}
use zofi.Utils.Text.{Text, codes}
use zofi.Utils.Diff.{same_bytes}

set_jobs-find :
    {D : Type 0} (n : ℕ) (g : Text) (m : OptionsMap D)
    → same_bytes g (codes "-j") ≡ false
    → find_option g (set_jobs n m) ≡ find_option g m
unfolding set_jobs find_option set_value
set_jobs-find n g [] h = refl
set_jobs-find n g (o ∷ m) h = elim (Bool-cases (same_bytes o.flag (codes "-j"))) [
  | inr e ↦ ground (arith, set_jobs-find n g m h)
  | inl e ↦ ground (arith, same_flags o.flag g (codes "-j"))
]

set_jobs-find_jobs :
    {D : Type 0} (n : ℕ) (m : OptionsMap D) (o : OptionVar D)
    → find_option (codes "-j") m ≡ some o
    → find_option (codes "-j") (set_jobs n m) ≡ some (set_value o (natural n))
unfolding set_jobs find_option set_value
set_jobs-find_jobs n [] o h = cc
set_jobs-find_jobs n (x ∷ m) o h = elim (Bool-cases (same_bytes x.flag (codes "-j"))) [
  | inr e ↦ rw (e, e) (set_jobs-find_jobs n m o (rw e at h))
  | inl e ↦ rw (e, e) (ap (λ z. some (set_value z (natural n))) (some_inj (rw e at h)))
]

or_die-some : {A : Type 0} (m : Option A) {a : A} → or_die m ≡ ok a → m ≡ some a
or_die-some none e = cc
or_die-some (some b) e = ap some (ok-injective e)

natural_at-find :
    {D : Type 0} (m : OptionsMap D) (f : Text) {n : ℕ}
    → natural_at m f ≡ ok n
    → (o : OptionVar D) × (find_option f m ≡ some o)
unfolding natural_at option_at
natural_at-find m f e =
    let (o, found, e1) = >>=-eq-ok (option_at m f) _ e in (o, or_die-some (find_option f m) found)

pub set_jobs-natural_at :
    {D : Type 0} (k : ℕ) (m : OptionsMap D) {n : ℕ}
    → natural_at m (codes "-j") ≡ ok n
    → natural_at (set_jobs k m) (codes "-j") ≡ ok k
unfolding natural_at option_at set_value
set_jobs-natural_at k m e =
    let (o, found) = natural_at-find m (codes "-j") e in
    ap (λ x. or_die x >>= λ v. as_natural v.val) (set_jobs-find_jobs k m o found)

option_at-set_jobs :
    {D : Type 0} (k : ℕ) (m : OptionsMap D) (f : Text)
    → same_bytes f (codes "-j") ≡ false
    → option_at (set_jobs k m) f ≡ option_at m f
unfolding option_at
option_at-set_jobs k m f other = ap or_die (set_jobs-find k f m other)

pub values_of-set_jobs :
    {D : Type 0} (k : ℕ) (m : OptionsMap D) → values_of (set_jobs k m) ≡ values_of m
unfolding values_of text_if_set text_at same_bytes
values_of-set_jobs k m =
    rw
      (
        option_at-set_jobs k m (codes "-inject-to") refl,
        option_at-set_jobs k m (codes "-force-inject-to-reg") refl,
        option_at-set_jobs k m (codes "-force-inject-to-bit") refl,
      )
      refl

pub help_messages-set_jobs :
    {D : Type 0} (k : ℕ) (m : OptionsMap D) → help_messages (set_jobs k m) ≡ help_messages m
unfolding help_messages text_if_set text_at same_bytes
help_messages-set_jobs k m =
    rw
      (
        option_at-set_jobs k m (codes "-force-inject-to-reg") refl,
        option_at-set_jobs k m (codes "-force-inject-to-bit") refl,
      )
      refl

pub chars_at-set_jobs :
    {D : Type 0} (k : ℕ) (m : OptionsMap D)
    → chars_at (set_jobs k m) (codes "-bin") ≡ chars_at m (codes "-bin")
unfolding chars_at same_bytes
chars_at-set_jobs k m = rw (option_at-set_jobs k m (codes "-bin") refl) refl

pub injections-set_jobs :
    {D : Type 0} (k : ℕ) (m : OptionsMap D)
    → natural_at (set_jobs k m) (codes "-injections-per-run")
      ≡ natural_at m (codes "-injections-per-run")
unfolding natural_at same_bytes
injections-set_jobs k m = rw (option_at-set_jobs k m (codes "-injections-per-run") refl) refl
