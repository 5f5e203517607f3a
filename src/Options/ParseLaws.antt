-- ===== src/Options/ParseLaws.antt =====
-- src/options.cpp: parse as a chain of setValueFromStr.
use zofi.Base.{
  >>=-eq-ok, List, Option, Outcome, [], ap, inl, inr, ok, ok-injective, refl, ◌∷◌, ◌≡◌, ◌⊎◌,
}
use zofi.Options.Parse.{Flag, args, needs_value, no_value, parse, unknown}
use mathlib.Core.Path.{subst}
use zofi.Utils.Text.{Text, codes}

Flag-cases : (k : Flag) → (k ≡ unknown) ⊎ ((k ≡ args) ⊎ ((k ≡ needs_value) ⊎ (k ≡ no_value)))
Flag-cases unknown = inl refl
Flag-cases args = inr (inl refl)
Flag-cases needs_value = inr (inr (inl refl))
Flag-cases no_value = inr (inr (inr refl))

module _ {S : Type 0} (flag : Text → Flag) (set_value : Text → Text → S → Outcome S)
    (P : S → Type 0) (step : (f v : Text) (s s' : S) → set_value f v s ≡ ok s' → P s → P s') where
  -- What every setValueFromStr keeps, parse keeps.
  pub parse_invariant :
      (argv : List Text) (s s' : S) (rest : Option (List Text))
      → parse flag set_value argv s ≡ ok (s', rest)
      → P s
      → P s'
  unfolding parse
  parse_invariant [] s s' rest h p = subst P (ap (λ x. x.0) (ok-injective h)) p
  parse_invariant (arg ∷ []) s s' rest h p = elim (Flag-cases (flag arg)) [
    | inl e ↦ cc (rw (e, parse) at h)
    | inr (inl e) ↦ subst P (ap (λ x. x.0) (ok-injective (rw (e, parse) at h))) p
    | inr (inr (inl e)) ↦ cc (rw (e, parse) at h)
    | inr (inr (inr e)) ↦
        let (s1, got, is) = >>=-eq-ok (set_value arg (codes "1") s) _ (rw (e, parse) at h) in
        subst P (ap (λ x. x.0) (ok-injective is)) (step arg (codes "1") s s1 got p)
  ]
  parse_invariant (arg ∷ v ∷ l) s s' rest h p = elim (Flag-cases (flag arg)) [
    | inl e ↦ cc (rw (e, parse) at h)
    | inr (inl e) ↦ subst P (ap (λ x. x.0) (ok-injective (rw (e, parse) at h))) p
    | inr (inr (inl e)) ↦
        let (s1, got, is) = >>=-eq-ok (set_value arg v s) _ (rw (e, parse) at h) in
        parse_invariant l s1 s' rest is (step arg v s s1 got p)
    | inr (inr (inr e)) ↦
        let (s1, got, is) = >>=-eq-ok (set_value arg (codes "1") s) _ (rw (e, parse) at h) in
        parse_invariant (v ∷ l) s1 s' rest is (step arg (codes "1") s s1 got p)
  ]
