-- ===== src/Options/LastValue.antt =====
-- src/options.cpp: the option that a setting of the command line is about, and the other ones.
use zofi.Base.{
  bind_assoc, bind_congr, ◌++◌, ◌>>=◌, ap, some_inj, sym, ◌∙◌, >>=-eq-ok, Bool, Bool-cases, List,
  [], arith, false, inl, inr, ok, ok-injective, refl, some, true, ◌||◌, ◌∷◌, ◌≡◌,
}
use zofi.Options.Registry.{
  with_args, flag_of, parse_options, OptionsMap, args_flag, find_option, set_args, set_option,
}
use zofi.Options.Rendered.{AllKnown, parse-render, render, apply, Setting, switch, with_value}
use zofi.Options.Parse.{Flag, args, parse}
use zofi.Utils.Text.{codes, Text}
use zofi.Options.Values.{OptionVar, Value, get_val_for_str, set_value, set_value_from_str}
use zofi.Utils.Diff.{same_bytes, same_bytes-eq}
use zofi.Options.ValuesLaws.{set_value_from_str-HasKind}
use mathlib.Core.Path.{subst}

-- The flag of a setting is f.
abbrev pub mentions : Text → List Setting → Bool
mentions f [] = false
mentions f (with_value g v ∷ l) = same_bytes g f || mentions f l
mentions f (switch g ∷ l) = same_bytes g f || mentions f l

pub same_flags :
    (a b c : Text) → same_bytes a b ≡ true → same_bytes a c ≡ true → same_bytes b c ≡ true
same_flags a b c p q = subst (λ t. same_bytes t c ≡ true) (same_bytes-eq a b p) q

set_args-find :
    {D : Type 0} (g : Text) (l : List Text) (m : OptionsMap D)
    → same_bytes g args_flag ≡ false
    → find_option g (set_args l m) ≡ find_option g m
unfolding set_args find_option set_value
set_args-find g l [] n = refl
set_args-find g l (o ∷ m) n = elim (Bool-cases (same_bytes o.flag args_flag)) [
  | inr e ↦ ground (arith, set_args-find g l m n)
  | inl e ↦ ground (arith, same_flags o.flag g args_flag)
]

module _ {D : Type 0} (strtod : Text → D × Text) (rounded : D → D) where
  -- setValueFromStr by a flag leaves the option of another alone.
  set_option-other :
      (f s g : Text) (m : OptionsMap D) {m' : OptionsMap D}
      → set_option strtod rounded f s m ≡ ok m'
      → same_bytes f g ≡ false
      → find_option g m' ≡ find_option g m
  unfolding set_option find_option set_value
  set_option-other f s g [] h n = cc
  set_option-other f s g (o ∷ m) h n = elim (Bool-cases (same_bytes o.flag f)) [
    | inl e ↦
        let (o', got, e') = >>=-eq-ok (set_value_from_str strtod rounded o s) _ (rw e at h) in
        let (v, typed, is) = set_value_from_str-HasKind strtod rounded o s got in
        subst (λ x. find_option g x ≡ find_option g (o ∷ m))
          (ap (λ x. x ∷ m) (sym is) ∙ ok-injective e') (ground (arith, same_flags o.flag f g e))
    | inr e ↦
        let (m1, got, e') = >>=-eq-ok (set_option strtod rounded f s m) _ (rw e at h) in
        subst (λ x. find_option g x ≡ find_option g (o ∷ m)) (ok-injective e')
          (ground (arith, set_option-other f s g m got n))
  ]

  -- ... and gives its own the value.
  set_option_self :
      (f s : Text) (m : OptionsMap D) (o : OptionVar D) {m' : OptionsMap D}
      → set_option strtod rounded f s m ≡ ok m'
      → find_option f m ≡ some o
      → (v : Value D) × (get_val_for_str strtod rounded o.kind s ≡ ok v)
        × (find_option f m' ≡ some (set_value o v))
  unfolding set_option find_option set_value_from_str set_value
  set_option_self f s [] o h is = cc
  set_option_self f s (x ∷ m) o {m' = m'} h is = elim (Bool-cases (same_bytes x.flag f)) [
    | inl e ↦
        let (o', got, e') = >>=-eq-ok (set_value_from_str strtod rounded x s) _ (rw e at h) in
        let (v, read, is') = >>=-eq-ok (get_val_for_str strtod rounded x.kind s) _ got in
        subst
          (λ t.
            (v : Value D) × (get_val_for_str strtod rounded t.kind s ≡ ok v)
            × (find_option f m' ≡ some (set_value t v)))
          (some_inj (rw e at is))
          (
            v,
            read,
            subst (λ z. find_option f z ≡ some (set_value x v))
                (ap (λ z. z ∷ m) (ok-injective is') ∙ ok-injective e') (rw e refl),
          )
    | inr e ↦
        let (m1, got, e') = >>=-eq-ok (set_option strtod rounded f s m) _ (rw e at h) in
        let (v, read, found) = set_option_self f s m o got (rw e at is) in
        (
          v,
          read,
          subst (λ z. find_option f z ≡ some (set_value o v)) (ok-injective e') (rw e found),
        )
  ]

-- The option by a flag, in a later state of the map.
abbrev Later : {D : Type 0} → Text → OptionVar D → OptionsMap D → Type 0
Later {D} g o m =
    (o1 : OptionVar D) × (find_option g m ≡ some o1)
    × (o1.kind ≡ o.kind)
    × ((v : Value D) → set_value o1 v ≡ set_value o v)

module _ {D : Type 0} (strtod : Text → D × Text) (rounded : D → D) where
  set_option-Later :
      (f s g : Text) (m : OptionsMap D) (o : OptionVar D) {m' : OptionsMap D}
      → set_option strtod rounded f s m ≡ ok m'
      → find_option g m ≡ some o
      → Later g o m'
  unfolding set_value
  set_option-Later f s g m o {m' = m'} h is = elim (Bool-cases (same_bytes f g)) [
    | inl e ↦
        let same = same_bytes-eq f g e in
        let (v, read, found) = set_option_self strtod rounded f s m o h (rw same is) in
        (
          set_value o v,
          subst (λ t. find_option t m' ≡ some (set_value o v)) same found,
          refl,
          λ w. refl,
        )
    | inr e ↦ (o, set_option-other strtod rounded f s g m h e ∙ is, refl, λ w. refl)
  ]

  Later-set_option :
      (f s g : Text) (m : OptionsMap D) (o : OptionVar D) {m' : OptionsMap D}
      → set_option strtod rounded f s m ≡ ok m'
      → Later g o m
      → Later g o m'
  Later-set_option f s g m o h (o1, found, same, wins) =
      let (o2, found2, same2, wins2) = set_option-Later f s g m o1 h found in
      (o2, found2, same2 ∙ same, λ v. wins2 v ∙ wins v)

  apply-Later :
      (flag : Text → Flag) (l : List Setting) (g : Text) (m : OptionsMap D) (o : OptionVar D)
      {m' : OptionsMap D}
      → apply flag (set_option strtod rounded) l m ≡ ok m'
      → Later g o m
      → Later g o m'
  apply-Later flag [] g m o h k = subst (Later g o) (ok-injective h) k
  apply-Later flag (with_value f v ∷ l) g m o h k =
      let (m1, got, rest) = >>=-eq-ok (set_option strtod rounded f v m) _ h in
      apply-Later flag l g m1 o rest (Later-set_option f v g m o got k)
  apply-Later flag (switch f ∷ l) g m o h k =
      let (m1, got, rest) = >>=-eq-ok (set_option strtod rounded f (codes "1") m) _ h in
      apply-Later flag l g m1 o rest (Later-set_option f (codes "1") g m o got k)

  apply-other :
      (flag : Text → Flag) (l : List Setting) (g : Text) (m : OptionsMap D) {m' : OptionsMap D}
      → apply flag (set_option strtod rounded) l m ≡ ok m'
      → mentions g l ≡ false
      → find_option g m' ≡ find_option g m
  apply-other flag [] g m h n = ap (find_option g) (sym (ok-injective h))
  apply-other flag (with_value f v ∷ l) g m h n =
      let (m1, got, rest) = >>=-eq-ok (set_option strtod rounded f v m) _ h in
      apply-other flag l g m1 rest (ground arith)
      ∙ set_option-other strtod rounded f v g m got (ground arith)
  apply-other flag (switch f ∷ l) g m h n =
      let (m1, got, rest) = >>=-eq-ok (set_option strtod rounded f (codes "1") m) _ h in
      apply-other flag l g m1 rest (ground arith)
      ∙ set_option-other strtod rounded f (codes "1") g m got (ground arith)

  apply-append :
      (flag : Text → Flag) (l1 l2 : List Setting) (m : OptionsMap D)
      → apply flag (set_option strtod rounded) (l1 ++ l2) m ≡ (
          apply flag (set_option strtod rounded) l1 m >>= λ m1.
          apply flag (set_option strtod rounded) l2 m1)
  apply-append flag [] l2 m = refl
  apply-append flag (with_value f v ∷ l1) l2 m =
      bind_congr (set_option strtod rounded f v m) _ _ (λ m1. apply-append flag l1 l2 m1)
      ∙ bind_assoc (set_option strtod rounded f v m) _ _
  apply-append flag (switch f ∷ l1) l2 m =
      bind_congr (set_option strtod rounded f (codes "1") m) _ _ (λ m1. apply-append flag l1 l2 m1)
      ∙ bind_assoc (set_option strtod rounded f (codes "1") m) _ _

  apply-last :
      (flag : Text → Flag) (l1 l2 : List Setting) (f s : Text) (m : OptionsMap D) (o : OptionVar D)
      {m' : OptionsMap D}
      → find_option f m ≡ some o
      → mentions f l2 ≡ false
      → apply flag (set_option strtod rounded) (l1 ++ with_value f s ∷ l2) m ≡ ok m'
      → (v : Value D) × (get_val_for_str strtod rounded o.kind s ≡ ok v)
        × (find_option f m' ≡ some (set_value o v))
  apply-last flag l1 l2 f s m o is last h =
      let set = set_option strtod rounded in
      let (m1, first, more) =
        >>=-eq-ok (apply flag set l1 m) _
          (sym (apply-append flag l1 (with_value f s ∷ l2) m) ∙ h) in
      let (m2, here, after) = >>=-eq-ok (set f s m1) _ more in
      let (o1, found, same, wins) = apply-Later flag l1 f m o first (o, is, refl, λ v. refl) in
      let (v, read, found2) = set_option_self strtod rounded f s m1 o1 here found in
      (
        v,
        subst (λ k. get_val_for_str strtod rounded k s ≡ ok v) same read,
        apply-other flag l2 f m2 after last ∙ found2 ∙ ap some (wins v),
      )

  -- On a command line of known settings that ends in -args, the last setting of an option by
  -- another flag wins: if parse comes to its end, the option is set, with what its type reads in
  -- that text.
  pub parse_options-last :
      (l1 l2 : List Setting) (f s : Text) (rest : List Text) (m : OptionsMap D) (o : OptionVar D)
      {m' : OptionsMap D}
      → AllKnown (flag_of m) (set_option strtod rounded) (l1 ++ with_value f s ∷ l2)
      → flag_of m args_flag ≡ args
      → same_bytes f args_flag ≡ false
      → find_option f m ≡ some o
      → mentions f l2 ≡ false
      → parse_options strtod rounded (render (l1 ++ with_value f s ∷ l2) (args_flag ∷ rest)) m
        ≡ ok m'
      → (v : Value D) × (get_val_for_str strtod rounded o.kind s ≡ ok v)
        × (find_option f m' ≡ some (set_value o v))
  unfolding parse_options
  parse_options-last l1 l2 f s rest m o {m' = m'} known is_args other is last h =
      let set = set_option strtod rounded in
      let line = l1 ++ with_value f s ∷ l2 in
      let parsed = parse-render (flag_of m) set line args_flag rest m known is_args in
      let (r, got, e) = >>=-eq-ok (parse (flag_of m) set (render line (args_flag ∷ rest)) m) _ h in
      let (m3, all, e3) = >>=-eq-ok (apply (flag_of m) set line m) _ (sym parsed ∙ got) in
      let (v, read, found) = apply-last (flag_of m) l1 l2 f s m o is last all in
      (
        v,
        read,
        subst (λ z. find_option f z ≡ some (set_value o v))
            (ap with_args (ok-injective e3) ∙ ok-injective e)
            (set_args-find f rest m3 other ∙ found),
      )
