-- ===== src/Options/Rendered.antt =====
-- src/options.cpp: parse on the command lines that give a list of settings.
use zofi.Base.{bind_assoc, bind_congr, List, Outcome, [], ok, refl, some, ◌>>=◌, ◌∙◌, ◌∷◌, ◌≡◌}
use zofi.Utils.Text.{Text, codes}
use zofi.Options.Parse.{Flag, args, needs_value, no_value, parse}

pub data Setting : Type 0 where
  with_value : (option value : Text) → Setting
  switch : Text → Setting

abbrev pub render : List Setting → List Text → List Text
render [] rest = rest
render (with_value f v ∷ l) rest = f ∷ v ∷ render l rest
render (switch f ∷ l) rest = f ∷ render l rest

module _ {S : Type 0} (flag : Text → Flag) (set_value : Text → Text → S → Outcome S) where
  abbrev pub AllKnown : List Setting → Type 0
  AllKnown [] = Unit {0}
  AllKnown (with_value f v ∷ l) = (flag f ≡ needs_value) × AllKnown l
  AllKnown (switch f ∷ l) = (flag f ≡ no_value) × AllKnown l

  -- The settings in order, each on what the one before left.
  abbrev pub apply : List Setting → S → Outcome S
  apply [] s = ok s
  apply (with_value f v ∷ l) s = do s' ← set_value f v s; apply l s'
  apply (switch f ∷ l) s = do s' ← set_value f (codes "1") s; apply l s'

  parse-value :
      (f v : Text) (rest : List Text) (s : S)
      → flag f ≡ needs_value
      → parse flag set_value (f ∷ v ∷ rest) s
        ≡ (set_value f v s >>= λ s'. parse flag set_value rest s')
  unfolding parse
  parse-value f v rest s known = rw (known, parse) refl

  parse-switch :
      (f : Text) (rest : List Text) (s : S)
      → flag f ≡ no_value
      → parse flag set_value (f ∷ rest) s
        ≡ (set_value f (codes "1") s >>= λ s'. parse flag set_value rest s')
  unfolding parse
  parse-switch f [] s known = rw (known, parse) refl
  parse-switch f (v ∷ rest) s known = rw (known, parse) refl

  parse-args :
      (a : Text) (rest : List Text) (s : S)
      → flag a ≡ args
      → parse flag set_value (a ∷ rest) s ≡ ok (s, some rest)
  unfolding parse
  parse-args a [] s known = rw (known, parse) refl
  parse-args a (v ∷ rest) s known = rw (known, parse) refl

  -- A command line of known options with their values, and then -args with its own: parse sets the
  -- options in order, with the errors of their values, and leaves all that follows -args to it.
  pub parse-render :
      (l : List Setting) (a : Text) (rest : List Text) (s : S)
      → AllKnown l
      → flag a ≡ args
      → parse flag set_value (render l (a ∷ rest)) s ≡ (apply l s >>= λ s'. ok (s', some rest))
  parse-render [] a rest s known is_args = parse-args a rest s is_args
  parse-render (with_value f v ∷ l) a rest s known is_args =
      parse-value f v (render l (a ∷ rest)) s known.0
      ∙ bind_congr (set_value f v s) _ _ (λ s'. parse-render l a rest s' known.1 is_args)
      ∙ bind_assoc (set_value f v s) (apply l) (λ s'. ok (s', some rest))
  parse-render (switch f ∷ l) a rest s known is_args =
      parse-switch f (render l (a ∷ rest)) s known.0
      ∙ bind_congr (set_value f (codes "1") s) _ _ (λ s'. parse-render l a rest s' known.1 is_args)
      ∙ bind_assoc (set_value f (codes "1") s) (apply l) (λ s'. ok (s', some rest))
