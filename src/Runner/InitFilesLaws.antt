-- ===== src/Runner/InitFilesLaws.antt =====
-- src/exitState.cpp: the files that initFiles makes.
use zofi.Base.{
  Option-cases, inl, inr, ◌⊎◌, Option, [], ap, arith, die, drop, false, length, none, ok, refl,
  some, suc, take, zero, ℕ, ℤ, ◌++◌, ◌-◌, ◌<◌, ◌==◌, ◌∙◌, ◌∷◌, ◌≡◌, ◌≤◌,
}
use zofi.Runner.InitFiles.{file_template, init_files, mkstemp_safe, placeholder, snprintf}
use zofi.Utils.Print.{signed_decimal}
use zofi.Utils.Diff.{same_bytes}
use zofi.Runner.Wait.{mem}
use zofi.Runner.Lifecycle.{Kernel, Made, file_known}
use mathlib.Core.List.{append_assoc}
use zofi.Utils.Text.{Text}

-- The manual page of mkstemp: the last six characters of a template must be the placeholder. Where
-- mkstemp succeeds, they are replaced such that the path is new, and the file is opened on a
-- descriptor that is not open. It may fail, `none`, also for a good template.
pub record IsMkstemp (mkstemp : Kernel → Text → Option Made) : Type 0 where
  pub opens :
      (k : Kernel) (name : Text) (f : Made)
      → mkstemp k (name ++ placeholder) ≡ some f
      → (six : Text) × (f.path ≡ name ++ six)
        × (length six ≡ 6)
        × (mem f.fd k.open_fds ≡ false)
        × (file_known f.path k.files ≡ false)
  pub refuses :
      (k : Kernel) (t : Text)
      → same_bytes (drop (length t - 6) t) placeholder ≡ false
      → mkstemp k t ≡ none

-- The name before the placeholder.
abbrev pub file_name : Text → ℤ → Text
file_name prefix id = prefix ++ b'.' ∷ (signed_decimal id ++ b'.' ∷ [])

file_template-name :
    (prefix : Text) (id : ℤ) → file_template prefix id ≡ file_name prefix id ++ placeholder
unfolding file_template
file_template-name prefix id = simp append_assoc

take_all : (n : ℕ) (s : Text) → length s ≤ n → take n s ≡ s
take_all zero [] h = refl
take_all (suc n) [] h = refl
take_all zero (c ∷ s) h = absurd (omega arith)
take_all (suc n) (c ∷ s) h = ap (λ t. c ∷ t) (take_all n s (omega arith))

-- The template is not cut when it fits.
abbrev pub Fits : ℕ → Text → ℤ → Type 0
Fits fname_sz prefix id = length (file_template prefix id) < fname_sz

snprintf-Fits :
    (fname_sz : ℕ) (prefix : Text) (id : ℤ)
    → Fits fname_sz prefix id
    → snprintf fname_sz (file_template prefix id) ≡ file_name prefix id ++ placeholder
unfolding snprintf
snprintf-Fits fname_sz prefix id h =
    take_all (fname_sz - 1) (file_template prefix id) (omega arith) ∙ file_template-name prefix id

module _ (fname_sz : ℕ) (mkstemp : Kernel → Text → Option Made) (made : IsMkstemp mkstemp)
    (out_prefix err_prefix : Text) (id : ℤ) (k : Kernel) where
  -- The kernel after the first file is made.
  abbrev pub with_file : Made → Kernel
  with_file f = record { open_fds = f.fd ∷ k.open_fds; files = f.path ∷ k.files }

  -- Where both templates fit in FnameSz: either one of the two calls of mkstemp fails and initFiles
  -- ends the program, or it comes back with two files, each named by its option's prefix, the Id and
  -- six more characters, whose paths are new and differ, also where the two prefixes are the same, on
  -- two descriptors that were not open.
  pub init_files_lem :
      Fits fname_sz out_prefix id
      → Fits fname_sz err_prefix id
      → ((init_files fname_sz mkstemp out_prefix err_prefix id k ≡ die)
          × ((mkstemp k (file_name out_prefix id ++ placeholder) ≡ none)
              ⊎ ((out : Made) × (mkstemp k (file_name out_prefix id ++ placeholder) ≡ some out)
                  × (mkstemp (with_file out) (file_name err_prefix id ++ placeholder) ≡ none))))
        ⊎ ((out : Made) × (err : Made) × (six : Text) × (six' : Text) × (init_files fname_sz mkstemp
                out_prefix err_prefix id k
              ≡ ok (
                out,
                err,
                record {
                  open_fds = err.fd ∷ out.fd ∷ k.open_fds;
                  files = err.path ∷ out.path ∷ k.files;
                },
              ))
            × (out.path ≡ file_name out_prefix id ++ six)
            × (err.path ≡ file_name err_prefix id ++ six')
            × ((length six ≡ 6) × (length six' ≡ 6))
            × (same_bytes err.path out.path ≡ false)
            × ((file_known out.path k.files ≡ false) × (file_known err.path k.files ≡ false))
            × ((err.fd == out.fd) ≡ false)
            × ((mem out.fd k.open_fds ≡ false) × (mem err.fd k.open_fds ≡ false)))
  unfolding init_files mkstemp_safe mem file_known
  init_files_lem fits fits' =
      let cut = snprintf-Fits fname_sz out_prefix id fits in
      let cut' = snprintf-Fits fname_sz err_prefix id fits' in
      elim (Option-cases (mkstemp k (file_name out_prefix id ++ placeholder))) [
        | inl failed ↦ inl (rw (cut, failed) refl, inl failed)
        | inr (out, opened) ↦
            elim (Option-cases (mkstemp (with_file out) (file_name err_prefix id ++ placeholder))) [
              | inl failed ↦ inl (rw (cut, opened, cut', failed) refl, inr (out, opened, failed))
              | inr (err, opened') ↦
                  let (six, path, size, closed, new) =
                    made.opens k (file_name out_prefix id) out opened in
                  let (six', path', size', closed', new') =
                    made.opens (with_file out) (file_name err_prefix id) err opened' in
                  inr (
                    out,
                    err,
                    six,
                    six',
                    rw (cut, opened, cut', opened') refl,
                    path,
                    path',
                    (size, size'),
                    ground arith,
                    (new, ground arith),
                    ground arith,
                    (closed, ground arith),
                  )
            ]
      ]

  -- When the template of the standard output is cut such that it does not end in the placeholder,
  -- initFiles ends the program.
  pub init_files-cut :
      (let t = snprintf fname_sz (file_template out_prefix id) in
        same_bytes (drop (length t - 6) t) placeholder ≡ false)
      → init_files fname_sz mkstemp out_prefix err_prefix id k ≡ die
  unfolding init_files mkstemp_safe
  init_files-cut cut =
      rw (made.refuses k (snprintf fname_sz (file_template out_prefix id)) cut) refl
