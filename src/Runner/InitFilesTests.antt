-- ===== src/Runner/InitFilesTests.antt =====
-- initFiles with an mkstemp that tries two names.
use mathlib.Core.Path.{subst}
use zofi.Base.{
  Bool-cases, inl, inr, some_inj, sym, ◌∙◌, ◌⊎◌, Bool, List, Option, [], ap, arith, die, drop,
  false, length, length-append, none, ok, pos, refl, some, suc, take, true, ℕ, ◌++◌, ◌-◌, ◌==◌, ◌∷◌,
  ◌≡◌, ◌≤◌,
}
use zofi.Runner.InitFiles.{mkstemp_safe, file_template, init_files, placeholder, snprintf}
use zofi.Runner.InitFilesLaws.{Fits, IsMkstemp, file_name, init_files-cut, init_files_lem}
use zofi.Utils.Print.{decimal, decimal_digits, signed_decimal}
use zofi.Runner.Lifecycle.{Kernel, Made, file_known}
use Prim.Native.Nat.{max}
use zofi.Runner.Wait.{mem}
use zofi.Utils.Diff.{same_bytes}
use zofi.Utils.Text.{Text, codes}

abbrev above_fds : List ℕ → ℕ
above_fds [] = 3
above_fds (d ∷ l) = max (suc d) (above_fds l)

above_fds-mem : (fd : ℕ) (l : List ℕ) → above_fds l ≤ fd → mem fd l ≡ false
unfolding mem
above_fds-mem fd [] h = refl
above_fds-mem fd (d ∷ l) h = ground (arith, above_fds-mem fd l)

-- A new file in the first of two names that is free; no file where both are taken.
abbrev made_at : Kernel → Text → Made
made_at k path = record { fd = above_fds k.open_fds; path = path }

abbrev last_name : Bool → Kernel → Text → Option Made
last_name true k path = none
last_name false k path = some (made_at k path)

abbrev first_name : Bool → Kernel → Text → Text → Option Made
first_name true k path other = last_name (file_known other k.files) k other
first_name false k path other = some (made_at k path)

abbrev new_file : Bool → Kernel → Text → Option Made
new_file false k name = none
new_file true k name =
    first_name (file_known (name ++ codes "aaaaaa") k.files) k (name ++ codes "aaaaaa")
      (name ++ codes "aaaaab")

abbrev sample_mkstemp : Kernel → Text → Option Made
sample_mkstemp k t =
    new_file (same_bytes (drop (length t - 6) t) placeholder) k (take (length t - 6) t)

drop-append : (s t : Text) → drop (length s) (s ++ t) ≡ t
drop-append [] t = refl
drop-append (c ∷ s) t = drop-append s t

take-append : (s t : Text) → take (length s) (s ++ t) ≡ s
take-append [] t = refl
take-append (c ∷ s) t = ap (λ l. c ∷ l) (take-append s t)

sample_mkstemp-named :
    (k : Kernel) (name : Text) → sample_mkstemp k (name ++ placeholder) ≡ new_file true k name
unfolding same_bytes
sample_mkstemp-named k name =
    let size : length (name ++ placeholder) - 6 ≡ length name =
      omega (arith, length-append {0} name placeholder) in
    rw (size, drop-append name placeholder, take-append name placeholder) refl

-- What the manual page says of a file that was made.
abbrev IsNew : Kernel → Text → Made → Type 0
IsNew k name f =
    (six : Text) × (f.path ≡ name ++ six)
    × (length six ≡ 6)
    × (mem f.fd k.open_fds ≡ false)
    × (file_known f.path k.files ≡ false)

made_at-IsNew :
    (k : Kernel) (name six : Text) (f : Made)
    → length six ≡ 6
    → file_known (name ++ six) k.files ≡ false
    → made_at k (name ++ six) ≡ f
    → IsNew k name f
made_at-IsNew k name six f size new e =
    subst (IsNew k name) e
      (six, refl, size, above_fds-mem (above_fds k.open_fds) k.open_fds (omega arith), new)

new_file-IsNew :
    (k : Kernel) (name : Text) (f : Made) → new_file true k name ≡ some f → IsNew k name f
new_file-IsNew k name f e = elim (Bool-cases (file_known (name ++ codes "aaaaaa") k.files)) [
  | inr free ↦ made_at-IsNew k name (codes "aaaaaa") f refl free (some_inj (rw free at e))
  | inl taken ↦ elim (Bool-cases (file_known (name ++ codes "aaaaab") k.files)) [
    | inr free ↦
        made_at-IsNew k name (codes "aaaaab") f refl free (some_inj (rw (taken, free) at e))
    | inl none_left ↦ absurd (cc (rw (taken, none_left) at e))
  ]
]

sample_mkstemp-IsMkstemp : IsMkstemp sample_mkstemp
sample_mkstemp-IsMkstemp = record {
  opens = λ k name f e. new_file-IsNew k name f (sym (sample_mkstemp-named k name) ∙ e);
  refuses = λ k t e. rw e refl;
}

abbrev fresh_kernel : Kernel
fresh_kernel = record { open_fds = 0 ∷ 1 ∷ 2 ∷ []; files = codes "/tmp/zofi.Stdin.7.aaaaaa" ∷ [] }

abbrev out_prefix : Text
out_prefix = codes "/tmp/zofi.Stdout"

abbrev err_prefix : Text
err_prefix = codes "/tmp/zofi.Stdout"

room : Fits 4096 out_prefix (pos 7)
unfolding file_template signed_decimal decimal decimal_digits
room = omega arith

init_files_lem_example :
    ((init_files 4096 sample_mkstemp out_prefix err_prefix (pos 7) fresh_kernel ≡ die)
      × ((sample_mkstemp fresh_kernel (file_name out_prefix (pos 7) ++ placeholder) ≡ none)
          ⊎ ((out : Made) × (sample_mkstemp fresh_kernel
                  (file_name out_prefix (pos 7) ++ placeholder)
                ≡ some out)
              × (sample_mkstemp
                    (record {
                      open_fds = out.fd ∷ fresh_kernel.open_fds;
                      files = out.path ∷ fresh_kernel.files;
                    })
                    (file_name err_prefix (pos 7) ++ placeholder)
                  ≡ none))))
    ⊎ ((out : Made) × (err : Made) × (six : Text) × (six' : Text) × (init_files 4096 sample_mkstemp
            out_prefix err_prefix
            (pos 7)
            fresh_kernel
          ≡ ok (
            out,
            err,
            record {
              open_fds = err.fd ∷ out.fd ∷ fresh_kernel.open_fds;
              files = err.path ∷ out.path ∷ fresh_kernel.files;
            },
          ))
        × (out.path ≡ file_name out_prefix (pos 7) ++ six)
        × (err.path ≡ file_name err_prefix (pos 7) ++ six')
        × ((length six ≡ 6) × (length six' ≡ 6))
        × (same_bytes err.path out.path ≡ false)
        × ((file_known out.path fresh_kernel.files ≡ false)
            × (file_known err.path fresh_kernel.files ≡ false))
        × ((err.fd == out.fd) ≡ false)
        × ((mem out.fd fresh_kernel.open_fds ≡ false) × (mem err.fd fresh_kernel.open_fds ≡ false)))
init_files_lem_example =
    init_files_lem 4096 sample_mkstemp sample_mkstemp-IsMkstemp out_prefix err_prefix (pos 7)
      fresh_kernel room room

-- Both files are made, the second under the name that the first left free.
abbrev stdout_7 : Made
stdout_7 = record { fd = 3; path = codes "/tmp/zofi.Stdout.7.aaaaaa" }

abbrev stderr_7 : Made
stderr_7 = record { fd = 4; path = codes "/tmp/zofi.Stdout.7.aaaaab" }

both_made :
    init_files 4096 sample_mkstemp out_prefix err_prefix (pos 7) fresh_kernel
    ≡ ok (
      stdout_7,
      stderr_7,
      record {
        open_fds = 4 ∷ 3 ∷ fresh_kernel.open_fds;
        files = stderr_7.path ∷ stdout_7.path ∷ fresh_kernel.files;
      },
    )
unfolding init_files mkstemp_safe snprintf file_template signed_decimal decimal decimal_digits
    same_bytes file_known
both_made = refl

-- With room for 24 characters the template of Stdout keeps only five of its six X.
cut_at_24 : init_files 25 sample_mkstemp out_prefix err_prefix (pos 7) fresh_kernel ≡ die
unfolding file_template signed_decimal decimal decimal_digits snprintf same_bytes
cut_at_24 =
    init_files-cut 25 sample_mkstemp sample_mkstemp-IsMkstemp out_prefix err_prefix (pos 7)
      fresh_kernel refl
