-- ===== src/Runner/InitFiles.antt =====
-- src/exitState.cpp: ExecutionExitState::initFiles, with the snprintf of the names and mkstempSafe;
-- and RunnerBase::RunnerBase on it. FnameSz is a parameter, as is mkstemp: from the descriptors and
-- the files of the system and a template, the descriptor and the path of a new file.
use zofi.Base.{
  Bool, Option, Outcome, die, if◌then◌else◌, none, not, ok, some, take, user_die, ℕ, ℤ, ◌++◌, ◌-◌,
  ◌>>=◌, ◌∷◌,
}
use zofi.Runner.Lifecycle.{Kernel, LifeOptions, Made, RunnerBase, make_runner}
use zofi.Utils.Print.{signed_decimal}
use zofi.Utils.Text.{Text, codes}

abbrev pub placeholder : Text
placeholder = codes "XXXXXX"

-- `%s.%ld.XXXXXX` with the prefix of the option and the Id.
unfoldable pub file_template : Text → ℤ → Text
file_template prefix id = prefix ++ b'.' ∷ (signed_decimal id ++ b'.' ∷ placeholder)

-- snprintf: as much as fits with the final zero.
unfoldable pub snprintf : ℕ → Text → Text
snprintf fname_sz s = take (fname_sz - 1) s

-- mkstempSafe
unfoldable pub mkstemp_safe : Option Made → Kernel → Outcome (Made × Kernel)
mkstemp_safe none k = die
mkstemp_safe (some f) k = ok (f, record { open_fds = f.fd ∷ k.open_fds; files = f.path ∷ k.files })

module _ (fname_sz : ℕ) (mkstemp : Kernel → Text → Option Made) where
  -- ExecutionExitState::initFiles: the file of the standard output and that of the standard error.
  unfoldable pub init_files : Text → Text → ℤ → Kernel → Outcome (Made × Made × Kernel)
  init_files out_prefix err_prefix id k = do
    (out, k') ← mkstemp_safe (mkstemp k (snprintf fname_sz (file_template out_prefix id))) k
    (err, k'') ← mkstemp_safe (mkstemp k' (snprintf fname_sz (file_template err_prefix id))) k'
    ok (out, err, k'')

  -- RunnerBase::RunnerBase with the names of the options; the binary is looked for before any file
  -- is made.
  unfoldable pub named_runner :
      LifeOptions → (Text → Bool) → Text → Text → ℤ → Kernel → Outcome (RunnerBase × Kernel)
  named_runner opts stat_ok out_prefix err_prefix id k =
      if not (stat_ok opts.binary) then user_die else do
        (out, err, k') ← init_files out_prefix err_prefix id k
        make_runner opts stat_ok (some out) (some err) k
