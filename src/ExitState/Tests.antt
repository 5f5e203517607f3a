-- ===== src/ExitState/Tests.antt =====
-- The comparison of two runs on concrete files.
use zofi.Base.{Bool, [], ok, pos, refl, some, true, ◌↔◌, ◌∷◌, ◌≡◌}
use zofi.Utils.Text.{Text, codes}
use zofi.ExitState.Data.{ExitState, exited}
use zofi.ExitState.Compare.{ExecutionExitState, Files, same_execution, same_execution_lem}

abbrev exited_3 : ExitState
exited_3 = record { exit_type = exited; val = 3 }

abbrev this_run : ExecutionExitState
this_run = record {
  state = exited_3;
  stdout_fd = pos 4;
  stderr_fd = pos 5;
  stdout_file = codes "/tmp/a";
  stderr_file = codes "/tmp/b";
}

-- Every file has the same contents.
abbrev same_files : Files
same_files = record { open_path = λ p. some (1 ∷ 2 ∷ []); open_fd = λ d. some (1 ∷ 2 ∷ []) }

same_execution_lem_example :
    (same : Bool) × (same_execution same_files this_run this_run ≡ ok same)
    × ((same ≡ true) ↔ (
        (exited_3 ≡ exited_3)
        × (◌≡◌ {A = Text} (1 ∷ 2 ∷ []) (1 ∷ 2 ∷ []))
        × (◌≡◌ {A = Text} (1 ∷ 2 ∷ []) (1 ∷ 2 ∷ []))))
same_execution_lem_example =
    same_execution_lem same_files this_run this_run (1 ∷ 2 ∷ []) (1 ∷ 2 ∷ []) (1 ∷ 2 ∷ [])
      (1 ∷ 2 ∷ []) refl refl refl refl

abbrev all_exist : Text → Bool
all_exist s = true
