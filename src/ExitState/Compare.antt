-- ===== src/ExitState/Compare.antt =====
-- src/exitState.cpp: ExecutionExitState and its comparison with defaultDiff. What a file holds is a
-- parameter: by descriptor for the files of this run, by path for those of the other.
use zofi.Base.{
  ap, ◌∙◌, arith, refl, Bool, Option, Outcome, [], die, false, if◌then◌else◌, negsuc, none, not, ok,
  pos, some, true, ℤ, ◌&&◌, ◌==◌, ◌>>=◌, ◌↔◌, ◌≡◌, ℕ,
}
use zofi.ExitState.Data.{
  ExitType, exit_type_index, exited, invalid, signaled, stopped, ExitState, is_set, same_state,
  unset,
}
use zofi.Utils.Diff.{default_diff_lem, default_diff}
use zofi.Utils.Text.{Text}

pub record ExecutionExitState : Type 0 where
  pub state : ExitState
  pub stdout_fd : ℤ
  pub stderr_fd : ℤ
  pub stdout_file : Text
  pub stderr_file : Text

-- ExecutionExitState::ExecutionExitState()
abbrev pub no_execution : ExecutionExitState
no_execution = record {
  state = unset;
  stdout_fd = negsuc 0;
  stderr_fd = negsuc 0;
  stdout_file = [];
  stderr_file = [];
}

abbrev is_minus_one : ℤ → Bool
is_minus_one (pos n) = false
is_minus_one (negsuc n) = n == 0

-- ExecutionExitState::isSet
unfoldable pub is_execution_set : ExecutionExitState → Bool
is_execution_set e =
    (not (is_minus_one e.stdout_fd) && not (is_minus_one e.stderr_fd)) && is_set e.state

-- open(2) of a path for reading, and fdopen(3) of a descriptor: the bytes, or a failure.
pub record Files : Type 0 where
  pub open_path : Text → Option Text
  pub open_fd : ℤ → Option Text

abbrev or_die {ℓ} : {A : Type ℓ} → Option A → Outcome A
or_die none = die
or_die (some a) = ok a

-- ExecutionExitState::operator==. The second operand of && is evaluated only after a true one.
unfoldable pub same_execution : Files → ExecutionExitState → ExecutionExitState → Outcome Bool
same_execution files a b = do
  other_out ← or_die (files.open_path b.stdout_file)
  other_err ← or_die (files.open_path b.stderr_file)
  if same_state a.state b.state
      then (do
        mine ← or_die (files.open_fd a.stdout_fd)
        same ← or_die (default_diff mine other_out)
        if same
            then (do
              mine_err ← or_die (files.open_fd a.stderr_fd)
              or_die (default_diff mine_err other_err))
            else ok false)
      else ok false

same_type : (s t : ExitType) → exit_type_index s ≡ exit_type_index t → s ≡ t
same_type invalid invalid e = refl
same_type exited exited e = refl
same_type signaled signaled e = refl
same_type stopped stopped e = refl
same_type invalid exited e = absurd (omega (arith, e))
same_type invalid signaled e = absurd (omega (arith, e))
same_type invalid stopped e = absurd (omega (arith, e))
same_type exited invalid e = absurd (omega (arith, e))
same_type exited signaled e = absurd (omega (arith, e))
same_type exited stopped e = absurd (omega (arith, e))
same_type signaled invalid e = absurd (omega (arith, e))
same_type signaled exited e = absurd (omega (arith, e))
same_type signaled stopped e = absurd (omega (arith, e))
same_type stopped invalid e = absurd (omega (arith, e))
same_type stopped exited e = absurd (omega (arith, e))
same_type stopped signaled e = absurd (omega (arith, e))

make_state : ExitType → ℕ → ExitState
make_state t v = record { exit_type = t; val = v }

pub same_state_iff : (a b : ExitState) → (same_state a b ≡ true) ↔ (a ≡ b)
unfolding same_state make_state
same_state_iff a b = (
  λ h.
      ap (λ t. make_state t a.val) (same_type a.exit_type b.exit_type (ground arith))
      ∙ ap (make_state b.exit_type) (ground arith),
  λ e. rw e (ground arith),
)

-- The outputs of the two runs, where their files can be read, are compared in full: the result is
-- true exactly when exit type, exit value, stdout and stderr agree.
pub same_execution_lem :
    (files : Files) (a b : ExecutionExitState) (out err out' err' : Text)
    → files.open_fd a.stdout_fd ≡ some out
    → files.open_fd a.stderr_fd ≡ some err
    → files.open_path b.stdout_file ≡ some out'
    → files.open_path b.stderr_file ≡ some err'
    → (same : Bool) × (same_execution files a b ≡ ok same)
      × ((same ≡ true) ↔ ((a.state ≡ b.state) × (out ≡ out') × (err ≡ err')))
unfolding same_execution
same_execution_lem files a b out err out' err' ho he ho' he' =
    let (o, ran_out, iff_out) = default_diff_lem out out' in
    let (e, ran_err, iff_err) = default_diff_lem err err' in
    (
      same_state a.state b.state && (o && e),
      rw (ho', he', ho, he) (rw (ran_out, ran_err) (ground arith)),
      (
        λ h. (
          (same_state_iff a.state b.state).0 (ground arith),
          iff_out.0 (ground arith),
          iff_err.0 (ground arith),
        ),
        λ h. ground (arith, (same_state_iff a.state b.state).1 h.0, iff_out.1 h.1, iff_err.1 h.2),
      ),
    )
