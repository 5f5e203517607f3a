-- ===== src/Runner/VerdictLaws.antt =====
-- src/runner.cpp: the meaning of the verdict of waitChildAndGetStatus.
use zofi.Base.{
  none, ◌↔◌, arith, Bool-cases, ap, die, inl, inr, ok-injective, sym, Bool, Outcome, false,
  if◌then◌else◌, ok, refl, some, true, ℕ, ◌&&◌, ◌==◌, ◌≡◌, ◌≢◌,
}
use zofi.Statistics.Counts.{
  FtStatus, ft_corrupted, ft_detected, ft_exception, ft_inf_exec, ft_masked,
}
use zofi.ExitState.Compare.{
  is_execution_set, same_execution, same_execution_lem, ExecutionExitState,
}
use zofi.Utils.Text.{Text}
use zofi.Runner.Verdict.{
  on_exit_type, is_positive, is_val, VerdictOptions, World, check_output, get_status,
}
use zofi.ExitState.Data.{
  ExitType, ExitState, Sys, exit_type_index, exited, get_wait_pid_exit_state, invalid, is_set,
  signaled, stopped,
}

-- A detected error, by its exit code, and an infinite execution, by the alarm.
abbrev pub is_detected : VerdictOptions → ExitState → Bool
is_detected opts s =
    exit_type_index s.exit_type == 1
    && (is_positive opts.detection_exit_code && is_val opts.detection_exit_code s.val)

abbrev pub is_alarm : Sys → ExitState → Bool
is_alarm sys s = exit_type_index s.exit_type == 3 && s.val == sys.sigalrm

pub get_wait_pid_exit_state-is_set :
    (sys : Sys) (status : ℕ) (s : ExitState)
    → get_wait_pid_exit_state sys status ≡ ok s
    → is_set s ≡ true
unfolding get_wait_pid_exit_state is_set
get_wait_pid_exit_state-is_set sys status s e = elim (Bool-cases (sys.w_if_exited status)) [
  | inl exit ↦ ap is_set (sym (ok-injective (rw (exit, get_wait_pid_exit_state) at e)))
  | inr stay ↦ elim (Bool-cases (sys.w_if_signaled status)) [
    | inl sig ↦ ap is_set (sym (ok-injective (rw (stay, sig, get_wait_pid_exit_state) at e)))
    | inr calm ↦ elim (Bool-cases (sys.w_if_stopped status)) [
      | inl stop ↦
          ap is_set (sym (ok-injective (rw (stay, calm, stop, get_wait_pid_exit_state) at e)))
      | inr none_of ↦ absurd (stuck (rw (stay, calm, none_of, get_wait_pid_exit_state) at e))
    ]
  ]
]
  where
    stuck : ◌≡◌ {A = Outcome ExitState} die (ok s) → ⊥
    stuck h = cc

abbrev state_of : ExitType → ℕ → ExitState
state_of t v = record { exit_type = t; val = v }

-- The status from a comparison that ran.
abbrev status_of : Sys → VerdictOptions → ExitState → Bool → FtStatus
status_of sys opts s same =
    if is_detected opts s
    then ft_detected
    else if is_alarm sys s
    then ft_inf_exec
    else if same
    then ft_masked
    else if exit_type_index s.exit_type == 1
    then ft_corrupted
    else ft_exception

on_exit_type-checked :
    (sys : Sys) (world : World) (opts : VerdictOptions) (t : ExitType) (v : ℕ) (same : Bool)
    → world.kill_ok ≡ true
    → t ≢ signaled
    → t ≢ invalid
    → on_exit_type sys world opts t v (some (ok same))
      ≡ some (ok (status_of sys opts (state_of t v) same))
unfolding on_exit_type
on_exit_type-checked sys world opts exited v same killed h1 h2 = ground arith
on_exit_type-checked sys world opts stopped v same killed h1 h2 = rw killed (ground arith)
on_exit_type-checked sys world opts signaled v same killed h1 h2 = elim (h1 refl) [ ]
on_exit_type-checked sys world opts invalid v same killed h1 h2 = elim (h2 refl) [ ]

-- The status of a run whose outputs are checked, given that the comparison came out.
get_status-checked :
    (fuel : ℕ) (sys : Sys) (world : World) (opts : VerdictOptions)
    (orig ex_state : ExecutionExitState) (status : ℕ) (s : ExitState) (same : Bool)
    → opts.no_redirect ≡ false
    → world.kill_ok ≡ true
    → get_wait_pid_exit_state sys status ≡ ok s
    → s.exit_type ≢ signaled
    → check_output fuel sys world opts orig (record ex_state { state = s }) ≡ some (ok same)
    → get_status fuel sys world opts false orig ex_state status
      ≡ some (ok (status_of sys opts s same))
unfolding get_status is_set on_exit_type check_output
get_status-checked fuel sys world opts orig ex_state status s same redirect killed got h checked =
    rw (got, get_status)
      (rw (redirect) (
        rw checked (
          on_exit_type-checked sys world opts s.exit_type s.val same killed h
            (λ e. absurd (ground (arith, get_wait_pid_exit_state-is_set sys status s got))))))

status_of-masked :
    (detected alarm same exit : Bool)
    → ◌≡◌ {A = FtStatus}
        (if detected
          then ft_detected
          else if alarm
          then ft_inf_exec
          else if same
          then ft_masked
          else if exit
          then ft_corrupted
          else ft_exception)
        ft_masked
      ↔ ((detected ≡ false) × (alarm ≡ false) × (same ≡ true))
status_of-masked true a s x = (λ e. absurd (cc), λ h. absurd (cc))
status_of-masked false true s x = (λ e. absurd (cc), λ h. absurd (cc))
status_of-masked false false true x = (λ e. (refl, refl, refl), λ h. refl)
status_of-masked false false false true = (λ e. absurd (cc), λ h. absurd (cc))
status_of-masked false false false false = (λ e. absurd (cc), λ h. absurd (cc))

check_output-compared :
    (fuel : ℕ) (sys : Sys) (world : World) (opts : VerdictOptions) (orig test : ExecutionExitState)
    (same : Bool)
    → opts.diff_cmd ≡ none
    → is_execution_set orig ≡ true
    → is_set test.state ≡ true
    → same_execution world.files test orig ≡ ok same
    → check_output fuel sys world opts orig test ≡ some (ok same)
unfolding check_output
check_output-compared fuel sys world opts orig test same default orig_set test_set ran =
    rw (default, orig_set, test_set, ran, check_output) refl

-- Without -diff-cmd and with redirection, for a run that was not terminated by a signal, and where
-- the four output files can be read and the child can be killed: the verdict comes, and it is
-- Masked exactly when the exit code is not that of a detected error, the stop is not the alarm's,
-- and exit type, exit value, stdout and stderr are those of the timing run.
pub get_status-masked_iff :
    (fuel : ℕ) (sys : Sys) (world : World) (opts : VerdictOptions)
    (orig ex_state : ExecutionExitState) (status : ℕ) (s : ExitState) (out err out' err' : Text)
    → opts.no_redirect ≡ false
    → opts.diff_cmd ≡ none
    → world.kill_ok ≡ true
    → is_execution_set orig ≡ true
    → get_wait_pid_exit_state sys status ≡ ok s
    → s.exit_type ≢ signaled
    → world.files.open_fd ex_state.stdout_fd ≡ some out
    → world.files.open_fd ex_state.stderr_fd ≡ some err
    → world.files.open_path orig.stdout_file ≡ some out'
    → world.files.open_path orig.stderr_file ≡ some err'
    → (st : FtStatus) × (get_status fuel sys world opts false orig ex_state status ≡ some (ok st))
      × ((st ≡ ft_masked) ↔ (
          (is_detected opts s ≡ false)
          × (is_alarm sys s ≡ false)
          × (s ≡ orig.state)
          × (out ≡ out')
          × (err ≡ err')))
get_status-masked_iff fuel sys world opts orig ex_state status s out err out' err' redirect default
      killed orig_set got h ho he ho' he' =
    let test = record ex_state { state = s } in
    let (same, ran, iff) =
      same_execution_lem world.files test orig out err out' err' ho he ho' he' in
    let masked =
      status_of-masked (is_detected opts s) (is_alarm sys s) same
        (exit_type_index s.exit_type == 1) in
    let test_set = get_wait_pid_exit_state-is_set sys status s got in
    (
      status_of sys opts s same,
      get_status-checked fuel sys world opts orig ex_state status s same redirect killed got h
          (check_output-compared fuel sys world opts orig test same default orig_set test_set ran),
      (
        λ e. let (d, a, m) = masked.0 e in let (x, y, z) = iff.0 m in (d, a, x, y, z),
        λ (d, a, x, y, z). masked.1 (d, a, iff.1 (x, y, z)),
      ),
    )
