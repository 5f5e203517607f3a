-- ===== src/Runner/Inject.antt =====
-- src/runner.cpp: runAndWait's loop of attempts, stopChildAfter, doBitFlip and tryInjectFaultAt. How
-- run ends is a parameter.
use zofi.Regs.Data.{RegState}
use zofi.Runner.Child.{attempts}
use zofi.Regs.Manip.{Ptrace, try_bit_flip}
use zofi.Base.{
  Option, none, some, suc, user_die, zero, ◌%◌, ◌+◌, ◌-◌, ◌^◌, Bool, Outcome, assert, die, false,
  if◌then◌else◌, ltb, negsuc, not, ok, pos, true, ℕ, ℤ, ◌&&◌, ◌==◌, ◌>>=◌, ◌>>◌,
}
use zofi.ExitState.Data.{Sys, exit_type_index, exited, get_wait_pid_exit_state, signaled, stopped}
use zofi.Regs.Select.{Selected}

-- How tryInjectFaultAt ends, and how often it increments InjFailed.
pub record Tried : Type 0 where
  pub injected : Bool
  pub failures : ℕ

-- Runner::stopChildAfter, after the threads are joined.
unfoldable pub stop_child_after : Sys → Bool → ℕ → Outcome Bool
stop_child_after sys kill_ok status = if not kill_ok then ok false else (do
  s ← get_wait_pid_exit_state sys status
  if exit_type_index s.exit_type == exit_type_index exited
      then ok false
      else if exit_type_index s.exit_type == exit_type_index signaled
      then ok false
      else if not (exit_type_index s.exit_type == exit_type_index stopped)
      then die
      else ok true)

-- The process that an error is injected to, whose state is an M: what the address space and the
-- choice of register and bit read in it; PTRACE_SINGLESTEP with the waitpid after it, which gives the
-- wait status and the process after the step, unless one of them fails; the requests for its
-- registers; the state of RM; and PTRACE_CONT.
pub record Target (M : Type 0) : Type 0 where
  pub pid : ℤ
  pub in_library : M → Outcome Bool
  pub selected : M → Outcome Selected
  pub step : M → Option (ℕ × M)
  pub ptrace : Ptrace M
  pub rm : RegState
  pub cont : M → Option M

abbrev pub is_above_zero : ℤ → Bool
is_above_zero (pos n) = ltb 0 n
is_above_zero (negsuc n) = false

module _ {M : Type 0} (sys : Sys) where
  -- The single step over an instruction that writes the register, with the process after it. `false`
  -- where the alarm went off.
  unfoldable pub single_step : Target M → M → Outcome (Bool × M)
  single_step t m = elim (t.step m) [
    | none ↦ die
    | some r ↦ do
      s ← get_wait_pid_exit_state sys r.0
      if exit_type_index s.exit_type == exit_type_index stopped && s.val == sys.sigalrm
          then ok (false, r.1)
          else (do
            assert (exit_type_index s.exit_type == exit_type_index stopped && s.val == sys.sigtrap)
            ok (true, r.1))
  ]

  unfoldable pub continued : Option M → Outcome (Bool × M)
  continued none = die
  continued (some m) = ok (true, m)

  -- The end of doBitFlip, on the process as it is when the fault is injected.
  unfoldable pub flip_and_continue : Target M → Selected → M → Outcome (Bool × M)
  flip_and_continue t r m = do
    (done, rm, n) ← try_bit_flip t.ptrace t.rm r.descr.name r.bit m
    if not done then ok (false, n) else continued (t.cont n)

  -- Runner::doBitFlip, with the process after it. The second operand of && is evaluated only after a
  -- true one.
  unfoldable pub do_bit_flip : Bool → Target M → M → Outcome (Bool × M)
  do_bit_flip dont_inject_to_libs t m = do
    assert (is_above_zero t.pid)
    skip ← (if dont_inject_to_libs then t.in_library m else ok false)
    if skip then ok (false, m) else (do
      r ← t.selected m
      if not r.success then ok (false, m) else (do
        (stepped, m1) ← (if r.descr.written then single_step t m else ok (true, m))
        if not stepped then ok (false, m1) else flip_and_continue t r m1))

-- Runner::tryInjectFaultAt, with the number of times that InjFailed is incremented. `killed_ok` is
-- whether killSafe and the waits of the cleanupWaitpidState after it succeed; each dies where it does
-- not. That the cleanup comes to its end is taken for granted.
unfoldable pub try_inject_fault_at : Sys → Bool → ℕ → Outcome Bool → Bool → Outcome Tried
try_inject_fault_at sys kill_ok status flip killed_ok = do
  is_stopped ← stop_child_after sys kill_ok status
  if not is_stopped then ok (record { injected = false; failures = 1 }) else (do
    flipped ← flip
    if not flipped
        then (do assert killed_ok; ok (record { injected = false; failures = 1 }))
        else ok (record { injected = true; failures = 0 }))

-- What one round of runAndWait meets: whether run gives true, and how the injection ends.
pub record Attempt : Type 0 where
  pub started : Bool
  pub tried : Outcome Tried

-- InjectOK after a round.
unfoldable pub attempt_once : Bool → Attempt → Outcome Bool
attempt_once injecting t =
    if not t.started
    then ok false
    else if injecting
    then (do r ← t.tried; ok r.injected)
    else ok false

-- The loop of Runner::runAndWait. `attempts` is the unsigned counter, which wraps, and the result is
-- the number of runs that were started. `none` where the fuel runs out.
unfoldable pub inject_loop : ℕ → Bool → (ℕ → Attempt) → ℕ → ℕ → Option (Outcome ℕ)
inject_loop zero injecting tries k attempts = none
inject_loop (suc fuel) injecting tries k attempts =
    let left = (attempts + (2 ^ 32 - 1)) % 2 ^ 32 in
    let again = inject_loop fuel injecting tries (suc k) left in
    if left == 0 then some user_die else elim (attempt_once injecting (tries k)) [
      | die ↦ some die
      | user_die ↦ some user_die
      | ok inject_ok ↦ if not inject_ok && injecting then again else some (ok (suc k))
    ]
