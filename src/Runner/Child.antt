-- ===== src/Runner/Child.antt =====
-- src/runner.cpp: the child's side of RunnerBase::run, up to the program that it becomes, and the
-- children of the attempts of runAndWait. src/utils.h: alarmSafe. The calls of the system and the
-- arithmetic of doubles are parameters; the text of an error message is left out.
use zofi.Base.{
  Bool, List, Option, Outcome, [], die, false, if◌then◌else◌, none, ok, some, true, ℕ, ◌>>=◌, ◌∷◌,
}
use zofi.Utils.Text.{Text}

-- What the code does with doubles. `micros` is (unsigned long)(Secs * 1000000) and `ceil` is
-- std::ceil as the unsigned argument of alarm.
pub record Floats (D : Type 0) : Type 0 where
  pub plus : D → D → D
  pub times : D → D → D
  pub le_one : D → Bool
  pub micros : D → ℕ
  pub ceil : D → ℕ

-- The system: P is the state of a process, with its descriptors and its timer, and W is that of
-- the open files, which a child shares with its parent.
pub record Unix (P W : Type 0) : Type 0 where
  pub fork : P → P
  pub forkpty : P → P
  pub dup : ℕ → P → Option ℕ × P
  pub dup2 : ℕ → ℕ → P → P
  pub ftruncate : ℕ → ℕ → P → W → W
  pub ualarm : ℕ → P → P
  pub alarm : ℕ → P → P
  pub traceme : P → Bool × P
  pub execve : Text → List (Option Text) → List (Option Text) → P → Option P

pub record ChildOptions (D : Type 0) : Type 0 where
  pub binary : Text
  pub argv : List (Option Text)
  pub argp : List (Option Text)
  pub no_redirect : Bool
  pub inf_exec_timeout_base : D
  pub inf_exec_timeout_mul : D
  pub bin_exec_time : Option D

module _ {D P W : Type 0} (floats : Floats D) (unix : Unix P W) where
  unfoldable pub alarm_safe : D → P → P
  alarm_safe secs p =
      if floats.le_one secs
      then unix.ualarm (floats.micros secs) p
      else unix.alarm (floats.ceil secs) p

  -- The timeout of a run that is not the timing run.
  unfoldable pub inf_exec_timeout : ChildOptions D → D → D
  inf_exec_timeout o t = floats.plus o.inf_exec_timeout_base (floats.times t o.inf_exec_timeout_mul)

  -- `if (TimeoutAlarm)`, with the assertion that the execution time is known.
  unfoldable pub set_timeout : Bool → ChildOptions D → P → Outcome P
  set_timeout false o p = ok p
  set_timeout true o p = elim o.bin_exec_time [
    | none ↦ die
    | some t ↦ ok (alarm_safe (inf_exec_timeout o t) p)
  ]

  -- OldStdout and OldStderr.
  unfoldable pub save_output : Bool → P → P
  save_output true p = p
  save_output false p = (unix.dup 2 (unix.dup 1 p).1).1

  -- The two calls of ftruncate and the two of dup2.
  unfoldable pub redirect : Bool → ℕ → ℕ → P → W → P × W
  redirect true out err p w = (p, w)
  redirect false out err p w =
      (unix.dup2 err 2 (unix.dup2 out 1 p), unix.ftruncate err 0 p (unix.ftruncate out 0 p w))

  -- execve comes back only when it fails.
  unfoldable pub executed : Option P → W → Outcome (P × W)
  executed none w = die
  executed (some p) w = ok (p, w)

  unfoldable pub start_program : ChildOptions D → Bool × P → W → Outcome (P × W)
  start_program o (false, p) w = die
  start_program o (true, p) w = executed (unix.execve o.binary o.argv o.argp p) w

  -- The child's side of RunnerBase::run, with the descriptors of the two files: the process that runs
  -- the program, and the files as the program finds them.
  unfoldable pub child_side : Bool → ChildOptions D → ℕ → ℕ → P → W → Outcome (P × W)
  child_side timeout_alarm o out err p w = do
    p ← set_timeout timeout_alarm o (save_output o.no_redirect p)
    start_program o (unix.traceme (redirect o.no_redirect out err p w).0)
        (redirect o.no_redirect out err p w).1

  unfoldable pub fork_child : Bool → P → P
  fork_child no_redirect p = if no_redirect then unix.fork p else unix.forkpty p

  -- The attempts of runAndWait that come to an execve, one after the other: each program does to the
  -- files what it does, and the next child is forked from the same parent.
  unfoldable pub attempts : ChildOptions D → ℕ → ℕ → P → List (P → W → W) → W → Outcome W
  attempts o out err p [] w = ok w
  attempts o out err p (program ∷ l) w = do
    (c, w) ← child_side true o out err (fork_child o.no_redirect p) w
    attempts o out err p l (program c w)
