-- ===== src/Runner/Lifecycle.antt =====
-- src/runner.cpp: the constructor and the destructor of RunnerBase and the parent's side of run. The
-- descriptor table of the process and the files that exist are lists; what mkstemp and forkpty give
-- is a parameter.
use zofi.Base.{
  Bool, List, Option, Outcome, [], assert, die, false, if◌then◌else◌, none, not, ok, some, true,
  user_die, ℕ, ◌>>=◌, ◌>>◌, ◌||◌, ◌∷◌,
}
use zofi.Runner.Wait.{erase, mem}
use zofi.Utils.Text.{Text}
use zofi.Utils.Diff.{same_bytes}

-- The part of the system that a runner changes.
pub record Kernel : Type 0 where
  pub open_fds : List ℕ
  pub files : List Text

-- RunnerBase. A descriptor that is -1 is `none`.
pub record RunnerBase : Type 0 where
  pub argv : List (Option Text)
  pub child_pid : ℕ
  pub child_threads : List ℕ
  pub child_terminal_fd : Option ℕ
  pub stdout_fd : Option ℕ
  pub stderr_fd : Option ℕ
  pub stdout_file : Text
  pub stderr_file : Text

pub record LifeOptions : Type 0 where
  pub binary : Text
  pub args : Option (List Text)
  pub no_redirect : Bool
  pub no_cleanup : Bool

-- closeSafe: close fails on a descriptor that is not open.
unfoldable pub close_safe : ℕ → Kernel → Outcome Kernel
close_safe fd k = do assert (mem fd k.open_fds); ok (record k { open_fds = erase fd k.open_fds })

-- A descriptor of -1 is left alone.
unfoldable pub close_if_open : Option ℕ → Kernel → Outcome Kernel
close_if_open none k = ok k
close_if_open (some fd) k = close_safe fd k

unfoldable pub file_known : Text → List Text → Bool
file_known f [] = false
file_known f (g ∷ l) = same_bytes f g || file_known f l

unfoldable pub file_erase : Text → List Text → List Text
file_erase f [] = []
file_erase f (g ∷ l) = let rest = file_erase f l in if same_bytes f g then l else g ∷ rest

-- `if (File[0] != '\0') removeSafe(File)`; remove fails on a file that does not exist.
unfoldable pub remove_if_named : Text → Kernel → Outcome Kernel
remove_if_named [] k = ok k
remove_if_named (c ∷ f) k = do
  assert (file_known (c ∷ f) k.files)
  ok (record k { files = file_erase (c ∷ f) k.files })

-- A file that mkstemp makes, with its descriptor.
pub record Made : Type 0 where
  pub fd : ℕ
  pub path : Text

unfoldable pub args_list : Option (List Text) → List (Option Text)
args_list none = none ∷ []
args_list (some []) = none ∷ []
args_list (some (a ∷ l)) = some a ∷ args_list (some l)

-- RunnerBase::RunnerBase; the environment is handed on as it is. `none` is an mkstemp that fails.
unfoldable pub make_runner :
    LifeOptions → (Text → Bool) → Option Made → Option Made → Kernel → Outcome (RunnerBase × Kernel)
make_runner opts stat_ok none err k = if not (stat_ok opts.binary) then user_die else die
make_runner opts stat_ok (some out) none k = if not (stat_ok opts.binary) then user_die else die
make_runner opts stat_ok (some out) (some err) k =
    if not (stat_ok opts.binary)
    then user_die
    else ok (
      record {
        argv = some opts.binary ∷ args_list opts.args;
        child_pid = 0;
        child_threads = [];
        child_terminal_fd = none;
        stdout_fd = some out.fd;
        stderr_fd = some err.fd;
        stdout_file = out.path;
        stderr_file = err.path;
      },
      record k { open_fds = err.fd ∷ out.fd ∷ k.open_fds; files = err.path ∷ out.path ∷ k.files },
    )

-- RunnerBase::closeOpenTerminal
unfoldable pub close_open_terminal : RunnerBase → Kernel → Outcome Kernel
close_open_terminal r k = close_if_open r.child_terminal_fd k

-- What one call of run meets: the child's pid and the descriptor of its terminal, unless the fork
-- fails, and whether waitpid, PTRACE_SETOPTIONS and PTRACE_CONT succeed.
pub record Started : Type 0 where
  pub forked : Option (ℕ × ℕ)
  pub wait_ok : Bool
  pub set_options_ok : Bool
  pub cont_ok : Bool

-- The rest of the parent's side of RunnerBase::run, after the fork.
unfoldable pub after_fork : Started → RunnerBase → Kernel → Outcome (Bool × RunnerBase × Kernel)
after_fork st r k = do
  assert st.wait_ok
  if not st.set_options_ok then ok (false, r, k) else do assert st.cont_ok; ok (true, r, k)

-- From the fork on, by -no-redirect: forkpty with redirection, and else fork.
unfoldable pub from_fork :
    Bool → Started → Option (ℕ × ℕ) → RunnerBase → Kernel → Outcome (Bool × RunnerBase × Kernel)
from_fork no_redirect st none r k = die
from_fork true st (some (pid, master)) r k =
    after_fork st (record r { child_threads = []; child_pid = pid }) k
from_fork false st (some (pid, master)) r k =
    after_fork st
      (record r { child_threads = []; child_pid = pid; child_terminal_fd = some master })
      (record k { open_fds = master ∷ k.open_fds })

-- RunnerBase::run
unfoldable pub run_child :
    LifeOptions → Started → RunnerBase → Kernel → Outcome (Bool × RunnerBase × Kernel)
run_child opts st r k = do k ← close_open_terminal r k; from_fork opts.no_redirect st st.forked r k

-- The calls of run that one runner makes, one after the other.
unfoldable pub run_children :
    LifeOptions → List Started → RunnerBase → Kernel → Outcome (RunnerBase × Kernel)
run_children opts [] r k = ok (r, k)
run_children opts (st ∷ l) r k = do (started, r, k) ← run_child opts st r k; run_children opts l r k

-- RunnerBase::~RunnerBase
unfoldable pub destroy_runner : LifeOptions → Bool → RunnerBase → Kernel → Outcome Kernel
destroy_runner opts do_cleanup r k = do
  k ← close_if_open r.stdout_fd k
  k ← close_if_open r.stderr_fd k
  k ← close_open_terminal r k
  if opts.no_cleanup || not do_cleanup
      then ok k
      else do k ← remove_if_named r.stdout_file k; remove_if_named r.stderr_file k

-- A runner's whole life.
unfoldable pub runner_life :
    LifeOptions
    → (Text → Bool)
    → Bool
    → Option Made
    → Option Made
    → List Started
    → Kernel
    → Outcome Kernel
runner_life opts stat_ok do_cleanup out err starts k = do
  (r, k) ← make_runner opts stat_ok out err k
  (r, k) ← run_children opts starts r k
  destroy_runner opts do_cleanup r k
