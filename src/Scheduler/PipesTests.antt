-- ===== src/Scheduler/PipesTests.antt =====
-- The scheduler with pipes, on a concrete system.
use zofi.Scheduler.Masked.{IsJudged, TestRun, is_like}
use zofi.Runner.Verdict.{on_exit_type, VerdictOptions, check_output, get_status}
use zofi.ExitState.Data.{same_state, exited, is_set, get_wait_pid_exit_state}
use zofi.Utils.Diff.{default_diff, diff_loop, same_bytes}
use zofi.ExitState.Compare.{ExecutionExitState, is_execution_set, same_execution}
use zofi.Scheduler.MaskedRuns.{run_pipes-masked}
use zofi.Scheduler.OnceEach.{count_ids}
use zofi.Base.{
  pos, Bool, true, List, Option, Outcome, [], arith, false, if◌then◌else◌, none, ok, refl, some,
  suc, ℕ, ◌%◌, ◌*◌, ◌+◌, ◌==◌, ◌∷◌, ◌≡◌, ◌≤◌,
}
use zofi.Utils.Text.{Text, codes}
use zofi.Scheduler.JobsLaws.{IsKernel}
use zofi.Statistics.Counts.{
  FtStatus, IsBalanced, count_of, ft_corrupted, ft_masked, make-IsBalanced, no_status,
}
use zofi.Statistics.Store.{StatType, Statistics, make, ulong}
use zofi.Scheduler.PipesCampaign.{count_status}
use zofi.Scheduler.Pipes.{
  other, Calls, Contents, FdTable, Parent, child_process, close_fd, erase_pipe_job, fd_at,
  find_pipe_job, fork_safe, launch, launch_all, pipe_safe, put_message, read_from, run_pipes,
  wait_for_pipe_job, wait_while_pipes, write_to,
}
use zofi.Utils.Rand.{Generator, rand_safe}
use zofi.Scheduler.PipesRun.{IsPipe, plain_kernel}
use zofi.Scheduler.Samples.{always, by_first}
use Prim.Native.Nat.{max}
use zofi.Scheduler.Jobs.{JobData, Run, find_job}

-- One above the largest descriptor.
abbrev above : FdTable → ℕ
above [] = 3
above ((d, k) ∷ t) = max (suc d) (above t)

above-fd_at : (fd : ℕ) (t : FdTable) → above t ≤ fd → fd_at fd t ≡ none
unfolding fd_at
above-fd_at fd [] h = refl
above-fd_at fd ((d, k) ∷ t) h =
    let apart : (d == fd) ≡ false = ground arith in rw apart (above-fd_at fd t (omega arith))

abbrev two_above : FdTable → Option (ℕ × ℕ)
two_above t = some (above t, above t + 1)

two_above-IsPipe : IsPipe two_above
two_above-IsPipe t = (
  above t,
  above t + 1,
  refl,
  ground arith,
  above-fd_at (above t) t (omega arith),
  above-fd_at (above t + 1) t (omega arith),
)

abbrev counting : Generator ℕ
counting g = (g * 7 % 10, g + 1)

abbrev by_seed : Calls ℕ ℕ
by_seed = record {
  pipe = two_above;
  fork = λ n. some (100 + n);
  wait = by_first;
  rand = counting;
  child_job_code = λ seed id. seed + 10 * id;
  unread = 999;
}

abbrev pid_of : ℕ → ℕ
pid_of n = 100 + n

abbrev stdio : FdTable
stdio = (0, other) ∷ (1, other) ∷ (2, other) ∷ []

abbrev keep_value : ℕ → JobData → List ℕ → Outcome (List ℕ)
keep_value m j l = ok (m ∷ l)

abbrev empty_pipes : Contents ℕ
empty_pipes p = none

abbrev no_values : List ℕ
no_values = []

abbrev at_start : Parent (List ℕ) ℕ ℕ
at_start = record {
  fds = stdio;
  active_jobs = [];
  results = no_values;
  generator = 5;
  contents = empty_pipes;
  pipes = 0;
}

-- The seeds are 5, 2 and 9.
three_values : List ℕ
three_values = 29 ∷ 12 ∷ 5 ∷ []

results_at_end : Run (Parent (List ℕ) ℕ ℕ) → List ℕ
results_at_end (some (ok q)) = q.results
results_at_end m = []

three_jobs : results_at_end (run_pipes by_seed always keep_value 10 2 3 at_start) ≡ three_values
unfolding results_at_end three_values get_wait_pid_exit_state run_pipes launch_all wait_while_pipes
    wait_for_pipe_job launch child_process fd_at close_fd find_pipe_job erase_pipe_job put_message
    pipe_safe fork_safe write_to read_from rand_safe
three_jobs = refl

-- Two runs are masked and the third is corrupted.
abbrev third_corrupted : Calls FtStatus ℕ
third_corrupted = record {
  pipe = two_above;
  fork = λ n. some (100 + n);
  wait = by_first;
  rand = counting;
  child_job_code = λ seed id. if id == 2 then ft_corrupted else ft_masked;
  unread = no_status;
}

abbrev no_runs : Statistics ℕ
no_runs = make (codes "a.out") (codes "we") 3

abbrev no_statuses : Contents FtStatus
no_statuses p = none

third_corrupted-IsKernel : IsKernel always (plain_kernel third_corrupted pid_of)
unfolding find_job
third_corrupted-IsKernel [] h = absurd (omega arith)
third_corrupted-IsKernel (j ∷ js) h = (refl, (j, ground arith))

abbrev timing_state : ExecutionExitState
timing_state = record {
  state = record { exit_type = exited; val = 0 };
  stdout_fd = pos 4;
  stderr_fd = pos 5;
  stdout_file = codes "/tmp/a";
  stderr_file = codes "/tmp/b";
}

abbrev plain_options : VerdictOptions
plain_options = record {
  no_redirect = false;
  detection_exit_code = pos 0;
  diff_cmd = none;
  diff_shell = codes "/bin/sh";
}

abbrev output_of : Bool → Text
output_of true = 2 ∷ []
output_of false = 1 ∷ []

-- A run that exits with 0 and whose files hold one byte.
abbrev ended : Bool → TestRun
ended other_output = record {
  world = record {
    files = record { open_path = λ p. some (1 ∷ []); open_fd = λ d. some (output_of other_output) };
    shell = λ s c. 0;
    kill_ok = true;
  };
  ex_state = timing_state;
  wait_status = 0;
  state = record { exit_type = exited; val = 0 };
  out = output_of other_output;
  err = output_of other_output;
}

ended-IsJudged :
    (b : Bool)
    → IsJudged 0 always plain_options timing_state
        (1 ∷ [])
        (1 ∷ [])
        (ended b)
        (if b then ft_corrupted else ft_masked)
unfolding get_wait_pid_exit_state get_status check_output same_execution on_exit_type
    is_execution_set is_set same_state default_diff diff_loop same_bytes
ended-IsJudged true = record {
  killed = refl;
  state_known = refl;
  no_signal = λ e. cc;
  out_read = refl;
  err_read = refl;
  orig_out_read = refl;
  orig_err_read = refl;
  verdict = refl;
}
ended-IsJudged false = record {
  killed = refl;
  state_known = refl;
  no_signal = λ e. cc;
  out_read = refl;
  err_read = refl;
  orig_out_read = refl;
  orig_err_read = refl;
  verdict = refl;
}

timing_state-is_set : is_execution_set timing_state ≡ true
unfolding is_execution_set is_set
timing_state-is_set = refl

run_pipes-masked_example :
    (q : Parent (Statistics ℕ) FtStatus ℕ) × (run_pipes third_corrupted always count_status 10 2 3
        (record {
          fds = stdio;
          active_jobs = [];
          results = no_runs;
          generator = 5;
          contents = no_statuses;
          pipes = 0;
        })
      ≡ some (ok q))
    × (q.active_jobs ≡ [])
    × (q.fds ≡ stdio)
    × IsBalanced q.results
    × (ulong (count_of StatType.masked q.results)
        ≡ ulong (
            count_of StatType.masked no_runs
            + count_ids
                (λ id.
                  is_like always plain_options timing_state.state
                    (1 ∷ [])
                    (1 ∷ [])
                    (ended (id == 2)))
                3))
run_pipes-masked_example =
    run_pipes-masked always third_corrupted pid_of no_runs 5 stdio no_statuses 0 two_above-IsPipe
      (λ id. refl) third_corrupted-IsKernel (make-IsBalanced (codes "a.out") (codes "we") 3) 0
      plain_options timing_state (1 ∷ []) (1 ∷ []) refl refl timing_state-is_set
      (λ id. ended (id == 2)) (λ id. ended-IsJudged (id == 2)) 10 2 3 (omega arith) (omega arith)
      (omega arith)
