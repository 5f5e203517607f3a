-- ===== src/Runner/LifeTests.antt =====
-- A runner's life and its whole run, on a concrete system.
use zofi.Runner.JobFiles.{staying, AllMade, all_child_jobs_lem, with_files}
use zofi.Base.{
  user_die, die, Bool, In, List, [], arith, false, if◌then◌else◌, inl, inr, none, not, ok, pos,
  refl, some, suc, true, zero, ℕ, ◌%◌, ◌/◌, ◌<◌, ◌==◌, ◌∷◌, ◌≡◌, ◌≢◌,
}
use zofi.Utils.Rand.{Generator, rand_safe}
use zofi.Runner.Wait.{Round, one_wait, Event, is_clone, mem}
use zofi.Runner.Race.{sleep_and_stop-race, sleep_and_stop_random_child_thread}
use zofi.Runner.JobCode.{JobFiles, all_child_jobs, orig_child_job, test_child_job}
use zofi.ExitState.Data.{exited, ExitState, Sys, get_wait_pid_exit_state, is_set, signaled}
use zofi.Runner.Inject.{Attempt, attempt_once}
use zofi.Runner.Whole.{After, run_and_wait}
use zofi.Runner.Lifecycle.{LifeOptions, Made, Started, runner_life}
use zofi.Runner.Verdict.{VerdictOptions, World}
use zofi.ExitState.Compare.{ExecutionExitState, is_execution_set}
use zofi.Utils.Text.{Text, codes}
use zofi.Runner.WaitLaws.{AllSkipped}
use zofi.Runner.WholeLaws.{run_and_wait-verdict}
use zofi.Statistics.Counts.{FtStatus}
use zofi.Runner.LifetimeLaws.{runner_life_lem}
use zofi.Runner.LifecycleLaws.{AllStarted}
use zofi.Utils.Diff.{same_bytes}

-- The macros of <sys/wait.h> on Linux, for children that exit or stop.
abbrev exits_and_stops : Sys
exits_and_stops = record {
  w_if_exited = λ w. w % 128 == 0;
  w_exit_status = λ w. (w / 256) % 256;
  w_if_signaled = λ w. false;
  w_term_sig = λ w. w % 128;
  w_if_stopped = λ w. w % 256 == 127;
  w_stop_sig = λ w. (w / 256) % 256;
  sigalrm = 14;
  sigstop = 19;
  sigtrap = 5;
  clone_event = 773;
}

abbrev with_cleanup : LifeOptions
with_cleanup = record {
  binary = codes "/bin/true";
  args = some (codes "-n" ∷ []);
  no_redirect = false;
  no_cleanup = false;
}

abbrev out_made : Made
out_made = record { fd = 4; path = codes "/tmp/zofi.Stdout.0.a" }

abbrev err_made : Made
err_made = record { fd = 5; path = codes "/tmp/zofi.Stderr.0.b" }

-- The first child ends before ptrace can follow it; both have terminal 6.
abbrev two_runs : List Started
two_runs =
    record { forked = some (70, 6); wait_ok = true; set_options_ok = false; cont_ok = true }
    ∷ record { forked = some (71, 6); wait_ok = true; set_options_ok = true; cont_ok = true }
    ∷ []

abbrev standard_fds : List ℕ
standard_fds = 2 ∷ 1 ∷ 0 ∷ []

two_runs-AllStarted : AllStarted (5 ∷ 4 ∷ standard_fds) two_runs
unfolding mem
two_runs-AllStarted = (((70, 6), refl, refl), refl, refl, (((71, 6), refl, refl), refl, refl, tt))

apart_files : same_bytes out_made.path err_made.path ≡ false
unfolding same_bytes
apart_files = refl

abbrev exists_all : Text → Bool
exists_all s = true

runner_life_lem_example :
    runner_life with_cleanup exists_all true
      (some out_made)
      (some err_made)
      two_runs
      (record { open_fds = standard_fds; files = [] })
    ≡ ok (record { open_fds = standard_fds; files = [] })
runner_life_lem_example =
    runner_life_lem with_cleanup true out_made err_made standard_fds [] refl refl refl apart_files
      exists_all two_runs refl two_runs-AllStarted

abbrev third_works : ℕ → Attempt
third_works i = record {
  started = not (i == 0);
  tried = ok (record { injected = i == 2; failures = if i == 2 then 0 else 1 });
}

third_fails : (i : ℕ) → i < 2 → attempt_once true (third_works i) ≡ ok false
unfolding attempt_once
third_fails zero h = refl
third_fails (suc zero) h = refl
third_fails (suc (suc i)) h = absurd (omega arith)

third_injects : attempt_once true (third_works 2) ≡ ok true
unfolding attempt_once
third_injects = refl

-- The child exits with 3.
abbrev ended : Event
ended = record { pid = 10; status = 768; event_msg = some 0; cont_ok = true }

abbrev one_end : ℕ → After
one_end runs = record { child = 10; events = ended ∷ []; threads = []; polled = none ∷ none ∷ [] }

reports : ¬ AllSkipped exits_and_stops (ended ∷ []) []
unfolding is_clone mem
reports h = cc

abbrev exit_3 : ExitState
exit_3 = record { exit_type = exited; val = 3 }

ends_well :
    (e : Event)
    → In e (ended ∷ [])
    → (s : ExitState) × (get_wait_pid_exit_state exits_and_stops e.status ≡ ok s)
      × (s.exit_type ≢ signaled)
unfolding get_wait_pid_exit_state
ends_well e (inl same) = (exit_3, rw same refl, λ e. cc)
ends_well e (inr h) = elim h [ ]

abbrev own_run : ExecutionExitState
own_run = record {
  state = exit_3;
  stdout_fd = pos 4;
  stderr_fd = pos 5;
  stdout_file = codes "/tmp/a";
  stderr_file = codes "/tmp/b";
}

own_run-is_set : is_execution_set own_run ≡ true
unfolding is_execution_set is_set
own_run-is_set = refl

abbrev one_byte : World
one_byte = record {
  files = record { open_path = λ p. some (1 ∷ []); open_fd = λ d. some (1 ∷ []) };
  shell = λ s c. 0;
  kill_ok = true;
}

abbrev judged : VerdictOptions
judged = record {
  no_redirect = false;
  detection_exit_code = pos 0;
  diff_cmd = none;
  diff_shell = codes "/bin/sh";
}

run_and_wait-verdict_example :
    (st : FtStatus) × (run_and_wait 0 exits_and_stops one_byte judged 4 true third_works one_end
        own_run own_run
      ≡ some (ok st))
run_and_wait-verdict_example =
    run_and_wait-verdict exits_and_stops one_byte judged own_run own_run (1 ∷ []) (1 ∷ []) (1 ∷ [])
      (1 ∷ []) refl refl refl own_run-is_set refl refl refl refl 0 4 2 0 0 third_works one_end []
      (omega arith) (omega arith) third_fails third_injects ((0, refl), refl, tt) reports refl
      ends_well

-- The attempts of the second run out.
abbrev two_jobs : List JobFiles
two_jobs =
    record { out = out_made; err = err_made; starts = two_runs; ended = ok tt }
    ∷ record {
      out = record { fd = 4; path = codes "/tmp/zofi.Stdout.1.c" };
      err = record { fd = 5; path = codes "/tmp/zofi.Stderr.1.d" };
      starts = two_runs;
      ended = user_die;
    }
    ∷ []

two_jobs-AllMade : AllMade standard_fds two_jobs
unfolding same_bytes
two_jobs-AllMade = (
  (refl, refl, refl, refl, two_runs-AllStarted),
  ((refl, refl, refl, refl, two_runs-AllStarted), tt),
)

all_child_jobs_lem_example :
    (all_child_jobs (orig_child_job with_cleanup exists_all standard_fds) two_jobs []
      ≡ ok (with_files two_jobs []))
    × (all_child_jobs (test_child_job with_cleanup exists_all standard_fds) two_jobs []
        ≡ ok (with_files (staying false two_jobs) []))
all_child_jobs_lem_example =
    all_child_jobs_lem with_cleanup exists_all standard_fds refl two_jobs [] two_jobs-AllMade

abbrev in_turn : Generator ℕ
in_turn g = (g, suc g)

-- Thread 11 of 11 and 12 exits, and rand draws 2.
abbrev thread_end : Event
thread_end = record { pid = 11; status = 0; event_msg = some 0; cont_ok = true }

not_clone : is_clone exits_and_stops thread_end ≡ false
unfolding is_clone
not_clone = refl

among_threads : mem 11 (11 ∷ 12 ∷ []) ≡ true
unfolding mem
among_threads = refl

two_drawn : (rand_safe in_turn 3 2).0 ≡ 2
unfolding rand_safe
two_drawn = refl

abbrev kills_all : ℕ → Bool
kills_all p = true

sleep_and_stop-race_example :
    (r : Round) × (one_wait exits_and_stops 10 thread_end (11 ∷ 12 ∷ []) ≡ ok r)
    × (sleep_and_stop_random_child_thread in_turn 10 (11 ∷ 12 ∷ []) r.threads kills_all 2 ≡ die)
sleep_and_stop-race_example =
    sleep_and_stop-race in_turn 10 (11 ∷ 12 ∷ []) kills_all 2 exits_and_stops thread_end not_clone
      among_threads refl refl two_drawn
