-- ===== src/Runner/Tests.antt =====
-- The runner on concrete wait statuses, and the theorems at them.
use zofi.Runner.Inject.{Tried, Attempt, attempt_once, inject_loop}
use zofi.Base.{
  zero, List, [], arith, false, if◌then◌else◌, none, not, ok, pos, refl, some, suc, true, user_die,
  ℕ, ◌%◌, ◌&&◌, ◌++◌, ◌/◌, ◌<◌, ◌==◌, ◌↔◌, ◌∷◌, ◌≡◌, ◌≢◌, ◌⊎◌,
}
use zofi.Runner.Attempts.{inject_loop-user_die}
use zofi.Runner.Wait.{
  Event, Waited, erase, is_clone, mem, one_wait, set_insert, waitpid_skip_thread_state,
}
use zofi.Statistics.Counts.{FtStatus, ft_masked, ft_skipped}
use zofi.Utils.Text.{Text, codes}
use zofi.Runner.Verdict.{VerdictOptions, World, get_status}
use zofi.Runner.WaitLaws.{AllAnswered, AllSkipped, is_reported, track, waitpid_skip_lem}
use zofi.ExitState.Data.{ExitState, Sys, exited, get_wait_pid_exit_state, is_set, signaled}
use zofi.Runner.VerdictLaws.{get_status-masked_iff, is_alarm, is_detected}
use zofi.Utils.Rand.{Generator}
use zofi.ExitState.Compare.{ExecutionExitState, is_execution_set}

-- The macros of <sys/wait.h> on Linux, for statuses below 2^31.
abbrev pub linux : Sys
linux = record {
  w_if_exited = λ w. w % 128 == 0;
  w_exit_status = λ w. (w / 256) % 256;
  w_if_signaled = λ w. not (w % 128 == 0) && not (w % 128 == 127);
  w_term_sig = λ w. w % 128;
  w_if_stopped = λ w. w % 256 == 127;
  w_stop_sig = λ w. (w / 256) % 256;
  sigalrm = 14;
  sigstop = 19;
  sigtrap = 5;
  clone_event = 773;
}

-- Process 10 clones thread 11, which stops with SIGSTOP; then 10 exits with 3.
abbrev cloned_event : Event
cloned_event = record { pid = 10; status = 198015; event_msg = some 11; cont_ok = true }

abbrev stop_event : Event
stop_event = record { pid = 11; status = 4991; event_msg = some 0; cont_ok = true }

abbrev exit_event : Event
exit_event = record { pid = 10; status = 768; event_msg = some 0; cont_ok = true }

abbrev three_events : List Event
three_events = cloned_event ∷ stop_event ∷ exit_event ∷ []

abbrev no_threads : List ℕ
no_threads = []

three_events-AllAnswered : AllAnswered three_events
three_events-AllAnswered = ((11, refl), refl, ((0, refl), refl, ((0, refl), refl, tt)))

waitpid_skip_lem_example :
    (w : Waited) × (waitpid_skip_thread_state linux 10 three_events no_threads ≡ ok w)
    × (pre : List Event) × AllSkipped linux pre no_threads
    × (((w.returned ≡ none) × (three_events ≡ pre) × (w.threads ≡ track linux pre no_threads))
        ⊎ ((e : Event) × (w.returned ≡ some e)
            × (three_events ≡ pre ++ e ∷ w.rest)
            × (is_reported linux e (track linux pre no_threads) ≡ true)
            × (w.threads ≡ track linux (pre ++ e ∷ []) no_threads)))
waitpid_skip_lem_example =
    waitpid_skip_lem linux 10 three_events no_threads three_events-AllAnswered

abbrev waited : Waited
waited = record {
  returned = some exit_event;
  threads = 11 ∷ [];
  continued = 10 ∷ 11 ∷ [];
  rest = [];
}

three_events-waited : waitpid_skip_thread_state linux 10 three_events no_threads ≡ ok waited
unfolding waitpid_skip_thread_state one_wait is_clone mem set_insert erase
three_events-waited = refl

abbrev counting : Generator ℕ
counting g = (g, suc g)

abbrev exited_3 : ExitState
exited_3 = record { exit_type = exited; val = 3 }

abbrev timing_run : ExecutionExitState
timing_run = record {
  state = exited_3;
  stdout_fd = pos 4;
  stderr_fd = pos 5;
  stdout_file = codes "/tmp/a";
  stderr_file = codes "/tmp/b";
}

-- Every file has the same contents, and every diff command succeeds.
abbrev quiet : World
quiet = record {
  files = record { open_path = λ p. some (1 ∷ []); open_fd = λ d. some (1 ∷ []) };
  shell = λ s c. 0;
  kill_ok = true;
}

abbrev default_options : VerdictOptions
default_options = record {
  no_redirect = false;
  detection_exit_code = pos 0;
  diff_cmd = none;
  diff_shell = codes "/bin/sh";
}

exit_3-exited : get_wait_pid_exit_state linux 768 ≡ ok exited_3
unfolding get_wait_pid_exit_state
exit_3-exited = refl

timing_run-is_set : is_execution_set timing_run ≡ true
unfolding is_execution_set is_set
timing_run-is_set = refl

not_signaled : exited ≢ signaled
not_signaled e = cc

get_status-masked_iff_example :
    (st : FtStatus) × (get_status 0 linux quiet default_options false timing_run timing_run 768
      ≡ some (ok st))
    × ((st ≡ ft_masked) ↔ (
        (is_detected default_options exited_3 ≡ false)
        × (is_alarm linux exited_3 ≡ false)
        × (exited_3 ≡ exited_3)
        × (◌≡◌ {A = Text} (1 ∷ []) (1 ∷ []))
        × (◌≡◌ {A = Text} (1 ∷ []) (1 ∷ []))))
get_status-masked_iff_example =
    get_status-masked_iff 0 linux quiet default_options timing_run timing_run 768 exited_3 (1 ∷ [])
      (1 ∷ []) (1 ∷ []) (1 ∷ []) refl refl refl timing_run-is_set exit_3-exited not_signaled refl
      refl refl refl

skipping :
    get_status 0 linux quiet default_options true timing_run timing_run 768 ≡ some (ok ft_skipped)
unfolding get_status
skipping = rw (exit_3-exited, get_status) refl

-- The second attempt succeeds.
abbrev second_works : ℕ → Attempt
second_works i = record {
  started = true;
  tried = ok (record { injected = i == 1; failures = if i == 1 then 0 else 1 });
}

first_fails : (i : ℕ) → i < 1 → attempt_once true (second_works i) ≡ ok false
unfolding attempt_once
first_fails zero h = refl
first_fails (suc i) h = absurd (omega arith)

inject_loop-user_die_example : inject_loop 2 true second_works 0 2 ≡ some user_die
inject_loop-user_die_example =
    inject_loop-user_die 2 second_works (omega arith) (omega arith)
      (λ i h. first_fails i (omega arith))

abbrev injected_once : Tried
injected_once = record { injected = true; failures = 0 }
