-- ===== src/Runner/Wait.antt =====
-- src/runner.cpp: waitpidSkipThreadState and getRandomChildThreadPID. What waitpid(-1) returns is a
-- list of events; where it ends, the call blocks. The std::set of thread pids is a sorted list.
use zofi.Base.{
  Bool, List, Option, Outcome, [], assert, die, false, if◌then◌else◌, length, ltb, none, ok, some,
  suc, true, zero, ℕ, ◌&&◌, ◌++◌, ◌+◌, ◌/◌, ◌==◌, ◌>>=◌, ◌>>◌, ◌||◌, ◌∷◌,
}
use zofi.ExitState.Data.{Sys}
use zofi.Utils.Rand.{Generator, rand_safe}

pub record Event : Type 0 where
  pub pid : ℕ
  pub status : ℕ
  -- What PTRACE_GETEVENTMSG gives for the process, `none` where ptrace fails.
  pub event_msg : Option ℕ
  -- Whether the PTRACE_CONT that answers the event succeeds.
  pub cont_ok : Bool

-- std::set<pid_t>
unfoldable pub mem : ℕ → List ℕ → Bool
mem p [] = false
mem p (t ∷ ts) = p == t || mem p ts

unfoldable pub set_insert : ℕ → List ℕ → List ℕ
set_insert p [] = p ∷ []
set_insert p (t ∷ ts) =
    let rest = set_insert p ts in
    if ltb p t then p ∷ t ∷ ts else if p == t then t ∷ ts else t ∷ rest

unfoldable pub erase : ℕ → List ℕ → List ℕ
erase p [] = []
erase p (t ∷ ts) = let rest = erase p ts in if p == t then ts else t ∷ rest

-- ThreadStateChanged after a round, ChildThreads, and the pids that were told to continue.
pub record Round : Type 0 where
  pub changed : Bool
  pub threads : List ℕ
  pub continued : List ℕ

unfoldable pub is_clone : Sys → Event → Bool
is_clone sys e = sys.w_if_stopped e.status && e.status / 256 == sys.clone_event

-- ptraceSafe(PTRACE_CONT, p, 0, 0) on the event, then the end of the round.
abbrev continue : ℕ → Event → List ℕ → Outcome Round
continue p e ts = do
  assert e.cont_ok
  ok (record { changed = true; threads = ts; continued = p ∷ [] })

-- The body of the loop of waitpidSkipThreadState.
unfoldable pub one_wait : Sys → ℕ → Event → List ℕ → Outcome Round
one_wait sys child e ts =
    if is_clone sys e
    then elim e.event_msg [ none ↦ die | some t ↦ continue child e (set_insert t ts) ]
    else if mem e.pid ts
    then (if sys.w_if_stopped e.status && sys.w_stop_sig e.status == sys.sigstop
        then continue e.pid e ts
        else if sys.w_if_exited e.status
        then ok (record { changed = true; threads = erase e.pid ts; continued = [] })
        else if sys.w_if_signaled e.status
        then ok (record { changed = true; threads = erase e.pid ts; continued = [] })
        else ok (record { changed = false; threads = ts; continued = [] }))
    else ok (record { changed = false; threads = ts; continued = [] })

-- WaitPidData is `returned`, which is `none` where waitpid blocks.
pub record Waited : Type 0 where
  pub returned : Option Event
  pub threads : List ℕ
  pub continued : List ℕ
  pub rest : List Event

unfoldable pub waitpid_skip_thread_state : Sys → ℕ → List Event → List ℕ → Outcome Waited
waitpid_skip_thread_state sys child [] ts =
    ok (record { returned = none; threads = ts; continued = []; rest = [] })
waitpid_skip_thread_state sys child (e ∷ es) ts = do
  r ← one_wait sys child e ts
  let again = waitpid_skip_thread_state sys child es r.threads
  if r.changed
      then (do w ← again; ok (record w { continued = r.continued ++ w.continued }))
      else ok
          (record { returned = some e; threads = r.threads; continued = r.continued; rest = es })

-- The loop of getRandomChildThreadPID.
unfoldable pub nth_thread : ℕ → List ℕ → Outcome ℕ
nth_thread n [] = die
nth_thread zero (t ∷ ts) = ok t
nth_thread (suc n) (t ∷ ts) = nth_thread n ts

unfoldable pub get_random_child_thread_pid :
    {G : Type 0} → Generator G → ℕ → List ℕ → G → Outcome (ℕ × G)
get_random_child_thread_pid rand child ts g =
    let r = rand_safe rand (length ts + 1) g in
    elim r.0 [ zero ↦ ok (child, r.1) | suc n ↦ do t ← nth_thread n ts; ok (t, r.1) ]
