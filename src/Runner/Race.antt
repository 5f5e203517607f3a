-- ===== src/Runner/Race.antt =====
-- src/runner.cpp: sleepAndStopRandomChildThread, which runs in a thread of its own while
-- waitpidSkipThreadState changes ChildThreads. The set has its size read at one time and is walked
-- at a later one; what it is at either is an argument.
use zofi.Runner.Wait.{
  get_random_child_thread_pid, Event, Round, erase, is_clone, mem, nth_thread, one_wait,
}
use zofi.Base.{
  Bool, Bool-cases, List, Outcome, [], ap, arith, die, false, inl, inr, length, ok, refl, suc, true,
  zero, ℕ, ◌+◌, ◌<◌, ◌==◌, ◌>>=◌, ◌∷◌, ◌≡◌, ◌≤◌,
}
use zofi.Utils.Rand.{Generator, rand_safe}
use zofi.ExitState.Data.{Sys}

-- getRandomChildThreadPID, where the set may change after its size is read.
unfoldable pub pick_between : {G : Type 0} → Generator G → ℕ → List ℕ → List ℕ → G → Outcome (ℕ × G)
pick_between rand child sized walked g =
    let r = rand_safe rand (length sized + 1) g in
    elim r.0 [ zero ↦ ok (child, r.1) | suc n ↦ do t ← nth_thread n walked; ok (t, r.1) ]

-- Runner::sleepAndStopRandomChildThread: ChildPIDToInject and *Ret. `kills` is whether kill succeeds.
unfoldable pub sleep_and_stop_random_child_thread :
    {G : Type 0} → Generator G → ℕ → List ℕ → List ℕ → (ℕ → Bool) → G → Outcome (ℕ × Bool × G)
sleep_and_stop_random_child_thread rand child sized walked kills g = do
  (pid, g) ← pick_between rand child sized walked g
  ok (pid, kills pid, g)

nth_thread_past : (n : ℕ) (ts : List ℕ) → length ts ≤ n → nth_thread n ts ≡ die
unfolding nth_thread
nth_thread_past n [] h = refl
nth_thread_past zero (t ∷ ts) h = absurd (omega arith)
nth_thread_past (suc n) (t ∷ ts) h = nth_thread_past n ts (omega arith)

length-erase : (p : ℕ) (ts : List ℕ) → mem p ts ≡ true → suc (length (erase p ts)) ≡ length ts
unfolding mem erase
length-erase p [] h = cc
length-erase p (t ∷ ts) h = elim (Bool-cases (p == t)) [
  | inl same ↦ rw same refl
  | inr apart ↦ rw apart (ap suc (length-erase p ts (rw apart at h)))
]

module _ {G : Type 0} (rand : Generator G) (child : ℕ) (ts : List ℕ) (kills : ℕ → Bool)
    (g : G) where
  -- The last thread is drawn.
  last_drawn :
      (r : ℕ × G) (walked : List ℕ)
      → length walked < r.0
      → ◌≡◌ {A = Outcome (ℕ × G)}
          (elim r.0 [ zero ↦ ok (child, r.1) | suc n ↦ do t ← nth_thread n walked; ok (t, r.1) ])
          die
  last_drawn (zero, g') walked h = absurd (omega arith)
  last_drawn (suc n, g') walked h = rw (nth_thread_past n walked (omega arith)) refl

  -- A thread exits and waitpidSkipThreadState erases it from ChildThreads after the size is read and
  -- before the set is walked: if rand has drawn the last place, getRandomChildThreadPID ends in die.
  pub sleep_and_stop-race :
      (sys : Sys) (e : Event)
      → is_clone sys e ≡ false
      → mem e.pid ts ≡ true
      → sys.w_if_stopped e.status ≡ false
      → sys.w_if_exited e.status ≡ true
      → (rand_safe rand (length ts + 1) g).0 ≡ length ts
      → (r : Round) × (one_wait sys child e ts ≡ ok r)
        × (sleep_and_stop_random_child_thread rand child ts r.threads kills g ≡ die)
  unfolding one_wait sleep_and_stop_random_child_thread pick_between
  sleep_and_stop-race sys e no_clone known not_stopped exits drawn = (
    record { changed = true; threads = erase e.pid ts; continued = [] },
    rw (no_clone, known, not_stopped, exits) refl,
    rw
        (last_drawn (rand_safe rand (length ts + 1) g) (erase e.pid ts)
          (omega (arith, length-erase e.pid ts known, drawn)))
        refl,
  )

-- Without a change in between it is getRandomChildThreadPID.
pick_between-same :
    {G : Type 0} (rand : Generator G) (child : ℕ) (ts : List ℕ) (g : G)
    → pick_between rand child ts ts g ≡ get_random_child_thread_pid rand child ts g
unfolding pick_between get_random_child_thread_pid
pick_between-same rand child ts g = refl
