-- ===== src/Runner/Threads.antt =====
-- src/runner.cpp: the set ChildThreads, and the thread that is picked from it.
use zofi.Base.{
  Bool, Bool-cases, In, List, Option, Outcome, [], arith, false, if◌then◌else◌, inl, inr, length,
  ltb, ltb→lt, none, ok, ok-injective, refl, some, suc, sym, true, zero, ℕ, ◌&&◌, ◌++◌, ◌+◌, ◌<◌,
  ◌==◌, ◌>>=◌, ◌||◌, ◌∙◌, ◌∷◌, ◌≡◌,
}
use zofi.Runner.WaitLaws.{AllAnswered, track, track_one, waitpid_skip_lem}
use zofi.Utils.Rand.{Generator, rand_safe, rand_safe-lt}
use zofi.Runner.Wait.{
  Event, Waited, erase, get_random_child_thread_pid, is_clone, nth_thread, set_insert,
  waitpid_skip_thread_state,
}
use zofi.ExitState.Data.{Sys}
use mathlib.Core.Path.{subst}

-- ChildThreads is kept in strictly increasing order, so without duplicates.
abbrev pub IsAbove : ℕ → List ℕ → Type 0
IsAbove p [] = Unit {0}
IsAbove p (t ∷ ts) = (p < t) × IsAbove t ts

abbrev pub IsSorted : List ℕ → Type 0
IsSorted [] = Unit {0}
IsSorted (t ∷ ts) = IsAbove t ts

IsAbove-less : (p q : ℕ) (ts : List ℕ) → p < q → IsAbove q ts → IsAbove p ts
IsAbove-less p q [] h k = tt
IsAbove-less p q (t ∷ ts) h k = (omega (arith, h, k.0), k.1)

set_insert-IsAbove : (b p : ℕ) (ts : List ℕ) → b < p → IsAbove b ts → IsAbove b (set_insert p ts)
unfolding set_insert
set_insert-IsAbove b p [] h k = (h, tt)
set_insert-IsAbove b p (t ∷ ts) h k = elim (Bool-cases (ltb p t)) [
  | inl less ↦ rw less (h, (ltb→lt p t less, k.1))
  | inr more ↦ elim (Bool-cases (p == t)) [
    | inl same ↦ rw (more, same) k
    | inr apart ↦ rw (more, apart) (k.0, set_insert-IsAbove t p ts (ground arith) k.1)
  ]
]

erase-IsAbove : (b p : ℕ) (ts : List ℕ) → IsAbove b ts → IsAbove b (erase p ts)
unfolding erase
erase-IsAbove b p [] k = tt
erase-IsAbove b p (t ∷ ts) k = elim (Bool-cases (p == t)) [
  | inl same ↦ rw same (IsAbove-less b t ts k.0 k.1)
  | inr apart ↦ rw apart (k.0, erase-IsAbove t p ts k.1)
]

set_insert-IsSorted : (p : ℕ) (ts : List ℕ) → IsSorted ts → IsSorted (set_insert p ts)
unfolding set_insert
set_insert-IsSorted p [] k = tt
set_insert-IsSorted p (t ∷ ts) k = elim (Bool-cases (ltb p t)) [
  | inl less ↦ rw less (ltb→lt p t less, k)
  | inr more ↦ elim (Bool-cases (p == t)) [
    | inl same ↦ rw (more, same) k
    | inr apart ↦ rw (more, apart) (set_insert-IsAbove t p ts (ground arith) k)
  ]
]

above-IsSorted : (b : ℕ) (ts : List ℕ) → IsAbove b ts → IsSorted ts
above-IsSorted b [] k = tt
above-IsSorted b (t ∷ ts) k = k.1

erase-IsSorted : (p : ℕ) (ts : List ℕ) → IsSorted ts → IsSorted (erase p ts)
unfolding erase
erase-IsSorted p [] k = tt
erase-IsSorted p (t ∷ ts) k = elim (Bool-cases (p == t)) [
  | inl same ↦ rw same (above-IsSorted t ts k)
  | inr apart ↦ rw apart (erase-IsAbove t p ts k)
]

IsSorted-if : (b : Bool) (s t : List ℕ) → IsSorted s → IsSorted t → IsSorted (if b then s else t)
IsSorted-if true s t k l = k
IsSorted-if false s t k l = l

track_one-IsSorted :
    (sys : Sys) (e : Event) (ts : List ℕ) → IsSorted ts → IsSorted (track_one sys e ts)
track_one-IsSorted sys e ts k = IsSorted-if (is_clone sys e) _ _ (message e.event_msg) (
    IsSorted-if (sys.w_if_stopped e.status && sys.w_stop_sig e.status == sys.sigstop) _ _ k (
      IsSorted-if (sys.w_if_exited e.status || sys.w_if_signaled e.status) _ _
        (erase-IsSorted e.pid ts k) k))
  where
    message : (m : Option ℕ) → IsSorted (elim m [ none ↦ ts | some t ↦ set_insert t ts ])
    message none = k
    message (some t) = set_insert-IsSorted t ts k

-- A sequence of events leaves ChildThreads in strictly increasing order when it was before.
pub track-IsSorted :
    (sys : Sys) (es : List Event) (ts : List ℕ) → IsSorted ts → IsSorted (track sys es ts)
track-IsSorted sys [] ts k = k
track-IsSorted sys (e ∷ es) ts k =
    track-IsSorted sys es (track_one sys e ts) (track_one-IsSorted sys e ts k)

-- Where ptrace succeeds, waitpidSkipThreadState leaves ChildThreads in strictly increasing order,
-- so without duplicates, when it was before.
waitpid_skip-IsSorted :
    (sys : Sys) (child : ℕ) (es : List Event) (ts : List ℕ) (w : Waited)
    → AllAnswered es
    → waitpid_skip_thread_state sys child es ts ≡ ok w
    → IsSorted ts
    → IsSorted w.threads
waitpid_skip-IsSorted sys child es ts w h e k =
    let (v, ran, pre, all, out) = waitpid_skip_lem sys child es ts h in
    let same : v ≡ w = ok-injective (sym ran ∙ e) in
    subst (λ (u : Waited). IsSorted u.threads) same
      (elim out [
        | inl (_, _, left) ↦ rw left (track-IsSorted sys pre ts k)
        | inr (x, _, _, _, left) ↦ rw left (track-IsSorted sys (pre ++ x ∷ []) ts k)
      ])

nth_thread-In : (n : ℕ) (ts : List ℕ) → n < length ts → (t : ℕ) × (nth_thread n ts ≡ ok t) × In t ts
unfolding nth_thread
nth_thread-In n [] h = absurd (omega arith)
nth_thread-In zero (t ∷ ts) h = (t, refl, inl refl)
nth_thread-In (suc n) (t ∷ ts) h =
    let (u, ran, there) = nth_thread-In n ts (omega arith) in (u, ran, inr there)

-- getRandomChildThreadPID never reaches its die, whatever rand draws: it gives ChildPID or one of
-- the active threads.
pub get_random_child_thread_pid-In :
    {G : Type 0} (rand : Generator G) (child : ℕ) (ts : List ℕ) (g : G)
    → (p : ℕ) × (g' : G) × (get_random_child_thread_pid rand child ts g ≡ ok (p, g'))
      × In p (child ∷ ts)
unfolding get_random_child_thread_pid
get_random_child_thread_pid-In {G = G} rand child ts g =
    drawn (rand_safe rand (length ts + 1) g) (rand_safe-lt rand (length ts + 1) g (omega arith))
  where
    drawn :
        (r : ℕ × G)
        → r.0 < length ts + 1
        → (p : ℕ) × (g' : G) × (◌≡◌ {A = Outcome (ℕ × G)}
            (elim r.0 [ zero ↦ ok (child, r.1) | suc n ↦ do t ← nth_thread n ts; ok (t, r.1) ])
            (ok (p, g')))
          × In p (child ∷ ts)
    drawn (zero, g') h = (child, g', refl, inl refl)
    drawn (suc n, g') h =
        let (t, ran, there) = nth_thread-In n ts (omega arith) in (t, g', rw ran refl, inr there)
