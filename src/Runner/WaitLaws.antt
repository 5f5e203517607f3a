-- ===== src/Runner/WaitLaws.antt =====
-- src/runner.cpp: the result of waitpidSkipThreadState, against a fold over the events.
use zofi.Base.{
  ap, Bool, Bool-cases, List, [], arith, false, if◌then◌else◌, inl, inr, none, not, ok, refl, some,
  true, ℕ, ◌&&◌, ◌++◌, ◌==◌, ◌||◌, ◌∷◌, ◌≡◌, ◌⊎◌,
}
use zofi.Runner.Wait.{
  Event, Round, Waited, erase, is_clone, mem, one_wait, set_insert, waitpid_skip_thread_state,
}
use zofi.ExitState.Data.{Sys}

-- What an event does to the set of threads: clone adds the new one, and an end removes its own.
abbrev pub track_one : Sys → Event → List ℕ → List ℕ
track_one sys e ts =
    if is_clone sys e
    then elim e.event_msg [ none ↦ ts | some t ↦ set_insert t ts ]
    else if sys.w_if_stopped e.status && sys.w_stop_sig e.status == sys.sigstop
    then ts
    else if sys.w_if_exited e.status || sys.w_if_signaled e.status
    then erase e.pid ts
    else ts

abbrev pub track : Sys → List Event → List ℕ → List ℕ
track sys [] ts = ts
track sys (e ∷ es) ts = track sys es (track_one sys e ts)

-- A thread's stop at its start, or its end.
abbrev pub is_thread_change : Sys → Event → Bool
is_thread_change sys e =
    (sys.w_if_stopped e.status && sys.w_stop_sig e.status == sys.sigstop)
    || (sys.w_if_exited e.status || sys.w_if_signaled e.status)

-- The event is one of the process as a whole: no clone, and no change of a known thread.
abbrev pub is_reported : Sys → Event → List ℕ → Bool
is_reported sys e ts = not (is_clone sys e) && not (mem e.pid ts && is_thread_change sys e)

abbrev pub AllSkipped : Sys → List Event → List ℕ → Type 0
AllSkipped sys [] ts = Unit {0}
AllSkipped sys (e ∷ es) ts = (is_reported sys e ts ≡ false) × AllSkipped sys es (track_one sys e ts)

-- ptrace succeeds on every event.
abbrev pub AllAnswered : List Event → Type 0
AllAnswered [] = Unit {0}
AllAnswered (e ∷ es) = ((t : ℕ) × (e.event_msg ≡ some t)) × (e.cont_ok ≡ true) × AllAnswered es

erase_absent : (p : ℕ) (ts : List ℕ) → mem p ts ≡ false → erase p ts ≡ ts
unfolding mem erase
erase_absent p [] h = refl
erase_absent p (t ∷ ts) h = ground (arith, erase_absent p ts)

abbrev round : Bool → List ℕ → List ℕ → Round
round b ts cs = record { changed = b; threads = ts; continued = cs }

one_wait_lem :
    (sys : Sys) (child : ℕ) (e : Event) (ts : List ℕ) (t : ℕ)
    → e.event_msg ≡ some t
    → e.cont_ok ≡ true
    → (r : Round) × (one_wait sys child e ts ≡ ok r)
      × (r.threads ≡ track_one sys e ts)
      × (r.changed ≡ not (is_reported sys e ts))
unfolding one_wait
one_wait_lem sys child e ts t msg good = elim (Bool-cases (is_clone sys e)) [
  | inl cloned ↦ (
    round true (set_insert t ts) (child ∷ []),
    rw (cloned, msg, good) refl,
    rw (cloned, msg) refl,
    rw cloned refl,
  )
  | inr plain ↦ elim (Bool-cases (mem e.pid ts)) [
    | inl known ↦
        elim (Bool-cases (sys.w_if_stopped e.status && sys.w_stop_sig e.status == sys.sigstop)) [
          | inl stop ↦ (
            round true ts (e.pid ∷ []),
            rw (plain, known, stop, good) refl,
            rw (plain, stop) refl,
            rw (plain, known, stop) refl,
          )
          | inr go ↦ elim (Bool-cases (sys.w_if_exited e.status)) [
            | inl exit ↦ (
              round true (erase e.pid ts) [],
              rw (plain, known, go, exit) refl,
              rw (plain, go, exit) refl,
              rw (plain, known, go, exit) refl,
            )
            | inr stay ↦ elim (Bool-cases (sys.w_if_signaled e.status)) [
              | inl sig ↦ (
                round true (erase e.pid ts) [],
                rw (plain, known, go, stay, sig) refl,
                rw (plain, go, stay, sig) refl,
                rw (plain, known, go, stay, sig) refl,
              )
              | inr calm ↦ (
                round false ts [],
                rw (plain, known, go, stay, calm) refl,
                rw (plain, go, stay, calm) refl,
                rw (plain, known, go, stay, calm) refl,
              )
            ]
          ]
        ]
    | inr other ↦ (
      round false ts [],
      rw (plain, other) refl,
      rw plain (ground (arith, erase_absent e.pid ts other)),
      rw (plain, other) refl,
    )
  ]
]

-- Where ptrace succeeds, waitpidSkipThreadState handles a run of thread events, after each of which
-- ChildThreads holds what the clones and the ends so far make of it, and then gives the first event
-- that is no thread event; it blocks only when there is none.
pub waitpid_skip_lem :
    (sys : Sys) (child : ℕ) (es : List Event) (ts : List ℕ)
    → AllAnswered es
    → (w : Waited) × (waitpid_skip_thread_state sys child es ts ≡ ok w)
      × (pre : List Event) × AllSkipped sys pre ts
      × (((w.returned ≡ none) × (es ≡ pre) × (w.threads ≡ track sys pre ts))
          ⊎ ((e : Event) × (w.returned ≡ some e)
              × (es ≡ pre ++ e ∷ w.rest)
              × (is_reported sys e (track sys pre ts) ≡ true)
              × (w.threads ≡ track sys (pre ++ e ∷ []) ts)))
unfolding waitpid_skip_thread_state
waitpid_skip_lem sys child [] ts h = (_, refl, [], tt, inl (refl, refl, refl))
waitpid_skip_lem sys child (e ∷ es) ts ((t, msg), good, more) =
    let (r, ran, held, changed) = one_wait_lem sys child e ts t msg good in
    elim (Bool-cases (is_reported sys e ts)) [
      | inl reported ↦ (
        record { returned = some e; threads = r.threads; continued = r.continued; rest = es },
        rw (ran, changed, reported) refl,
        [],
        tt,
        inr (e, refl, refl, reported, held),
      )
      | inr passed ↦
          let (w, ran', pre, all, out) = waitpid_skip_lem sys child es (track_one sys e ts) more in
          (
            record w { continued = r.continued ++ w.continued },
            rw (ran, changed, passed) (rw (held, ran') refl),
            e ∷ pre,
            (passed, all),
            elim out [
              | inl (gone, whole, left) ↦ inl (gone, ap (λ (l : List Event). e ∷ l) whole, left)
              | inr (x, got, split, new, left) ↦
                  inr (x, got, ap (λ (l : List Event). e ∷ l) split, new, left)
            ],
          )
    ]
