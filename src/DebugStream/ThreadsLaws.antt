-- ===== src/DebugStream/ThreadsLaws.antt =====
-- src/debugstream.h: what Mtx gives, in every state that the threads can reach.
use zofi.Base.{
  Option-cases, Option, none, some_inj, sym, ◌∙◌, ◌≢◌, Bool, Bool-cases, List, [], ap, arith, false,
  if◌then◌else◌, inl, inr, refl, some, true, ℕ, ◌++◌, ◌==◌, ◌∷◌, ◌≡◌,
}
use zofi.DebugStream.Threads.{
  Move, Reach, Shared, here, next, update_pc, Pc, Step, System, locked, printed, ready,
  start_system,
}
use mathlib.Core.List.{append-nil, append_assoc}
use mathlib.Core.Path.{subst}
use zofi.Utils.Text.{Text}
use zofi.DebugStream.Dbg.{Call, is_shown}

abbrev pub is_critical : Pc → Bool
is_critical (ready l) = false
is_critical (locked c l) = true
is_critical (printed l) = true

-- What the calls print at their levels.
abbrev pub shown : List Call → List Text
shown [] = []
shown (c ∷ l) = if is_shown c.stream then c.str ∷ shown l else shown l

-- What a thread has yet to print.
abbrev pub pending : Pc → List Text
pending (ready l) = shown l
pending (locked c l) = c.str ∷ shown l
pending (printed l) = shown l

-- What one thread has printed.
abbrev pub texts_of : ℕ → List (ℕ × Text) → List Text
texts_of i [] = []
texts_of i ((j, s) ∷ l) = if j == i then s ∷ texts_of i l else texts_of i l

texts_of-snoc :
    (i j : ℕ) (s : Text) (l : List (ℕ × Text))
    → texts_of i (l ++ (j, s) ∷ []) ≡ texts_of i l ++ (if j == i then s ∷ [] else [])
texts_of-snoc i j s [] = ground arith
texts_of-snoc i j s ((k, t) ∷ l) = elim (Bool-cases (k == i)) [
  | inl e ↦ rw e (ap (λ x. t ∷ x) (texts_of-snoc i j s l))
  | inr e ↦ rw e (texts_of-snoc i j s l)
]

-- Mtx is locked by the thread that is between lock and unlock, and each thread has printed its calls
-- up to where it stands.
pub record Inv (program : ℕ → List Call) (s : System) : Type 0 where
  pub owned : (i : ℕ) → is_critical (s.pc i) ≡ true → s.shared.owner ≡ some i
  pub held : (i : ℕ) → s.shared.owner ≡ some i → is_critical (s.pc i) ≡ true
  pub texts : (i : ℕ) → texts_of i s.shared.out ++ pending (s.pc i) ≡ shown (program i)

start_system-Inv : (program : ℕ → List Call) → Inv program (start_system program)
start_system-Inv program = record {
  owned = λ i e. absurd (cc e);
  held = λ i e. absurd (cc e);
  texts = λ i. refl;
}

same_thread : (i : ℕ) → (i == i) ≡ true
same_thread i = ground arith

-- A property of each thread, after one of them has moved.
at_each :
    (P : ℕ → Pc → Type 0) (f : ℕ → Pc) (i : ℕ) (p : Pc)
    → P i p
    → ((j : ℕ) → (i == j) ≡ false → P j (f j))
    → (j : ℕ) → P j (update_pc f i p j)
unfolding update_pc
at_each P f i p moved others j = elim (Bool-cases (i == j)) [
  | inl e ↦
      let same : i ≡ j = ground arith in
      subst (λ k. P k (if i == k then p else f k)) same (rw (same_thread i) moved)
  | inr e ↦ rw e (others j e)
]

two_owners : (o : Option ℕ) (i j : ℕ) → o ≡ some i → o ≡ some j → (i == j) ≡ true
two_owners o i j e h = rw (some_inj (sym e ∙ h)) (same_thread j)

apart_owners : (o : Option ℕ) (i j : ℕ) → o ≡ some i → o ≡ some j → (i == j) ≡ false → ⊥
apart_owners o i j e h n = cc (two_owners o i j e h)

no_owner : (o : Option ℕ) (j : ℕ) → o ≡ none → o ≡ some j → ⊥
no_owner o j e h = cc

-- What a thread that is not the one that prints has printed is as before.
texts_of-other :
    (i j : ℕ) (s : Text) (l : List (ℕ × Text)) (rest : List Text)
    → (i == j) ≡ false
    → texts_of j (l ++ (i, s) ∷ []) ++ rest ≡ texts_of j l ++ rest
texts_of-other i j s l rest n =
    ap (λ x. x ++ rest) (texts_of-snoc j i s l ∙ rw n (append-nil (texts_of j l)))

texts_of-own :
    (i : ℕ) (s : Text) (l : List (ℕ × Text)) (rest : List Text)
    → texts_of i (l ++ (i, s) ∷ []) ++ rest ≡ texts_of i l ++ s ∷ rest
texts_of-own i s l rest =
    ap (λ x. x ++ rest) (texts_of-snoc i i s l ∙ rw (same_thread i) refl)
    ∙ append_assoc (texts_of i l) (s ∷ []) rest

abbrev moved_to : System → ℕ → Shared → Pc → System
moved_to s i sh p = record { shared = sh; pc = update_pc s.pc i p }

abbrev Owned : Option ℕ → ℕ → Pc → Type 0
Owned o j p = is_critical p ≡ true → o ≡ some j

abbrev Held : Option ℕ → ℕ → Pc → Type 0
Held o j p = o ≡ some j → is_critical p ≡ true

Move-Inv :
    {program : ℕ → List Call} {s : System} {i : ℕ} {sh : Shared} {p q : Pc}
    → Move i s.shared p sh q
    → s.pc i ≡ p
    → Inv program s
    → Inv program (moved_to s i sh q)
Move-Inv {program} {s} {i} (Move.quiet {c} {l} hidden) e inv = record {
  owned = at_each (Owned s.shared.owner) s.pc i (ready l) (λ h. absurd (cc h)) (λ j n. inv.owned j);
  held =
      at_each (Held s.shared.owner) s.pc i (ready l) (λ h. absurd (cc (rw e at (inv.held i h))))
        (λ j n. inv.held j);
  texts =
      at_each (λ j x. texts_of j s.shared.out ++ pending x ≡ shown (program j)) s.pc i (ready l)
        (rw hidden at (rw e at (inv.texts i))) (λ j n. inv.texts j);
}
Move-Inv {program} {s} {i} (Move.lock {c} {l} visible free) e inv = record {
  owned =
      at_each (Owned (some i)) s.pc i (locked c l) (λ h. refl)
        (λ j n h. absurd (no_owner s.shared.owner j free (inv.owned j h)));
  held =
      at_each (Held (some i)) s.pc i (locked c l) (λ h. refl)
        (λ j n h. absurd (apart_owners (some i) i j refl h n));
  texts =
      at_each (λ j x. texts_of j s.shared.out ++ pending x ≡ shown (program j)) s.pc i (locked c l)
        (rw visible at (rw e at (inv.texts i))) (λ j n. inv.texts j);
}
Move-Inv {program} {s} {i} (Move.print {c} {l}) e inv = record {
  owned =
      at_each (Owned s.shared.owner) s.pc i (printed l) (λ h. inv.owned i (rw e refl))
        (λ j n. inv.owned j);
  held = at_each (Held s.shared.owner) s.pc i (printed l) (λ h. refl) (λ j n. inv.held j);
  texts =
      at_each (λ j x. texts_of j (s.shared.out ++ (i, c.str) ∷ []) ++ pending x ≡ shown (program j))
        s.pc i (printed l) (texts_of-own i c.str s.shared.out (shown l) ∙ (rw e at (inv.texts i)))
        (λ j n. texts_of-other i j c.str s.shared.out (pending (s.pc j)) n ∙ inv.texts j);
}
Move-Inv {program} {s} {i} (Move.unlock {l}) e inv = record {
  owned =
      at_each (Owned none) s.pc i (ready l) (λ h. absurd (cc h))
        (λ j n h.
          absurd (apart_owners s.shared.owner i j (inv.owned i (rw e refl)) (inv.owned j h) n));
  held = at_each (Held none) s.pc i (ready l) (λ h. absurd (cc h)) (λ j n h. absurd (cc h));
  texts =
      at_each (λ j x. texts_of j s.shared.out ++ pending x ≡ shown (program j)) s.pc i (ready l)
        (rw e at (inv.texts i)) (λ j n. inv.texts j);
}

Step-Inv : {program : ℕ → List Call} {s t : System} → Step s t → Inv program s → Inv program t
Step-Inv (Step.pick i m) inv = Move-Inv m refl inv

pub Reach-Inv : {program : ℕ → List Call} {s : System} → Reach program s → Inv program s
Reach-Inv {program} here = start_system-Inv program
Reach-Inv (next r st) = Step-Inv st (Reach-Inv r)

-- In every state that the threads can reach, at most one thread is between lock and unlock, and each
-- thread has printed, in order and once each, the pieces of its calls whose level is shown, but for
-- those that it has yet to print.
pub operator_out-ordered :
    {program : ℕ → List Call} {s : System}
    → Reach program s
    → ((i j : ℕ) → is_critical (s.pc i) ≡ true → is_critical (s.pc j) ≡ true → i ≡ j)
      × ((i : ℕ) → texts_of i s.shared.out ++ pending (s.pc i) ≡ shown (program i))
operator_out-ordered {program} {s} r =
    let inv = Reach-Inv r in (λ i j a b. some_inj (sym (inv.owned i a) ∙ inv.owned j b), inv.texts)

move_at :
    (s : System) (j : ℕ) (p : Pc) {sh : Shared} {q : Pc}
    → s.pc j ≡ p
    → Move j s.shared p sh q
    → (t : System) × Step s t
move_at s j p {sh} {q} e m =
    (moved_to s j sh q, Step.pick j (subst (λ x. Move j s.shared x sh q) (sym e) m))

critical_moves :
    (s : System) (j : ℕ) (p : Pc) → s.pc j ≡ p → is_critical p ≡ true → (t : System) × Step s t
critical_moves s j (ready l) e h = cc
critical_moves s j (locked c l) e h = move_at s j (locked c l) e Move.print
critical_moves s j (printed l) e h = move_at s j (printed l) e Move.unlock

busy_moves :
    {program : ℕ → List Call} (s : System) (i : ℕ) (p : Pc)
    → Inv program s
    → s.pc i ≡ p
    → p ≢ ready []
    → (t : System) × Step s t
busy_moves s i (ready []) inv e busy = absurd (busy refl)
busy_moves s i (ready (c ∷ l)) inv e busy = elim (Bool-cases (is_shown c.stream)) [
  | inr hidden ↦ move_at s i (ready (c ∷ l)) e (Move.quiet hidden)
  | inl visible ↦ elim (Option-cases s.shared.owner) [
    | inl free ↦ move_at s i (ready (c ∷ l)) e (Move.lock visible free)
    | inr (j, owner) ↦ critical_moves s j (s.pc j) refl (inv.held j owner)
  ]
]
busy_moves s i (locked c l) inv e busy = critical_moves s i (locked c l) e refl
busy_moves s i (printed l) inv e busy = critical_moves s i (printed l) e refl

-- In every state that the threads can reach, while a thread is not at its end, some thread can take a
-- step.
operator_out-no_deadlock :
    {program : ℕ → List Call} {s : System}
    → Reach program s
    → (i : ℕ) → s.pc i ≢ ready []
    → (t : System) × Step s t
operator_out-no_deadlock {program} {s} r i busy = busy_moves s i (s.pc i) (Reach-Inv r) refl busy
