-- ===== src/DebugStream/Tests.antt =====
-- Two threads that print two lines.
use zofi.Base.{
  Bool, false, List, Option, [], if◌then◌else◌, map, none, pos, refl, some, true, ℕ, ◌++◌, ◌==◌,
  ◌∷◌, ◌≡◌,
}
use zofi.DebugStream.Threads.{
  Move, Pc, Reach, Shared, Step, System, locked, printed, ready, start_system, update_pc,
}
use zofi.DebugStream.ThreadsLaws.{is_critical, operator_out-ordered, pending, shown, texts_of}
use zofi.Utils.Text.{Text, codes}
use zofi.DebugStream.Dbg.{Call, at_least, calls_of, dbg, get_timestamp, is_shown, make_dbg}
use zofi.Utils.Print.{decimal, decimal_digits}

abbrev thread_0 : List Call
thread_0 =
    record { stream = make_dbg (pos 2) (pos 2); str = codes "Kill " }
    ∷ record { stream = make_dbg (pos 2) (pos 3); str = codes "at level 3" }
    ∷ record { stream = make_dbg (pos 2) (pos 2); str = codes "done" }
    ∷ []

abbrev thread_1 : List Call
thread_1 =
    record { stream = make_dbg (pos 2) (pos 2); str = codes "Before " }
    ∷ record { stream = make_dbg (pos 2) (pos 2); str = codes "waitpid" }
    ∷ []

abbrev two_threads : ℕ → List Call
two_threads i = if i == 0 then thread_0 else if i == 1 then thread_1 else []

abbrev Trace : Type 0
Trace = (s : System) × Reach two_threads s

by_level :
    (i : ℕ) (s : Shared) (c : Call) (l : List Call) (b : Bool)
    → is_shown c.stream ≡ b
    → (o : Option ℕ) → s.owner ≡ o
    → Option ((sh : Shared) × (q : Pc) × Move i s (ready (c ∷ l)) sh q)
by_level i s c l false hidden o e = some (s, ready l, Move.quiet hidden)
by_level i s c l true visible none free =
    some (record s { owner = some i }, locked c l, Move.lock visible free)
by_level i s c l true visible (some j) taken = none

-- A thread's next step, where it has one.
next_move : (i : ℕ) (s : Shared) (p : Pc) → Option ((sh : Shared) × (q : Pc) × Move i s p sh q)
next_move i s (ready []) = none
next_move i s (ready (c ∷ l)) = by_level i s c l (is_shown c.stream) refl s.owner refl
next_move i s (locked c l) =
    some (record s { out = s.out ++ (i, c.str) ∷ [] }, printed l, Move.print)
next_move i s (printed l) = some (record s { owner = none }, ready l, Move.unlock)

turn : ℕ → Trace → Trace
turn i (s, r) = elim (next_move i s.shared (s.pc i)) [
  | none ↦ (s, r)
  | some (sh, q, m) ↦
      (record { shared = sh; pc = update_pc s.pc i q }, Reach.next r (Step.pick i m))
]

turns : List ℕ → Trace → Trace
turns [] t = t
turns (i ∷ l) t = turns l (turn i t)

-- Thread 0 prints a piece, then thread 1 its first, then thread 0 the rest.
abbrev mixed : Trace
mixed = turns (0 ∷ 0 ∷ 0 ∷ 1 ∷ 1 ∷ 1 ∷ 0 ∷ 0 ∷ 0 ∷ 0 ∷ []) (start_system two_threads, Reach.here)

abbrev in_between : List (ℕ × Text)
in_between = (0, codes "Kill ") ∷ (1, codes "Before ") ∷ (0, codes "done") ∷ []

-- The lines of two threads get mixed: the lock is taken for each piece.
mixed_lines : mixed.0.shared.out ≡ in_between
unfolding turns turn next_move update_pc make_dbg is_shown at_least by_level
mixed_lines = refl

operator_out-ordered_example :
    ((i j : ℕ) → is_critical (mixed.0.pc i) ≡ true → is_critical (mixed.0.pc j) ≡ true → i ≡ j)
    × ((i : ℕ) → texts_of i mixed.0.shared.out ++ pending (mixed.0.pc i) ≡ shown (two_threads i))
operator_out-ordered_example = operator_out-ordered mixed.1

abbrev at_start : Trace
at_start = (start_system two_threads, Reach.here)

dbg_line :
    map (λ (c : Call). c.str) (dbg (pos 2) (pos 2) 65546 (codes "run") (codes "hello" ∷ []))
    ≡ codes "[" ∷ codes "10" ∷ codes "] " ∷ codes "run" ∷ codes "(): " ∷ codes "hello" ∷ []
unfolding dbg calls_of get_timestamp decimal decimal_digits
dbg_line = refl
