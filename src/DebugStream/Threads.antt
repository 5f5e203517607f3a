-- ===== src/DebugStream/Threads.antt =====
-- src/debugstream.h: Dbg::operator<< in several threads of one process, which share Mtx and the
-- stream. Each access to one of these is a step, in any order of the threads.
use zofi.Base.{List, Option, [], false, if◌then◌else◌, none, some, true, ℕ, ◌++◌, ◌==◌, ◌∷◌, ◌≡◌}
use zofi.Utils.Text.{Text}
use zofi.DebugStream.Dbg.{Call, is_shown}

pub record Shared : Type 0 where
  -- The thread that has locked Mtx.
  pub owner : Option ℕ
  -- What has been printed, each piece with its thread.
  pub out : List (ℕ × Text)

-- Where a thread stands, with the calls of operator<< that it still makes.
pub data Pc : Type 0 where
  ready : List Call → Pc
  locked : Call → List Call → Pc
  printed : List Call → Pc

-- One step of operator<< in a thread.
pub data Move (i : ℕ) (s : Shared) : Pc → Shared → Pc → Type 0 where
  quiet :
      {c : Call} {l : List Call} → is_shown c.stream ≡ false → Move i s (ready (c ∷ l)) s (ready l)
  lock :
      {c : Call} {l : List Call}
      → is_shown c.stream ≡ true
      → s.owner ≡ none
      → Move i s (ready (c ∷ l)) (record s { owner = some i }) (locked c l)
  print :
      {c : Call} {l : List Call}
      → Move i s (locked c l) (record s { out = s.out ++ (i, c.str) ∷ [] }) (printed l)
  unlock : {l : List Call} → Move i s (printed l) (record s { owner = none }) (ready l)

pub record System : Type 0 where
  pub shared : Shared
  pub pc : ℕ → Pc

unfoldable pub update_pc : (ℕ → Pc) → ℕ → Pc → ℕ → Pc
update_pc f i p j = if i == j then p else f j

pub data Step (s : System) : System → Type 0 where
  pick :
      (i : ℕ) {sh : Shared} {p : Pc}
      → Move i s.shared (s.pc i) sh p
      → Step s (record { shared = sh; pc = update_pc s.pc i p })

-- The calls that each thread makes.
abbrev pub start_system : (ℕ → List Call) → System
start_system program = record {
  shared = record { owner = none; out = [] };
  pc = λ i. ready (program i);
}

pub data Reach (program : ℕ → List Call) : System → Type 0 where
  here : Reach program (start_system program)
  next : {s t : System} → Reach program s → Step s t → Reach program t
