-- ===== src/AddrSpace/Maps.antt =====
-- src/addrSpace.cpp: AddressSpace::parse on the lines of /proc/PID/maps. `%lx` of sscanf is the
-- parameter `hex`: the number and the text behind it. The local variables of a round hold something
-- before sscanf writes to them, which is a parameter too.
use zofi.Base.{
  List, Option, Outcome, [], assert, if◌then◌else◌, leb, none, ok, some, ℕ, ◌>>=◌, ◌>>◌, ◌∷◌,
}
use zofi.Utils.Text.{Text}
use zofi.Utils.Scan.{scan_char, scan_long, scan_word, scan_word_max}
use zofi.AddrSpace.Mappings.{Mapping, less}
use mathlib.Core.Option

pub record Locals : Type 0 where
  pub from : ℕ
  pub to : ℕ
  pub path : Text

-- What the last conversion, `%s`, leaves: Path as it was where there is no more word.
abbrev pub with_path : Option (Text × Text) → Locals → Locals
with_path none l = l
with_path (some w) l = record l { path = w.0 }

-- The constructor of Mapping, with its assertion.
abbrev pub make_mapping : Locals → Outcome Mapping
make_mapping l = do
  assert (leb l.from l.to)
  ok (record { from = l.from; to = l.to; path = l.path })

-- std::set::insert, which does nothing where the set has an equivalent mapping.
unfoldable pub insert_mapping : Mapping → List Mapping → List Mapping
insert_mapping m [] = m ∷ []
insert_mapping m (x ∷ ms) =
    let later = x ∷ insert_mapping m ms in
    if less x m then later else if less m x then m ∷ x ∷ ms else x ∷ ms

module _ (hex : Text → Option (ℕ × Text)) where
  -- `-%lx` of the sscanf.
  unfoldable pub scan_to : Text → Option (ℕ × Text)
  scan_to s = Option.bind (scan_char b'-' s) hex

  -- `%4s %lx %5s %ld`, and what follows.
  unfoldable pub scan_middle : Text → Option Text
  scan_middle s = Option.bind (scan_word_max 4 s) λ perms. Option.bind (hex perms.1) λ num.
      Option.bind (scan_word_max 5 num.1) λ dev. Option.map (λ inode. inode.1) (scan_long dev.1)

  -- The rest of the line after the addresses.
  unfoldable pub scan_path : Text → Locals → Locals
  scan_path s l = with_path (Option.bind (scan_middle s) scan_word) l

  -- The whole sscanf.
  unfoldable pub scan_line : Text → Locals → Locals
  scan_line line l = elim (hex line) [
    | none ↦ l
    | some a ↦ elim (scan_to a.1) [
      | none ↦ record l { from = a.0 }
      | some b ↦ scan_path b.1 (record l { from = a.0; to = b.0 })
    ]
  ]

  -- The loop of parse over the lines that end in a newline, each with what the locals of its round hold at first.
  unfoldable pub parse_maps : List (Text × Locals) → List Mapping → Outcome (List Mapping)
  parse_maps [] ms = ok ms
  parse_maps ((line, l) ∷ rest) ms = do
    m ← make_mapping (scan_line line l)
    parse_maps rest (insert_mapping m ms)
