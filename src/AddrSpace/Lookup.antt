-- ===== src/AddrSpace/Lookup.antt =====
-- src/addrSpace.cpp: the constructor and isInLibrary together.
use zofi.Base.{
  Bool, List, Option, Outcome, [], ap, arith, die, leb, ltb, none, ok, refl, some, sym, true, ℕ,
  ◌&&◌, ◌++◌, ◌<◌, ◌>>=◌, ◌∙◌, ◌∷◌, ◌≡◌, ◌≤◌,
}
use zofi.AddrSpace.Maps.{Locals, insert_mapping, parse_maps, scan_line}
use zofi.AddrSpace.Mappings.{Mapping, is_in_library, is_so, less}
use mathlib.Core.Path.{subst}
use mathlib.Core.List.{append-nil, append_assoc}
use zofi.AddrSpace.Found.{AllFrom, find_mapping-first_covering, first_covering}
use zofi.Utils.Text.{Text}

module _ (hex : Text → Option (ℕ × Text)) where
  -- The ranges and paths of the lines, in their order.
  abbrev pub scanned : List (Text × Locals) → List Mapping
  scanned [] = []
  scanned ((line, l) ∷ rest) =
      let s = scan_line hex line l in
      record { from = s.from; to = s.to; path = s.path } ∷ scanned rest

  -- AddressSpace::AddressSpace and isInLibrary.
  unfoldable pub address_in_library : List (Text × Locals) → ℕ → Outcome Bool
  address_in_library lines addr = do ms ← parse_maps hex lines []; is_in_library ms addr

-- A mapping above the others goes to the end.
insert_at_end :
    (a : ℕ) (ms rest : List Mapping) (m : Mapping)
    → AllFrom a (ms ++ m ∷ rest)
    → (a ≤ m.from) × (m.from < m.to) × (insert_mapping m ms ≡ ms ++ m ∷ [])
unfolding insert_mapping less
insert_at_end a [] rest m (low, grows, h) = (low, grows, refl)
insert_at_end a (x ∷ ms) rest m (low, grows, h) =
    let (above, wide, ran) = insert_at_end x.to ms rest m h in
    let under : (ltb x.from m.from && ltb x.to m.to) ≡ true = ground arith in
    (omega arith, wide, rw under (ap (λ r. x ∷ r) ran))

module _ (hex : Text → Option (ℕ × Text)) where
  parse_maps-append :
      (lines : List (Text × Locals)) (ms : List Mapping)
      → AllFrom 0 (ms ++ scanned hex lines)
      → parse_maps hex lines ms ≡ ok (ms ++ scanned hex lines)
  unfolding parse_maps
  parse_maps-append [] ms h = ap ok (sym (append-nil ms))
  parse_maps-append ((line, l) ∷ rest) ms h =
      let s = scan_line hex line l in
      let m : Mapping = record { from = s.from; to = s.to; path = s.path } in
      let (above, wide, ran) = insert_at_end 0 ms (scanned hex rest) m h in
      let fits : leb s.from s.to ≡ true = ground arith in
      let moved = append_assoc ms (m ∷ []) (scanned hex rest) in
      rw (fits, ran)
        (parse_maps-append rest (ms ++ m ∷ []) (subst (AllFrom 0) (sym moved) h) ∙ ap ok moved)

  -- Where the lines of a process give ranges that are not empty, in order and disjoint but for their
  -- ends, isInLibrary after the constructor looks at the first range with From ≤ Addr ≤ To, and dies
  -- when there is none.
  pub address_in_library_lem :
      (lines : List (Text × Locals)) (addr : ℕ)
      → AllFrom 0 (scanned hex lines)
      → address_in_library hex lines addr ≡ (elim (first_covering addr (scanned hex lines)) [
        | none ↦ die
        | some m ↦ ok (is_so m.path)
      ])
  unfolding address_in_library is_in_library
  address_in_library_lem lines addr h = rw (parse_maps-append lines [] h) (
      ap (λ o. elim o as (λ x. Outcome Bool) [ none ↦ die | some m ↦ ok (is_so m.path) ])
        (find_mapping-first_covering addr 0 (scanned hex lines) h))
