-- ===== src/AddrSpace/Found.antt =====
-- src/addrSpace.h, src/addrSpace.cpp: the mapping that an address is found in.
use zofi.Base.{
  Bool, Bool-cases, In, List, Option, [], ap, arith, false, if◌then◌else◌, inl, inr, leb, ltb, none,
  refl, some, sym, true, ℕ, ◌&&◌, ◌<◌, ◌∙◌, ◌∷◌, ◌≡◌, ◌≤◌,
}
use zofi.AddrSpace.Mappings.{Mapping, find_mapping, less, query}

-- Both ends count.
abbrev pub covers : ℕ → Mapping → Bool
covers addr m = leb m.from addr && leb addr m.to

abbrev pub first_covering : ℕ → List Mapping → Option Mapping
first_covering addr [] = none
first_covering addr (m ∷ ms) =
    let rest = first_covering addr ms in if covers addr m then some m else rest

-- The mappings of a process: ranges that are not empty, in order, and disjoint but for their ends.
abbrev pub AllFrom : ℕ → List Mapping → Type 0
AllFrom a [] = Unit {0}
AllFrom a (m ∷ ms) = (a ≤ m.from) × (m.from < m.to) × AllFrom m.to ms

later_covers :
    (addr a : ℕ) (ms : List Mapping) → AllFrom a ms → addr < a → first_covering addr ms ≡ none
later_covers addr a [] h less_a = refl
later_covers addr a (m ∷ ms) (above, grows, h) less_a =
    let out : covers addr m ≡ false = ground arith in
    rw out (later_covers addr m.to ms h (omega arith))

-- In the mappings of a process, the search of std::set finds the first mapping with From ≤ Addr and
-- Addr ≤ To, and no mapping when there is none.
pub find_mapping-first_covering :
    (addr a : ℕ) (ms : List Mapping) → AllFrom a ms → find_mapping addr ms ≡ first_covering addr ms
unfolding find_mapping less query
find_mapping-first_covering addr a [] h = refl
find_mapping-first_covering addr a (m ∷ ms) (above, grows, h) = elim (Bool-cases (covers addr m)) [
  | inl inside ↦
      let not_less : (ltb m.from addr && ltb m.to addr) ≡ false = ground arith in
      let not_more : (ltb addr m.from && ltb addr m.to) ≡ false = ground arith in
      rw (not_less, not_more, inside) refl
  | inr outside ↦ elim (Bool-cases (ltb m.to addr)) [
    | inl after ↦
        let is_less : (ltb m.from addr && ltb m.to addr) ≡ true = ground arith in
        rw (is_less, outside) (find_mapping-first_covering addr m.to ms h)
    | inr before ↦
        let not_less : (ltb m.from addr && ltb m.to addr) ≡ false = ground arith in
        let is_more : (ltb addr m.from && ltb addr m.to) ≡ true = ground arith in
        rw (not_less, is_more, outside) (sym (later_covers addr m.to ms h (ground arith)))
  ]
]

-- An address at which one mapping of a process ends is found in that mapping, although /proc/PID/maps
-- gives To as the first address past it: also where the next mapping begins there.
pub find_mapping-end :
    (a : ℕ) (ms : List Mapping) (m : Mapping)
    → AllFrom a ms
    → In m ms
    → find_mapping m.to ms ≡ some m
find_mapping-end a ms m h there = find_mapping-first_covering m.to a ms h ∙ covered a ms h there
  where
    above_all : (b : ℕ) (ns : List Mapping) → AllFrom b ns → In m ns → b < m.to
    above_all b [] h there = elim there [ ]
    above_all b (n ∷ ns) (above, grows, h) (inl same) = rw same (omega arith)
    above_all b (n ∷ ns) (above, grows, h) (inr later) =
        let beyond = above_all n.to ns h later in omega arith

    covered : (a : ℕ) (ms : List Mapping) → AllFrom a ms → In m ms → first_covering m.to ms ≡ some m
    covered a [] h there = elim there [ ]
    covered a (n ∷ ns) (above, grows, h) (inl same) =
        let inside : covers m.to n ≡ true = rw same (ground arith) in rw inside (ap some (sym same))
    covered a (n ∷ ns) (above, grows, h) (inr later) =
        let beyond : n.to < m.to = above_all n.to ns h later in
        let outside : covers m.to n ≡ false = ground arith in rw outside (covered n.to ns h later)
