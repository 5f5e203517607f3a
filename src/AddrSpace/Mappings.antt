-- ===== src/AddrSpace/Mappings.antt =====
-- src/addrSpace.h: Mapping and its order; src/addrSpace.cpp: isInLibrary. The std::set is the list of
-- its mappings in order.
use zofi.Base.{
  Bool, List, Option, Outcome, [], die, if◌then◌else◌, length, ltb, none, ok, some, suc, ℕ, ◌%◌,
  ◌&&◌, ◌+◌, ◌-◌, ◌==◌, ◌^◌, ◌∷◌,
}
use zofi.Utils.Text.{Text, codes, starts_with}

pub record Mapping : Type 0 where
  pub from : ℕ
  pub to : ℕ
  pub path : Text

-- Mapping::operator<
unfoldable pub less : Mapping → Mapping → Bool
less m n = ltb m.from n.from && ltb m.to n.to

-- Mapping::Mapping(unsigned long Addr)
unfoldable pub query : ℕ → Mapping
query addr = record { from = addr; to = addr; path = codes "Query" }

-- std::set::find: the first mapping that is not less than the query, unless the query is less.
unfoldable pub find_mapping : ℕ → List Mapping → Option Mapping
find_mapping addr [] = none
find_mapping addr (m ∷ ms) =
    let rest = find_mapping addr ms in
    if less m (query addr) then rest else if less (query addr) m then none else some m

-- std::string::rfind, where `none` is npos.
unfoldable pub rfind_text : Text → Text → Option ℕ
rfind_text [] p = if starts_with [] p then some 0 else none
rfind_text (c ∷ s) p = elim (rfind_text s p) [
  | some at ↦ some (suc at)
  | none ↦ if starts_with (c ∷ s) p then some 0 else none
]

-- A size_t.
abbrev pub size_t : ℕ → ℕ
size_t n = n % 2 ^ 64

abbrev pub or_npos : Option ℕ → ℕ
or_npos none = 2 ^ 64 - 1
or_npos (some at) = at

-- `Path.rfind(So) == Path.size() - So.size()`
unfoldable pub is_so : Text → Bool
is_so path = or_npos (rfind_text path (codes ".so")) == size_t (length path + (2 ^ 64 - 3))

-- AddressSpace::isInLibrary
unfoldable pub is_in_library : List Mapping → ℕ → Outcome Bool
is_in_library ms addr = elim (find_mapping addr ms) [ none ↦ die | some m ↦ ok (is_so m.path) ]
