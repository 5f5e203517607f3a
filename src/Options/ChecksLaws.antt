-- ===== src/Options/ChecksLaws.antt =====
-- src/options.cpp: the options that pass the checks.
use zofi.Base.{
  is_some, not, >>=-eq-ok, if◌then◌else◌, Bool, negsuc, pos, refl, ℤ, Option, ap, arith, none,
  some_inj, sym, true, ◌∙◌, Bool-cases, In, List, Outcome, String, [], false, inl, inr, leb, ok,
  some, user_die, ℕ, ◌&&◌, ◌+◌, ◌<◌, ◌∷◌, ◌≡◌, ◌≤◌, ◌⊎◌,
}
use zofi.Utils.Text.{is_in, Text, codes}
use zofi.Options.Checks.{
  check_inject_to, Values, check_bit, check_forced_bit, sanity_checks, InitValues, check_rows,
  init_checks, limit_jobs,
}
use zofi.Regs.Manip.{str_to_reg_map, RegMap, find, insert, populate}
use zofi.Utils.Number.{strtol_check}
use zofi.Regs.Table.{def_regs}
use zofi.Utils.Diff.{same_bytes}
use text.Mathlib.TextEquality.{eq_iff}
use zofi.Regs.Data.{RegData}
use text.Mathlib.Text.{◌==◌ as str_eq}

abbrev IsRow : String × RegData → String × RegData → Type 0
IsRow x y = x ≡ y

check_rows-In :
    (rows : List (String × RegData)) (r : String) (n : ℕ) (d : RegData)
    → check_rows rows r n ≡ ok tt
    → In (r, d) rows
    → n < d.start_bit + d.bits
unfolding check_rows
check_rows-In [] r n d e there = elim there [ ]
check_rows-In ((k, x) ∷ rows) r n d e there =
    elim (Bool-cases (str_eq r k && leb (x.start_bit + x.bits) n)) [
      | inl bad ↦ absurd (died (rw bad at e))
      | inr good ↦ elim there [
        | inl same ↦ here same good
        | inr later ↦ check_rows-In rows r n d (rw good at e) later
      ]
    ]
  where
    died : ◌≡◌ {A = Outcome (Unit {0})} user_die (ok tt) → ⊥
    died h = cc

    here :
        IsRow (r, d) (k, x)
        → (str_eq r k && leb (x.start_bit + x.bits) n) ≡ false
        → n < d.start_bit + d.bits
    here same good =
        let names : r ≡ k = ap (λ (x : String × RegData). x.0) same in
        let rows_same : d ≡ x = ap (λ (x : String × RegData). x.1) same in
        let equal : str_eq r k ≡ true = (eq_iff r k).1 names in rw rows_same (ground arith)

lost : {d : RegData} → ◌≡◌ {A = Option RegData} none (some d) → ⊥
lost h = cc

pair : (r k : String) (d v : RegData) → k ≡ r → v ≡ d → IsRow (r, d) (k, v)
pair r k d v p q = ap (λ (x : String). (x, d)) (sym p) ∙ ap (λ (x : RegData). (k, x)) (sym q)

find-insert :
    (r k : String) (v d : RegData) (m : RegMap)
    → find r (insert k v m) ≡ some d
    → (find r m ≡ some d) ⊎ IsRow (r, d) (k, v)
unfolding find insert
find-insert r k v d [] e = elim (Bool-cases (str_eq k r)) [
  | inl same ↦ inr (pair r k d v ((eq_iff k r).0 same) (some_inj (rw same at e)))
  | inr other ↦ absurd (lost (rw other at e))
]
find-insert r k v d ((j, w) ∷ m) e = elim (Bool-cases (str_eq j k)) [
  | inl replaced ↦ elim (Bool-cases (str_eq k r)) [
    | inl same ↦
        inr (pair r k d v ((eq_iff k r).0 same) (some_inj (rw (replaced, insert, same, find) at e)))
    | inr other ↦
        let names : j ≡ k = (eq_iff j k).0 replaced in
        inl (rw (names, other) (rw (replaced, insert, other, find) at e))
  ]
  | inr kept ↦ elim (Bool-cases (str_eq j r)) [
    | inl same ↦ inl (rw same (rw (kept, insert, same, find) at e))
    | inr other ↦ elim (find-insert r k v d m (rw (kept, insert, other, find) at e)) [
      | inl before ↦ inl (rw other before)
      | inr here ↦ inr here
    ]
  ]
]

find-populate :
    (r : String) (d : RegData) (m : RegMap) (rows : List (String × RegData))
    → find r (populate m rows) ≡ some d
    → (find r m ≡ some d) ⊎ In (r, d) rows
unfolding populate
find-populate r d m [] e = inl e
find-populate r d m ((k, v) ∷ rows) e = elim (find-populate r d (insert k v m) rows e) [
  | inl early ↦ elim (find-insert r k v d m early) [
    | inl before ↦ inl before
    | inr here ↦ inr (inl here)
  ]
  | inr later ↦ inr (inr later)
]

-- The number of jobs after init is at least one and at most the number of hardware threads, when
-- that number is known, that is not zero.
pub init_checks-jobs :
    (hw_threads : ℕ) (o : InitValues) (jobs : ℕ)
    → 0 < hw_threads
    → init_checks hw_threads o ≡ ok jobs
    → (0 < jobs) × (jobs ≤ hw_threads) × (o.injections_per_run ≤ 1)
unfolding init_checks limit_jobs
init_checks-jobs hw_threads o jobs h e = ground arith

check_bit-fits :
    (v : ℤ × Bool) (r : String) (d : RegData)
    → check_bit v (some r) ≡ ok tt
    → find r str_to_reg_map ≡ some d
    → (n : ℕ) × (v ≡ (pos n, true)) × (n < d.start_bit + d.bits)
unfolding check_bit str_to_reg_map find
check_bit-fits (negsuc n, b) r d e found = absurd (cc)
check_bit-fits (pos n, false) r d e found = absurd (cc)
check_bit-fits (pos n, true) r d e found = elim (find-populate r d [] def_regs found) [
  | inl nowhere ↦ absurd (lost nowhere)
  | inr row ↦ (n, refl, check_rows-In def_regs r n d e row)
]

unless-ok : (b : Bool) (m : Outcome (Unit {0})) → (if b then user_die else m) ≡ ok tt → m ≡ ok tt
unless-ok true m e = absurd (cc)
unless-ok false m e = e

-- Options that pass sanityChecks with a forced register of the table and a forced bit other than
-- "help": the bit is a number below the end of the register's bits. That it is not below their
-- start is not checked.
pub sanity_checks-forced :
    (o : Values) (r : String) (word : Text) (d : RegData)
    → sanity_checks o ≡ ok tt
    → o.force_inject_to_reg ≡ some r
    → o.force_inject_to_bit ≡ some word
    → same_bytes word (codes "help") ≡ false
    → find r str_to_reg_map ≡ some d
    → (n : ℕ) × (strtol_check word ≡ (pos n, true)) × (n < d.start_bit + d.bits)
unfolding sanity_checks check_forced_bit
sanity_checks-forced o r word d e forced bit no_help found =
    let e1 = unless-ok (o.inject_to_set && is_some o.force_inject_to_reg) _ e in
    let (u, _, e2) = >>=-eq-ok (check_inject_to o.inject_to) _ e1 in
    let e3 =
      unless-ok (not (is_in o.inject_to (codes "r")) && not (is_in o.inject_to (codes "w"))) _ e2 in
    let e4 : (elim o.force_inject_to_bit [
      | none ↦ ok tt
      | some w ↦ check_forced_bit o.force_inject_to_reg w
    ])
        ≡ ok tt =
      unless-ok
        (((not (is_in o.inject_to (codes "e")) && not (is_in o.inject_to (codes "i")))
            && not (is_in o.inject_to (codes "c")))
          && not (is_in o.inject_to (codes "o")))
        _ e3 in
    let e6 : check_bit (strtol_check word) o.force_inject_to_reg ≡ ok tt =
      rw (no_help, check_forced_bit) at (rw bit at e4) in
    check_bit-fits (strtol_check word) r d (rw forced at e6) found
