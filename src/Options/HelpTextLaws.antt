-- ===== src/Options/HelpTextLaws.antt =====
-- src/options.cpp: the lines of a description in printAllOptions.
use zofi.Base.{
  false, lt→ltb, none, ok, ◌-◌, Bool, Bool-cases, List, [], arith, drop, get_or, if◌then◌else◌, inl,
  inr, length, length-drop, length-take, ltb, refl, some, suc, take, take-append-drop, true, zero,
  ℕ, ◌&&◌, ◌++◌, ◌+◌, ◌<◌, ◌==◌, ◌∷◌, ◌≡◌, ◌≤◌,
}
use zofi.Options.HelpText.{
  max_flag_width, max_substr_len, print_all_options, print_options, first_idx,
  is_line_split_candidate, split_lines, substr_len,
}
use zofi.Options.Registry.{OptionsMap}
use zofi.Utils.Text.{Text}

-- Of any `max_len` bytes in a row one is a split candidate; `k` is the number of bytes since the last.
unfoldable pub words_fit : ℕ → ℕ → Text → Bool
words_fit max_len k [] = true
words_fit max_len k (c ∷ s) =
    let k' = if is_line_split_candidate c then 0 else suc k in
    ltb k' max_len && words_fit max_len k' s

abbrev pub FitIn : ℕ → List Text → Type 0
FitIn n [] = Unit {0}
FitIn n (l ∷ ls) = (length l ≤ n) × FitIn n ls

abbrev pub concat : List Text → Text
concat [] = []
concat (l ∷ ls) = l ++ concat ls

substr_len-le : (s : Text) (i : ℕ) → substr_len s i ≤ suc i
unfolding substr_len
substr_len-le s zero = ground arith
substr_len-le s (suc i) = ground (arith, substr_len-le s i)

substr_len_found :
    (s : Text) (i j : ℕ)
    → j ≤ i
    → is_line_split_candidate (get_or s j 0) ≡ true
    → 0 < substr_len s i
unfolding substr_len
substr_len_found s zero j le c = let e : j ≡ 0 = omega arith in rw (rw e at c) (omega arith)
substr_len_found s (suc i) j le c =
    elim (Bool-cases (is_line_split_candidate (get_or s (suc i) 0))) [
      | inl e ↦ rw e (omega arith)
      | inr e ↦ elim (Bool-cases (j == suc i)) [
        | inl here ↦ let same : j ≡ suc i = ground arith in cc (rw same at c)
        | inr before ↦ rw e (substr_len_found s i j (ground arith) c)
      ]
    ]

words_fit-monotone :
    (max_len j k : ℕ) (s : Text)
    → j ≤ k
    → words_fit max_len k s ≡ true
    → words_fit max_len j s ≡ true
unfolding words_fit
words_fit-monotone max_len j k [] le h = refl
words_fit-monotone max_len j k (c ∷ s) le h = elim (Bool-cases (is_line_split_candidate c)) [
  | inl e ↦ rw e (rw e at h)
  | inr e ↦ ground (arith, words_fit-monotone max_len (suc j) (suc k) s)
]

words_fit-drop :
    (max_len k n : ℕ) (s : Text)
    → words_fit max_len k s ≡ true
    → words_fit max_len 0 (drop n s) ≡ true
unfolding words_fit
words_fit-drop max_len k zero s h = words_fit-monotone max_len 0 k s (omega arith) h
words_fit-drop max_len k (suc n) [] h = refl
words_fit-drop max_len k (suc n) (c ∷ s) h =
    words_fit-drop max_len (if is_line_split_candidate c then 0 else suc k) n s (ground arith)

words_fit-candidate :
    (max_len k : ℕ) (s : Text)
    → k < max_len
    → words_fit max_len k s ≡ true
    → (j : ℕ) × (k + j < max_len) × (j ≤ length s) × (is_line_split_candidate (get_or s j 0) ≡ true)
unfolding words_fit is_line_split_candidate
words_fit-candidate max_len k [] lt h = (0, omega arith, omega arith, refl)
words_fit-candidate max_len k (c ∷ s) lt h = elim (Bool-cases (is_line_split_candidate c)) [
  | inl e ↦ (0, omega arith, omega arith, e)
  | inr e ↦
      let fits : (ltb (suc k) max_len && words_fit max_len (suc k) s) ≡ true = rw e at h in
      let (j, near, inside, found) =
        words_fit-candidate max_len (suc k) s (ground arith) (ground arith) in
      (suc j, omega arith, omega arith, found)
]

-- Each round of the loop prints something, and at most MaxSubstrLen bytes.
round :
    (max_len : ℕ) (s : Text)
    → 0 < max_len
    → words_fit max_len 0 s ≡ true
    → (0 < substr_len s (first_idx max_len s)) × (substr_len s (first_idx max_len s) ≤ max_len)
unfolding first_idx
round max_len s lt h =
    let (j, near, inside, found) = words_fit-candidate max_len 0 s lt h in
    (
      substr_len_found s (first_idx max_len s) j (ground arith) found,
      ground (arith, substr_len-le s (first_idx max_len s)),
    )

split_lines-run :
    (fuel max_len : ℕ) (s : Text)
    → 0 < max_len
    → words_fit max_len 0 s ≡ true
    → length s ≤ fuel
    → (lines : List Text) × (split_lines fuel max_len s ≡ some lines)
      × (concat lines ≡ s)
      × FitIn max_len lines
unfolding split_lines
split_lines-run fuel max_len [] lt h enough = ([], refl, refl, tt)
split_lines-run zero max_len (c ∷ s) lt h enough = absurd (omega arith)
split_lines-run (suc fuel) max_len (c ∷ s) lt h enough =
    let n = substr_len (c ∷ s) (first_idx max_len (c ∷ s)) in
    let (some_printed, fits) = round max_len (c ∷ s) lt h in
    let (lines, ran, all, each) =
      split_lines-run fuel max_len (drop n (c ∷ s)) lt (words_fit-drop max_len 0 n (c ∷ s) h)
        (omega (arith, length-drop n (c ∷ s))) in
    (
      take n (c ∷ s) ∷ lines,
      rw ran refl,
      rw all (take-append-drop n (c ∷ s)),
      (omega (arith, length-take n (c ∷ s)), each),
    )

-- Every description has its split candidates.
abbrev pub descriptions_fit : {D : Type 0} → ℕ → OptionsMap D → Bool
descriptions_fit max_len [] = true
descriptions_fit max_len (o ∷ m) = words_fit max_len 0 o.description && descriptions_fit max_len m

-- The texts that the lines are parts of.
abbrev pub joined : List (Text × List Text) → List (Text × Text)
joined [] = []
joined ((f, lines) ∷ l) = (f, concat lines) ∷ joined l

abbrev pub descriptions : {D : Type 0} → OptionsMap D → List (Text × Text)
descriptions [] = []
descriptions (o ∷ m) = (o.flag, o.description) ∷ descriptions m

abbrev pub AllFitIn : ℕ → List (Text × List Text) → Type 0
AllFitIn n [] = Unit {0}
AllFitIn n ((f, lines) ∷ l) = FitIn n lines × AllFitIn n l

print_options_lem :
    {D : Type 0} (max_len : ℕ) (m : OptionsMap D)
    → 0 < max_len
    → descriptions_fit max_len m ≡ true
    → (out : List (Text × List Text)) × (print_options max_len m ≡ some out)
      × (joined out ≡ descriptions m)
      × AllFitIn max_len out
unfolding print_options
print_options_lem max_len [] lt h = ([], refl, refl, tt)
print_options_lem max_len (o ∷ m) lt h =
    let (lines, ran, whole, fits) =
      split_lines-run (length o.description) max_len o.description lt (ground arith)
        (omega arith) in
    let (out, ran', whole', fits') = print_options_lem max_len m lt (ground arith) in
    (
      (o.flag, lines) ∷ out,
      rw (ran, ran', print_options) refl,
      rw (whole, whole') refl,
      (fits, fits'),
    )

-- A flag of at most 35 bytes leaves over 40 columns, so the assertion holds.
columns : (w : ℕ) → w ≤ 35 → max_substr_len w ≡ 76 - w
unfolding max_substr_len
columns w h = omega arith

module _ {D : Type 0} (m : OptionsMap D) where
  -- Where no flag is longer than 35 bytes and every description has a split candidate among any
  -- MaxSubstrLen bytes in a row, printAllOptions ends without a failed assertion, prints every option's
  -- whole description, and each line with its terminating byte fits in DescrSubstr and, with the
  -- columns of the flags before it, in 80 columns.
  pub print_all_options_lem :
      max_flag_width m ≤ 35
      → descriptions_fit (76 - max_flag_width m) m ≡ true
      → (out : List (Text × List Text)) × (print_all_options m ≡ ok (some out))
        × (joined out ≡ descriptions m)
        × AllFitIn (76 - max_flag_width m) out
        × (76 - max_flag_width m < 80)
  unfolding print_all_options
  print_all_options_lem w h =
      let (out, ran, whole, fits) = print_options_lem (76 - max_flag_width m) m (omega arith) h in
      (
        out,
        rw (columns (max_flag_width m) w, lt→ltb 40 (76 - max_flag_width m) (omega arith), ran)
            refl,
        whole,
        fits,
        omega arith,
      )

no_substr :
    (s : Text) (i : ℕ)
    → ((j : ℕ) → j ≤ i → is_line_split_candidate (get_or s j 0) ≡ false)
    → substr_len s i ≡ 0
unfolding substr_len
no_substr s zero none_found = rw (none_found 0 (omega arith)) refl
no_substr s (suc i) none_found =
    rw (none_found (suc i) (omega arith)) (no_substr s i (λ j le. none_found j (omega arith)))

-- A description that is longer than MaxSubstrLen, with no split candidate among its first
-- MaxSubstrLen bytes, is never printed to its end: the loop does not come to an end, however often
-- it goes round, and the assertion about such descriptions does not fail.
pub split_lines-endless :
    (fuel max_len : ℕ) (s : Text)
    → 0 < max_len
    → max_len ≤ length s
    → ((j : ℕ) → j < max_len → is_line_split_candidate (get_or s j 0) ≡ false)
    → split_lines fuel max_len s ≡ none
unfolding split_lines first_idx
split_lines-endless fuel max_len [] lt len h = absurd (omega arith)
split_lines-endless zero max_len (c ∷ s) lt len h = refl
split_lines-endless (suc fuel) max_len (c ∷ s) lt len h =
    let stuck : substr_len (c ∷ s) (first_idx max_len (c ∷ s)) ≡ 0 =
      no_substr (c ∷ s) (first_idx max_len (c ∷ s)) (λ j le. h j (ground arith)) in
    rw stuck (rw (split_lines-endless fuel max_len (c ∷ s) lt len h) refl)
