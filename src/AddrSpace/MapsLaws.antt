-- ===== src/AddrSpace/MapsLaws.antt =====
-- src/addrSpace.cpp: parse on a line in the format of /proc/PID/maps.
use zofi.AddrSpace.Maps.{with_path, Locals, scan_line, scan_middle, scan_path, scan_to}
use zofi.Utils.Scan.{scan_word, scan_char, scan_long, scan_word_max, take_word}
use zofi.Base.{
  ap, drop, suc, take, zero, ℤ, ◌∙◌, Bool-cases, Option, false, inl, inr, length, some, ◌*◌, ◌+◌,
  ◌-◌, ◌≤◌, Bool, [], arith, not, refl, true, ℕ, ◌&&◌, ◌++◌, ◌∷◌, ◌≡◌,
}
use zofi.Utils.Number.{sign_of, strtol, digits_from, skip_spaces, is_digit, is_space}
use zofi.Utils.Text.{Text}
use mathlib.Core.Option

abbrev pub is_word : Text → Bool
is_word [] = true
is_word (c ∷ s) = not (is_space c) && is_word s

abbrev pub all_digits : Text → Bool
all_digits [] = true
all_digits (c ∷ s) = is_digit c && all_digits s

take_word_whole :
    (w : Text) (c : ℕ) (rest : Text)
    → is_word w ≡ true
    → is_space c ≡ true
    → take_word (w ++ c ∷ rest) ≡ (w, c ∷ rest)
unfolding take_word
take_word_whole [] c rest h sp = rw sp refl
take_word_whole (d ∷ w) c rest h sp = ground (arith, take_word_whole w c rest)

-- `hex` reads this word, up to the byte `stop`.
abbrev pub ReadsHex : (Text → Option (ℕ × Text)) → Text → ℕ → ℕ → Type 0
ReadsHex hex w stop n = (rest : Text) → hex (w ++ stop ∷ rest) ≡ some (n, stop ∷ rest)

blank : is_space b' ' ≡ true
unfolding is_space
blank = refl

blank-digit : is_digit b' ' ≡ false
unfolding is_digit
blank-digit = refl

first_letter : (d : ℕ) (w : Text) → is_word (d ∷ w) ≡ true → is_space d ≡ false
first_letter d w h = ground arith

-- One space, then a word: skip_spaces stops at the word.
skip_one : (d : ℕ) (s : Text) → is_space d ≡ false → skip_spaces (b' ' ∷ d ∷ s) ≡ d ∷ s
unfolding skip_spaces
skip_one d s h = rw blank (rw h refl)

-- A word after one space, and before another.
scan_word_max_cut :
    (n d : ℕ) (w rest : Text)
    → is_word (d ∷ w) ≡ true
    → scan_word_max n (b' ' ∷ d ∷ (w ++ b' ' ∷ rest))
      ≡ some (take n (d ∷ w), drop n (d ∷ w) ++ b' ' ∷ rest)
unfolding scan_word_max
scan_word_max_cut n d w rest h =
    rw
      (
        skip_one d (w ++ b' ' ∷ rest) (first_letter d w h),
        take_word_whole (d ∷ w) b' ' rest h blank,
      )
      refl

take_all : (n : ℕ) (w : Text) → length w ≤ n → take n w ≡ w
take_all zero [] le = refl
take_all (suc n) [] le = refl
take_all zero (c ∷ w) le = absurd (omega arith)
take_all (suc n) (c ∷ w) le = ap (λ r. c ∷ r) (take_all n w (omega arith))

drop_all : (n : ℕ) (w : Text) → length w ≤ n → drop n w ≡ []
drop_all zero [] le = refl
drop_all (suc n) [] le = refl
drop_all zero (c ∷ w) le = absurd (omega arith)
drop_all (suc n) (c ∷ w) le = drop_all n w (omega arith)

scan_word_max_whole :
    (n d : ℕ) (w rest : Text)
    → is_word (d ∷ w) ≡ true
    → length (d ∷ w) ≤ n
    → scan_word_max n (b' ' ∷ d ∷ (w ++ b' ' ∷ rest)) ≡ some (d ∷ w, b' ' ∷ rest)
scan_word_max_whole n d w rest h le =
    scan_word_max_cut n d w rest h ∙ rw (take_all n (d ∷ w) le, drop_all n (d ∷ w) le) refl

digits_from_whole :
    (acc : ℕ) (ds : Text) (c : ℕ) (rest : Text)
    → all_digits ds ≡ true
    → is_digit c ≡ false
    → (digits_from acc (ds ++ c ∷ rest)).1 ≡ c ∷ rest
unfolding digits_from
digits_from_whole acc [] c rest h e = rw e refl
digits_from_whole acc (d ∷ ds) c rest h e = elim (Bool-cases (is_digit d)) [
  | inl y ↦ rw y (digits_from_whole (acc * 10 + (d - b'0')) ds c rest (ground arith) e)
  | inr n ↦ cc (rw n at h)
]

digit_no_space : (d : ℕ) → is_digit d ≡ true → is_space d ≡ false
unfolding is_digit is_space
digit_no_space d h = ground arith

digit_no_sign : (d : ℕ) (s : Text) → is_digit d ≡ true → sign_of (d ∷ s) ≡ (false, d ∷ s)
unfolding sign_of is_digit
digit_no_sign d s h = ground arith

-- A number after one space, or none, and before another byte.
strtol-rest :
    (s : Text) (d : ℕ) (ds : Text) (c : ℕ) (rest : Text)
    → skip_spaces s ≡ d ∷ (ds ++ c ∷ rest)
    → all_digits (d ∷ ds) ≡ true
    → is_digit c ≡ false
    → Option.map (λ (r : ℤ × Text). r.1) (scan_long s) ≡ some (c ∷ rest)
unfolding scan_long strtol
strtol-rest s d ds c rest at_digit h e =
    let digit : is_digit d ≡ true = ground arith in
    rw (at_digit, digit_no_sign d (ds ++ c ∷ rest) digit)
      (rw digit (ap some (digits_from_whole (0 + (d - b'0')) ds c rest (ground arith) e)))

digits-is_word : (s : Text) → all_digits s ≡ true → is_word s ≡ true
digits-is_word [] h = refl
digits-is_word (c ∷ s) h =
    let here = digit_no_space c (ground arith) in ground (arith, digits-is_word s)

scan_word_here :
    (d : ℕ) (w rest : Text)
    → is_word (d ∷ w) ≡ true
    → scan_word (b' ' ∷ d ∷ (w ++ b' ' ∷ rest)) ≡ some (d ∷ w, b' ' ∷ rest)
unfolding scan_word
scan_word_here d w rest h =
    rw
      (
        skip_one d (w ++ b' ' ∷ rest) (first_letter d w h),
        take_word_whole (d ∷ w) b' ' rest h blank,
      )
      refl

not_skipped : (d : ℕ) (s : Text) → is_space d ≡ false → skip_spaces (d ∷ s) ≡ d ∷ s
unfolding skip_spaces
not_skipped d s h = rw h refl

module _ (hex : Text → Option (ℕ × Text)) (from to num p d i : ℕ)
    (from_word to_word perms offset dev inode tail : Text) (l : Locals)
    (from_reads : ReadsHex hex from_word b'-' from) (to_reads : ReadsHex hex to_word b' ' to)
    (offset_reads : ReadsHex hex (b' ' ∷ offset) b' ' num) (perms_word : is_word (p ∷ perms) ≡ true)
    (perms_fit : length (p ∷ perms) ≤ 4) (dev_word : is_word (d ∷ dev) ≡ true)
    (inode_digits : all_digits (i ∷ inode) ≡ true) where
  abbrev after_dev : Text
  after_dev = b' ' ∷ i ∷ (inode ++ b' ' ∷ tail)

  -- A line of /proc/PID/maps: the addresses, the permissions, the offset, the device, the inode, and
  -- after a space the rest.
  abbrev pub maps_line : Text
  maps_line =
      from_word
      ++ b'-' ∷ (to_word ++ b' ' ∷ p ∷ (perms ++ b' ' ∷ (offset ++ b' ' ∷ d ∷ (dev ++ after_dev))))

  to_middle :
      scan_line hex maps_line l
      ≡ scan_path hex
          (b' ' ∷ p ∷ (perms ++ b' ' ∷ (offset ++ b' ' ∷ d ∷ (dev ++ after_dev))))
          (record l { from = from; to = to })
  unfolding scan_line scan_to scan_char mathlib.Core.Option.bind
  to_middle = rw (from_reads _, scan_line) (rw (to_reads _, scan_line) refl)

  middle :
      scan_middle hex (b' ' ∷ p ∷ (perms ++ b' ' ∷ (offset ++ b' ' ∷ d ∷ (dev ++ after_dev))))
      ≡ Option.map (λ (r : ℤ × Text). r.1) (scan_long (drop 5 (d ∷ dev) ++ after_dev))
  unfolding scan_middle mathlib.Core.Option.bind
  middle =
      rw
        (
          scan_word_max_whole 4 p perms _ perms_word perms_fit,
          offset_reads _,
          scan_word_max_cut 5 d dev (i ∷ (inode ++ b' ' ∷ tail)) dev_word,
        )
        refl

  digits_from_inode : Option.map (λ (r : ℤ × Text). r.1) (scan_long after_dev) ≡ some (b' ' ∷ tail)
  digits_from_inode =
      strtol-rest after_dev i inode b' ' tail
        (skip_one i (inode ++ b' ' ∷ tail) (digit_no_space i (ground arith))) inode_digits
        blank-digit

  -- Where the device takes at most five bytes, the scan of a line gives its addresses, and the path
  -- is the next word of the rest; without one, Path keeps what it held before.
  scan_line-short_dev :
      length (d ∷ dev) ≤ 5
      → scan_line hex maps_line l
        ≡ with_path (scan_word (b' ' ∷ tail)) (record l { from = from; to = to })
  unfolding scan_path mathlib.Core.Option.bind
  scan_line-short_dev short =
      to_middle
      ∙ ap (λ o. with_path (Option.bind o scan_word) (record l { from = from; to = to }))
          (middle
            ∙ ap (λ t. Option.map (λ (r : ℤ × Text). r.1) (scan_long (t ++ after_dev)))
                (drop_all 5 (d ∷ dev) short)
            ∙ digits_from_inode)

  -- Where it takes more, and only digits follow its first five bytes, the path is the inode.
  pub scan_line-long_dev :
      (x : ℕ) (more : Text)
      → drop 5 (d ∷ dev) ≡ x ∷ more
      → all_digits (x ∷ more) ≡ true
      → scan_line hex maps_line l ≡ record { from = from; to = to; path = i ∷ inode }
  unfolding scan_path mathlib.Core.Option.bind
  scan_line-long_dev x more cut digits =
      let begins = not_skipped x (more ++ after_dev) (digit_no_space x (ground arith)) in
      to_middle
      ∙ ap (λ o. with_path (Option.bind o scan_word) (record l { from = from; to = to }))
          (middle
            ∙ ap (λ t. Option.map (λ (r : ℤ × Text). r.1) (scan_long (t ++ after_dev))) cut
            ∙ strtol-rest (x ∷ (more ++ after_dev)) x more b' ' (i ∷ (inode ++ b' ' ∷ tail)) begins
                digits blank-digit)
      ∙ ap (λ o. with_path o (record l { from = from; to = to }))
          (scan_word_here i inode tail (digits-is_word (i ∷ inode) inode_digits))
