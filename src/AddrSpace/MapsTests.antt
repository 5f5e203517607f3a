-- ===== src/AddrSpace/MapsTests.antt =====
-- src/addrSpace.cpp: parse on two lines, of a file on an NVMe partition and of one elsewhere.
use zofi.AddrSpace.Maps.{scan_middle, scan_path, scan_to, Locals, scan_line, with_path}
use zofi.Utils.Number.{digits_from, sign_of, strtol, is_digit, is_space, skip_spaces}
use zofi.Utils.Scan.{scan_char, scan_long, scan_word_max, scan_word, take_word}
use zofi.AddrSpace.Found.{AllFrom, first_covering}
use zofi.AddrSpace.Lookup.{address_in_library, address_in_library_lem, scanned}
use zofi.AddrSpace.Mappings.{is_so}
use zofi.Base.{
  List, die, none, ok, Bool, Option, [], arith, if◌then◌else◌, leb, refl, some, true, ℕ, ◌&&◌, ◌*◌,
  ◌+◌, ◌-◌, ◌||◌, ◌∷◌, ◌≡◌,
}
use zofi.AddrSpace.MapsLaws.{ReadsHex, all_digits, is_word, scan_line-long_dev}
use zofi.Utils.Text.{Text, codes}

abbrev is_hex_letter : ℕ → Bool
is_hex_letter c = leb b'a' c && leb c b'f'

hex_from : ℕ → Text → ℕ × Text
hex_from acc [] = (acc, [])
hex_from acc (c ∷ s) =
    let value = if is_digit c then c - b'0' else c - 87 in
    let rest = hex_from (acc * 16 + value) s in
    if is_digit c || is_hex_letter c then rest else (acc, c ∷ s)

read_hex : Text → Option (ℕ × Text)
unfolding hex_from skip_spaces is_space is_digit
read_hex s = some (hex_from 0 (skip_spaces s))

abbrev stale : Locals
stale = record { from = 0; to = 0; path = codes "/lib/a.so" }

low_reads : ReadsHex read_hex (codes "4000") b'-' 16384
unfolding read_hex
low_reads rest = refl

high_reads : ReadsHex read_hex (codes "5000") b' ' 20480
unfolding read_hex
high_reads rest = refl

zero_reads : ReadsHex read_hex (b' ' ∷ codes "00") b' ' 0
unfolding read_hex
zero_reads rest = refl

all_word : is_word (codes "r-xp") ≡ true
unfolding is_space
all_word = refl

short_word : is_word (codes "08:01") ≡ true
unfolding is_space
short_word = refl

long_word : is_word (codes "103:02") ≡ true
unfolding is_space
long_word = refl

inode_12 : all_digits (codes "12") ≡ true
unfolding is_digit
inode_12 = refl

nothing_follows : with_path (scan_word (codes " ")) stale ≡ stale
unfolding scan_word skip_spaces is_space take_word
nothing_follows = refl

digit_2 : all_digits (codes "2") ≡ true
unfolding is_digit
digit_2 = refl

-- Device 103:02, of six bytes.
scan_line-long_dev_example :
    scan_line read_hex (codes "4000-5000 r-xp 00 103:02 12 /lib/b.so") stale
    ≡ record { from = 16384; to = 20480; path = codes "12" }
scan_line-long_dev_example =
    scan_line-long_dev read_hex 16384 20480 0 b'r' b'1' b'1' (codes "4000") (codes "5000")
      (codes "-xp") (codes "00") (codes "03:02") (codes "2") (codes "/lib/b.so") stale low_reads
      high_reads zero_reads all_word (omega arith) long_word inode_12 b'2' [] refl digit_2

abbrev two_lines : List (Text × Locals)
two_lines =
    (codes "4000-5000 r-xp 00 08:01 12 /bin/ls", stale)
    ∷ (codes "5000-6000 r-xp 00 08:01 13 /lib/c.so", stale)
    ∷ []

two_lines-AllFrom : AllFrom 0 (scanned read_hex two_lines)
unfolding scan_line scan_to scan_path scan_middle scan_word_max scan_word scan_long scan_char
    take_word read_hex strtol skip_spaces is_space is_digit digits_from sign_of
    mathlib.Core.Option.bind
two_lines-AllFrom = (omega arith, omega arith, (omega arith, omega arith, tt))

address_in_library_lem_example :
    address_in_library read_hex two_lines 20490
    ≡ (elim (first_covering 20490 (scanned read_hex two_lines)) [
      | none ↦ die
      | some m ↦ ok (is_so m.path)
    ])
address_in_library_lem_example = address_in_library_lem read_hex two_lines 20490 two_lines-AllFrom
