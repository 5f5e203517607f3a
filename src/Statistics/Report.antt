-- ===== src/Statistics/Report.antt =====
-- src/statistics.cpp, src/zofi.cpp: what the program prints at its end.
use zofi.Base.{
  ◌+◌, ap, suc, ℤ, Bool, List, Option, Outcome, String, [], arith, false, length, none, ok, refl,
  some, true, ◌>>=◌, ◌∷◌, ◌≡◌, ℕ,
}
use zofi.Statistics.Store.{
  count_or_zero, skipped, ulong, at_or_die, csv_types, dump, get_type_str, number, put, seconds,
  text, Printed, StatType, Statistics, binary, corrupted, dump_to_csv, exception, get_str, get_strs,
  incr, inf_exec, inject_to, make, masked, num_tests, orig_exec_time, set_double, set_ulong,
  test_runs, tests_exec_time,
}
use Prim.Native.Char.{code}
use zofi.Statistics.Counts.{
  ft_skipped, incr_stats_counter, AllSet, FtStatus, incr-count_of, incr_all,
  incr_stats_counter-incr, type_of,
}
use zofi.Utils.Text.{Text}

abbrev pub has : {V : Type 0} → Option V → Bool
has none = false
has (some v) = true

-- The entries that the two report files read.
pub record IsReady {D : Type 0} (st : Statistics D) : Type 0 where
  pub has_binary : has (st.string_map binary) ≡ true
  pub has_inject_to : has (st.string_map inject_to) ≡ true
  pub has_test_runs : has (st.ulong_map test_runs) ≡ true
  pub has_masked : has (st.ulong_map masked) ≡ true
  pub has_exception : has (st.ulong_map exception) ≡ true
  pub has_inf_exec : has (st.ulong_map inf_exec) ≡ true
  pub has_corrupted : has (st.ulong_map corrupted) ≡ true
  pub has_orig : has (st.double_map orig_exec_time) ≡ true
  pub has_tests : has (st.double_map tests_exec_time) ≡ true
  pub has_num : has (st.ulong_map num_tests) ≡ true

-- The statistics as main fills them: the constructor, the time of the original run, the status of
-- each test run, the time of the test runs and their number.
unfoldable pub collected :
    {D : Type 0} → Text → Text → ℕ → D → D → List FtStatus → Outcome (Statistics D)
collected bin inject runs orig tests statuses = do
  s0 ← set_double orig_exec_time orig (make bin inject runs)
  s1 ← incr_all statuses s0
  s2 ← set_double tests_exec_time tests s1
  set_ulong num_tests runs s2

abbrev pub AllSkipped : List FtStatus → Type 0
AllSkipped [] = Unit {0}
AllSkipped (s ∷ rest) = (s ≡ ft_skipped) × AllSkipped rest

module _ {D : Type 0} where
  -- What the increments leave set.
  record IsFilled (st : Statistics D) : Type 0 where
    has_strings : (has (st.string_map binary) ≡ true) × (has (st.string_map inject_to) ≡ true)
    has_runs : has (st.ulong_map test_runs) ≡ true
    has_counts :
        (has (st.ulong_map masked) ≡ true)
        × (has (st.ulong_map exception) ≡ true)
        × (has (st.ulong_map inf_exec) ≡ true)
        × (has (st.ulong_map corrupted) ≡ true)
    has_orig : has (st.double_map orig_exec_time) ≡ true

  incr-IsFilled :
      (s : StatType) (st st' : Statistics D) → IsFilled st → incr s st ≡ ok st' → IsFilled st'
  unfolding incr
  incr-IsFilled masked st st' f e = ground arith
  incr-IsFilled _ st st' f e = ground arith

  incr_all-IsFilled :
      (l : List FtStatus) (st : Statistics D)
      → AllSet l
      → IsFilled st
      → (st' : Statistics D) × (incr_all l st ≡ ok st') × IsFilled st'
  unfolding incr_all
  incr_all-IsFilled [] st h f = (st, refl, f)
  incr_all-IsFilled (s ∷ rest) st h f =
      let (same, counter) = incr_stats_counter-incr s st h.0 in
      let (mid, ran, _) = incr-count_of (type_of s) st counter in
      let (st', more, f') =
        incr_all-IsFilled rest mid h.1 (incr-IsFilled (type_of s) st mid f ran) in
      (st', rw (same, incr_all) (rw ran more), f')

  made : Text → Text → ℕ → D → Statistics D
  made bin inject runs orig =
      let st = make bin inject runs in
      record st { double_map = put orig_exec_time orig st.double_map }

  made-IsFilled : (bin inject : Text) (runs : ℕ) (orig : D) → IsFilled (made bin inject runs orig)
  unfolding made make
  made-IsFilled bin inject runs orig = ground arith

  collected-IsReady :
      (bin inject : Text) (runs : ℕ) (orig tests : D) (l : List FtStatus)
      → AllSet l
      → (st : Statistics D) × (collected bin inject runs orig tests l ≡ ok st) × IsReady st
  unfolding collected set_double set_ulong made
  collected-IsReady bin inject runs orig tests l h =
      let (st, ran, f) =
        incr_all-IsFilled l (made bin inject runs orig) h (made-IsFilled bin inject runs orig) in
      (
        record st {
          double_map = put tests_exec_time tests st.double_map;
          ulong_map = put num_tests runs st.ulong_map;
        },
        rw (ran, collected),
        ready st f,
      )
    where
      ready :
          (st : Statistics D)
          → IsFilled st
          → IsReady (record st {
            double_map = put tests_exec_time tests st.double_map;
            ulong_map = put num_tests runs st.ulong_map;
          })
      ready st f = ground arith

  at_or_die-ok :
      {V : Type 0} (f : V → Printed D) (o : Option V)
      → has o ≡ true
      → (v : Printed D) × (at_or_die f o ≡ ok v)
  at_or_die-ok f none h = cc
  at_or_die-ok f (some v) h = (f v, refl)

  abbrev AllRead : List StatType → Statistics D → Type 0
  AllRead [] st = Unit {0}
  AllRead (s ∷ rest) st = ((v : Printed D) × (get_str s st ≡ ok v)) × AllRead rest st

  get_strs-ok :
      (l : List StatType) (st : Statistics D)
      → AllRead l st
      → (rows : List (String × Printed D)) × (get_strs l st ≡ ok rows) × (length rows ≡ length l)
  unfolding get_strs
  get_strs-ok [] st h = ([], refl, refl)
  get_strs-ok (s ∷ rest) st h =
      let (rows, ran, size) = get_strs-ok rest st h.1 in
      ((get_type_str s, h.0.0) ∷ rows, rw (h.0.1, get_strs) (rw ran), ap suc size)

  IsReady-AllRead : (st : Statistics D) → IsReady st → AllRead csv_types st
  unfolding get_str
  IsReady-AllRead st r = (
    at_or_die-ok text (st.string_map binary) r.has_binary,
    (
      at_or_die-ok text (st.string_map inject_to) r.has_inject_to,
      (
        at_or_die-ok number (st.ulong_map test_runs) r.has_test_runs,
        (
          at_or_die-ok number (st.ulong_map masked) r.has_masked,
          (
            at_or_die-ok number (st.ulong_map exception) r.has_exception,
            (
              at_or_die-ok number (st.ulong_map inf_exec) r.has_inf_exec,
              (
                at_or_die-ok number (st.ulong_map corrupted) r.has_corrupted,
                (
                  at_or_die-ok seconds (st.double_map orig_exec_time) r.has_orig,
                  (
                    at_or_die-ok seconds (st.double_map tests_exec_time) r.has_tests,
                    (at_or_die-ok number (st.ulong_map num_tests) r.has_num, tt),
                  ),
                ),
              ),
            ),
          ),
        ),
      ),
    ),
  )

  -- For every list of final statuses of the test runs, the statistics that main collects give
  -- dumpToCSV a value for each of its ten columns.
  pub dump_to_csv-collected :
      (bin inject : Text) (runs : ℕ) (orig tests : D) (l : List FtStatus)
      → AllSet l
      → (st : Statistics D) × (collected bin inject runs orig tests l ≡ ok st)
        × (rows : List (String × Printed D)) × (dump_to_csv st ≡ ok rows)
        × (length rows ≡ length csv_types)
  unfolding dump_to_csv
  dump_to_csv-collected bin inject runs orig tests l h =
      let (st, ran, ready) = collected-IsReady bin inject runs orig tests l h in
      let (rows, read, size) = get_strs-ok csv_types st (IsReady-AllRead st ready) in
      (st, ran, rows, read, size)

  incr-skipped :
      (st : Statistics D)
      → st.total_inj_ok ≡ 0
      → (st' : Statistics D) × (incr skipped st ≡ ok st') × (st'.total_inj_ok ≡ 0)
  unfolding incr
  incr-skipped st z = (
    record st {
      ulong_map = put skipped (ulong (count_or_zero (st.ulong_map skipped) + 1)) st.ulong_map;
      grand_total = ulong (st.grand_total + 1);
    },
    refl,
    z,
  )

  skipped_keeps_total :
      (l : List FtStatus) (st : Statistics D)
      → AllSkipped l
      → st.total_inj_ok ≡ 0
      → (st' : Statistics D) × (incr_all l st ≡ ok st') × (st'.total_inj_ok ≡ 0)
  unfolding incr_all incr_stats_counter
  skipped_keeps_total [] st h z = (st, refl, z)
  skipped_keeps_total (s ∷ rest) st h z =
      let (mid, one, zero_still) = incr-skipped st z in
      let (st', ran, z') = skipped_keeps_total rest mid h.1 zero_still in
      (st', rw (h.0, incr_all) (rw one ran), z')

  -- Where every test run ends as Skipped, dump prints "No Results.", whatever their number: the row
  -- of the skipped runs is not reached.
  pub dump-skipped :
      (bin inject : Text) (runs : ℕ) (code : ℤ) (l : List FtStatus)
      → AllSkipped l
      → (st : Statistics D) × (incr_all l (make bin inject runs) ≡ ok st) × (dump code st ≡ ok none)
  unfolding dump make
  dump-skipped bin inject runs code l h =
      let (st, ran, z) = skipped_keeps_total l (make bin inject runs) h refl in
      (st, ran, rw (z, dump))
