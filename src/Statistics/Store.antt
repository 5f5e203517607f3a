-- ===== src/Statistics/Store.antt =====
-- class Statistics. The mutex is not modelled: each method runs alone. A counter is an unsigned
-- long and wraps. A double is a parameter `D`. An uncaught exception of std::map::at is `die`.
use zofi.Base.{
  Bool, List, Option, Outcome, String, [], die, false, if◌then◌else◌, ltb, negsuc, none, ok, pos,
  some, true, ℤ, ◌%◌, ◌*◌, ◌++◌, ◌+◌, ◌==◌, ◌>>=◌, ◌^◌, ◌∷◌, ℕ,
}
use zofi.Utils.Text.{Text}

pub data StatType : Type 0 where
  masked exception inf_exec corrupted detected inj_failed skipped : StatType
  orig_exec_time tests_exec_time num_tests : StatType
  binary inject_to test_runs : StatType

abbrev pub stat_index : StatType → ℕ
stat_index masked = 0
stat_index exception = 1
stat_index inf_exec = 2
stat_index corrupted = 3
stat_index detected = 4
stat_index inj_failed = 5
stat_index skipped = 6
stat_index orig_exec_time = 7
stat_index tests_exec_time = 8
stat_index num_tests = 9
stat_index binary = 10
stat_index inject_to = 11
stat_index test_runs = 12

-- getTypeStr
unfoldable pub get_type_str : StatType → String
get_type_str masked = "Masked"
get_type_str exception = "Exception"
get_type_str inf_exec = "InfExec"
get_type_str corrupted = "Corrupted"
get_type_str detected = "Detected"
get_type_str inj_failed = "InjectionFailed"
get_type_str skipped = "Skipped"
get_type_str orig_exec_time = "OrigExecTime"
get_type_str tests_exec_time = "TestsExecTime"
get_type_str num_tests = "NumTests"
get_type_str binary = "Binary"
get_type_str inject_to = "InjectTo"
get_type_str test_runs = "TestRuns"

-- std::map<Type, V>
abbrev pub StatMap : Type 0 → Type 0
StatMap V = StatType → Option V

abbrev pub put : {V : Type 0} → StatType → V → StatMap V → StatMap V
put s v m t = if stat_index t == stat_index s then some v else m t

abbrev pub ulong : ℕ → ℕ
ulong n = n % 2 ^ 64

pub record Statistics (D : Type 0) : Type 0 where
  pub ulong_map : StatMap ℕ
  pub string_map : StatMap Text
  pub double_map : StatMap D
  pub total_inj_ok : ℕ
  pub grand_total : ℕ

-- What getStr hands to std::to_string, or the string itself.
pub data Printed (D : Type 0) : Type 0 where
  number : ℕ → Printed D
  seconds : D → Printed D
  text : Text → Printed D

-- ULongMap[S], which inserts a zero.
abbrev pub count_or_zero : Option ℕ → ℕ
count_or_zero none = 0
count_or_zero (some n) = n

abbrev pub is_counter : StatType → Bool
is_counter s = ltb (stat_index s) 7

abbrev pub is_failed_or_skipped : StatType → Bool
is_failed_or_skipped inj_failed = true
is_failed_or_skipped skipped = true
is_failed_or_skipped _ = false

-- StatsToPrint of dumpToCSV.
abbrev pub csv_types : List StatType
csv_types =
    binary ∷ inject_to ∷ test_runs ∷ masked ∷ exception ∷ inf_exec ∷ corrupted ∷ orig_exec_time
    ∷ tests_exec_time ∷ num_tests ∷ []

abbrev pub is_zero_ℤ : ℤ → Bool
is_zero_ℤ (pos n) = n == 0
is_zero_ℤ (negsuc n) = false

module _ {D : Type 0} where
  -- Statistics::zero
  unfoldable pub set_zero : Statistics D → Statistics D
  set_zero s = record s {
    ulong_map = put skipped 0 (
        put inj_failed 0 (
          put detected 0
            (put corrupted 0 (put inf_exec 0 (put exception 0 (put masked 0 s.ulong_map))))));
  }

  -- Statistics::Statistics, on the values of -bin, -inject-to and -test-runs.
  unfoldable pub make : Text → Text → ℕ → Statistics D
  unfolding set_zero
  make bin inject runs =
      let z = set_zero (record {
        ulong_map = λ s. none;
        string_map = λ s. none;
        double_map = λ s. none;
        total_inj_ok = 0;
        grand_total = 0;
      }) in
      record z {
        string_map = put inject_to inject (put binary bin z.string_map);
        ulong_map = put test_runs runs z.ulong_map;
      }

  unfoldable pub incr : StatType → Statistics D → Outcome (Statistics D)
  incr s st =
      if is_counter s
      then ok (record st {
        ulong_map = put s (ulong (count_or_zero (st.ulong_map s) + 1)) st.ulong_map;
        total_inj_ok =
            if is_failed_or_skipped s then st.total_inj_ok else ulong (st.total_inj_ok + 1);
        grand_total = ulong (st.grand_total + 1);
      })
      else die

  -- set<unsigned long>
  unfoldable pub set_ulong : StatType → ℕ → Statistics D → Outcome (Statistics D)
  set_ulong num_tests v st = ok (record st { ulong_map = put num_tests v st.ulong_map })
  set_ulong test_runs v st = ok (record st { ulong_map = put test_runs v st.ulong_map })
  set_ulong _ v st = die

  -- set<double>
  unfoldable pub set_double : StatType → D → Statistics D → Outcome (Statistics D)
  set_double orig_exec_time v st =
      ok (record st { double_map = put orig_exec_time v st.double_map })
  set_double tests_exec_time v st =
      ok (record st { double_map = put tests_exec_time v st.double_map })
  set_double _ v st = die

  -- std::map::at
  abbrev pub at_or_die : {V : Type 0} → (V → Printed D) → Option V → Outcome (Printed D)
  at_or_die f none = die
  at_or_die f (some v) = ok (f v)

  unfoldable pub get_str : StatType → Statistics D → Outcome (Printed D)
  get_str orig_exec_time st = at_or_die seconds (st.double_map orig_exec_time)
  get_str tests_exec_time st = at_or_die seconds (st.double_map tests_exec_time)
  get_str binary st = at_or_die text (st.string_map binary)
  get_str inject_to st = at_or_die text (st.string_map inject_to)
  get_str s st = at_or_die number (st.ulong_map s)

  -- The rows that dump prints, with the count and the two terms of the percentage, or `none` for
  -- "No Results.".
  abbrev pub count_at : StatType → Statistics D → Outcome ℕ
  count_at s st = elim (st.ulong_map s) [ none ↦ die | some n ↦ ok n ]

  unfoldable pub print_rows : List StatType → Statistics D → Outcome (List (String × ℕ × ℕ))
  print_rows [] st = ok []
  print_rows (s ∷ rest) st = do
    n ← count_at s st
    more ← print_rows rest st
    ok ((get_type_str s, n, ulong (n * 100)) ∷ more)

  unfoldable pub stats_to_print : ℤ → Statistics D → Outcome (List StatType)
  stats_to_print detection_exit_code st = do
    let base = masked ∷ exception ∷ inf_exec ∷ corrupted ∷ []
    let seen = if is_zero_ℤ detection_exit_code then base else base ++ detected ∷ []
    n ← count_at skipped st
    ok (if n == 0 then seen else seen ++ skipped ∷ [])

  unfoldable pub dump : ℤ → Statistics D → Outcome (Option (List (String × ℕ × ℕ)))
  dump detection_exit_code st = if st.total_inj_ok == 0 then ok none else do
    types ← stats_to_print detection_exit_code st
    rows ← print_rows types st
    ok (some rows)

  -- The fields of the row that dumpToCSV appends, and of the files that dumpToMoufoplot writes.
  unfoldable pub get_strs : List StatType → Statistics D → Outcome (List (String × Printed D))
  get_strs [] st = ok []
  get_strs (s ∷ rest) st = do
    v ← get_str s st
    more ← get_strs rest st
    ok ((get_type_str s, v) ∷ more)

  unfoldable pub dump_to_csv : Statistics D → Outcome (List (String × Printed D))
  dump_to_csv st = get_strs csv_types st

  unfoldable pub dump_to_moufoplot : Statistics D → Outcome (List (String × Printed D))
  dump_to_moufoplot st =
      get_strs
        (masked ∷ exception ∷ inf_exec ∷ corrupted ∷ orig_exec_time ∷ tests_exec_time ∷ num_tests
          ∷ [])
        st
