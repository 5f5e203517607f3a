-- ===== src/Statistics/Counts.antt =====
-- The counters of Statistics over any sequence of outcomes, and how a job's status is counted:
-- src/threads.cpp, incrStatsCounter.
use zofi.Base.{
  ==_iff, Bool-cases, ap, get_elem?, inl, inr, some, refl, true, Bool, List, Outcome, [], arith,
  die, if◌then◌else◌, ok, ◌+◌, ◌==◌, ◌>>=◌, ◌∷◌, ◌≡◌, ◌≢◌, ℕ,
}
use zofi.Statistics.Store.{
  binary, inject_to, orig_exec_time, test_runs, tests_exec_time, is_counter, is_failed_or_skipped,
  put, StatType, Statistics, corrupted, count_or_zero, detected, exception, incr, inf_exec,
  inj_failed, make, masked, num_tests, skipped, stat_index, ulong,
}
use zofi.Utils.Text.{Text}

-- enum class FtStatus of src/runner.h
pub data FtStatus : Type 0 where
  no_status ft_masked ft_exception ft_inf_exec ft_corrupted ft_detected ft_inj_failed ft_skipped :
      FtStatus

module _ {D : Type 0} where
  unfoldable pub incr_stats_counter : FtStatus → Statistics D → Outcome (Statistics D)
  incr_stats_counter no_status st = die
  incr_stats_counter ft_masked st = incr masked st
  incr_stats_counter ft_exception st = incr exception st
  incr_stats_counter ft_inf_exec st = incr inf_exec st
  incr_stats_counter ft_corrupted st = incr corrupted st
  incr_stats_counter ft_detected st = incr detected st
  incr_stats_counter ft_inj_failed st = incr inj_failed st
  incr_stats_counter ft_skipped st = incr skipped st

  unfoldable pub incr_all : List FtStatus → Statistics D → Outcome (Statistics D)
  incr_all [] st = ok st
  incr_all (s ∷ rest) st = do st' ← incr_stats_counter s st; incr_all rest st'

abbrev pub is_same : StatType → StatType → Bool
is_same s t = stat_index s == stat_index t

-- The counter that a status is counted under.
abbrev pub type_of : FtStatus → StatType
type_of no_status = num_tests
type_of ft_masked = masked
type_of ft_exception = exception
type_of ft_inf_exec = inf_exec
type_of ft_corrupted = corrupted
type_of ft_detected = detected
type_of ft_inj_failed = inj_failed
type_of ft_skipped = skipped

abbrev pub AllSet : List FtStatus → Type 0
AllSet [] = Unit {0}
AllSet (s ∷ rest) = (s ≢ no_status) × AllSet rest

-- How many of the statuses are counted under a type.
abbrev pub occurrences : StatType → List FtStatus → ℕ
occurrences t [] = 0
occurrences t (s ∷ rest) = (if is_same t (type_of s) then 1 else 0) + occurrences t rest

abbrev pub count_of : {D : Type 0} → StatType → Statistics D → ℕ
count_of s st = count_or_zero (st.ulong_map s)

-- The totals agree with the counters, modulo the width of an unsigned long.
pub record IsBalanced {D : Type 0} (st : Statistics D) : Type 0 where
  pub ok_total :
      st.total_inj_ok
      ≡ ulong (
          count_of masked st
          + count_of exception st
          + count_of inf_exec st
          + count_of corrupted st
          + count_of detected st)
  pub grand :
      st.grand_total ≡ ulong (st.total_inj_ok + count_of inj_failed st + count_of skipped st)

pub make-IsBalanced :
    {D : Type 0} (bin inject : Text) (runs : ℕ) → IsBalanced (make {D = D} bin inject runs)
unfolding make
make-IsBalanced bin inject runs = ground arith

all_types : List StatType
all_types =
    masked ∷ exception ∷ inf_exec ∷ corrupted ∷ detected ∷ inj_failed ∷ skipped ∷ orig_exec_time
    ∷ tests_exec_time ∷ num_tests ∷ binary ∷ inject_to ∷ test_runs ∷ []

all_types-stat_index : (s : StatType) → get_elem? all_types (stat_index s) ≡ some s
unfolding all_types
all_types-stat_index masked = refl
all_types-stat_index _ = refl

stat_index_inj : (s t : StatType) → stat_index s ≡ stat_index t → s ≡ t
stat_index_inj s t e = cc (all_types-stat_index s, all_types-stat_index t)

module _ {D : Type 0} where
  pub incr-IsBalanced :
      (s : StatType) (st st' : Statistics D) → IsBalanced st → incr s st ≡ ok st' → IsBalanced st'
  unfolding incr
  incr-IsBalanced masked st st' b e = ground arith
  incr-IsBalanced _ st st' b e = ground arith

  -- The effect of one increment on every counter.
  pub incr-count_of :
      (s : StatType) (st : Statistics D)
      → is_counter s ≡ true
      → (st' : Statistics D) × (incr s st ≡ ok st')
        × ((t : StatType)
            → count_of t st' ≡ (if is_same t s then ulong (count_of s st + 1) else count_of t st))
  unfolding incr
  incr-count_of s st h = (
    record st {
      ulong_map = put s (ulong (count_or_zero (st.ulong_map s) + 1)) st.ulong_map;
      total_inj_ok =
          if is_failed_or_skipped s then st.total_inj_ok else ulong (st.total_inj_ok + 1);
      grand_total = ulong (st.grand_total + 1);
    },
    rw h,
    λ t. ground arith,
  )

  pub incr_stats_counter-incr :
      (s : FtStatus) (st : Statistics D)
      → s ≢ no_status
      → (incr_stats_counter s st ≡ incr (type_of s) st) × (is_counter (type_of s) ≡ true)
  unfolding incr_stats_counter
  incr_stats_counter-incr no_status st h = absurd (h refl)
  incr_stats_counter-incr _ st h = (refl, refl)

  same_index :
      (s t : StatType) (st : Statistics D) → is_same t s ≡ true → count_of t st ≡ count_of s st
  same_index s t st h = ap (λ u. count_of u st) (stat_index_inj t s ((==_iff _ _).0 h))

  count_step :
      (t u : StatType) (st mid st' : Statistics D) (rest : List FtStatus)
      → count_of t mid ≡ (if is_same t u then ulong (count_of u st + 1) else count_of t st)
      → ulong (count_of t st') ≡ ulong (count_of t mid + occurrences t rest)
      → ulong (count_of t st')
        ≡ ulong (count_of t st + ((if is_same t u then 1 else 0) + occurrences t rest))
  count_step t u st mid st' rest grown e = elim (Bool-cases (is_same t u)) [
    | inl hit ↦ rw hit (omega (arith, rw hit at grown, same_index u t st hit))
    | inr miss ↦ rw miss (omega (arith, rw miss at grown))
  ]

  -- Any sequence of statuses is counted in full: the counter of each type grows by the number of
  -- statuses of that type, modulo 2 ^ 64, and the totals keep agreeing with the counters.
  pub incr_all-count_of :
      (l : List FtStatus) (st : Statistics D)
      → AllSet l
      → IsBalanced st
      → (st' : Statistics D) × (incr_all l st ≡ ok st')
        × IsBalanced st'
        × ((t : StatType) → ulong (count_of t st') ≡ ulong (count_of t st + occurrences t l))
  unfolding incr_all
  incr_all-count_of [] st h b = (st, refl, b, λ t. omega arith)
  incr_all-count_of (s ∷ rest) st h b =
      let (same, counter) = incr_stats_counter-incr s st h.0 in
      let (mid, ran, grown) = incr-count_of (type_of s) st counter in
      let (st', more, b', counts) =
        incr_all-count_of rest mid h.1 (incr-IsBalanced (type_of s) st mid b ran) in
      (
        st',
        rw (same, incr_all) (rw ran more),
        b',
        λ t. count_step t (type_of s) st mid st' rest (grown t) (counts t),
      )
