-- ===== src/Scheduler/OnceEach.antt =====
-- Counting jobs by their ids, where each id below a number occurs once.
use zofi.Base.{
  ==_iff, Bool, Bool-cases, List, [], ap, arith, if◌then◌else◌, inl, inr, ltb, refl, suc, sym, ℕ,
  ◌+◌, ◌==◌, ◌∙◌, ◌∷◌, ◌≡◌, ◌≤◌, zero,
}
use zofi.Scheduler.Jobs.{JobData}
use zofi.Scheduler.JobsLaws.{count_id}

-- How many numbers below n pass a test.
abbrev pub count_ids : (ℕ → Bool) → ℕ → ℕ
count_ids test zero = 0
count_ids test (suc n) = (if test n then 1 else 0) + count_ids test n

-- How many of the jobs have an id that passes.
abbrev pub count_jobs : (ℕ → Bool) → List JobData → ℕ
count_jobs test [] = 0
count_jobs test (j ∷ js) = (if test j.id then 1 else 0) + count_jobs test js

-- The jobs whose id is below n and passes, counted by id.
abbrev by_id : (ℕ → Bool) → List JobData → ℕ → ℕ
by_id test js zero = 0
by_id test js (suc n) = (if test n then count_id n js else 0) + by_id test js n

by_id-nil : (test : ℕ → Bool) (n : ℕ) → by_id test [] n ≡ 0
by_id-nil test zero = refl
by_id-nil test (suc n) = ground (arith, by_id-nil test n)

by_id-cons :
    (test : ℕ → Bool) (j : JobData) (js : List JobData) (n : ℕ)
    → by_id test (j ∷ js) n
      ≡ (if ltb j.id n then (if test j.id then 1 else 0) else 0) + by_id test js n
by_id-cons test j js zero = ground arith
by_id-cons test j js (suc n) = elim (Bool-cases (j.id == n)) [
  | inl here ↦
      let same : j.id ≡ n = (==_iff j.id n).0 here in
      ground (arith, by_id-cons test j js n, ap test same)
  | inr there ↦ ground (arith, by_id-cons test j js n)
]

by_id-once :
    (test : ℕ → Bool) (total n : ℕ) (js : List JobData)
    → ((i : ℕ) → count_id i js ≡ (if ltb i total then 1 else 0))
    → n ≤ total
    → by_id test js n ≡ count_ids test n
by_id-once test total zero js once le = refl
by_id-once test total (suc n) js once le =
    ground (arith, once n, by_id-once test total n js once (omega arith))

by_id-jobs :
    (test : ℕ → Bool) (total : ℕ) (js : List JobData)
    → ((i : ℕ) → total ≤ i → count_id i js ≡ 0)
    → by_id test js total ≡ count_jobs test js
by_id-jobs test total [] none_above = by_id-nil test total
by_id-jobs test total (j ∷ js) none_above =
    let rest = by_id-jobs test total js (λ i le. ground (arith, none_above i le)) in
    elim (Bool-cases (ltb j.id total)) [
      | inl small ↦ by_id-cons test j js total ∙ rw small (omega (arith, rest))
      | inr large ↦ ground (arith, none_above j.id)
    ]

-- Where each id below the total occurs once, and no other, as many jobs pass as ids do.
pub count_jobs-once :
    (test : ℕ → Bool) (total : ℕ) (js : List JobData)
    → ((i : ℕ) → count_id i js ≡ (if ltb i total then 1 else 0))
    → count_jobs test js ≡ count_ids test total
count_jobs-once test total js once =
    sym (by_id-jobs test total js (λ i le. ground (arith, once i)))
    ∙ by_id-once test total total js once (omega arith)
