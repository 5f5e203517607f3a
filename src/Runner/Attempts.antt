-- ===== src/Runner/Attempts.antt =====
-- src/runner.cpp: the number of attempts of runAndWait.
use zofi.Base.{
  Bool-cases, inl, inr, ap, ◌==◌, arith, false, ok, refl, some, suc, true, user_die, zero, ℕ, ◌%◌,
  ◌+◌, ◌-◌, ◌<◌, ◌^◌, ◌∙◌, ◌≡◌, ◌≤◌,
}
use zofi.Runner.Inject.{Attempt, attempt_once, inject_loop}

counted_down : (m : ℕ) → m < 2 ^ 32 → (suc m + (2 ^ 32 - 1)) % 2 ^ 32 ≡ m
counted_down m h = omega (arith, h)

not_zero : (m : ℕ) → (suc m == 0) ≡ false
not_zero m = ground arith

last_attempt :
    (fuel : ℕ) (tries : ℕ → Attempt) (k : ℕ) → inject_loop (suc fuel) true tries k 1 ≡ some user_die
unfolding inject_loop
last_attempt fuel tries k = refl

next_attempt :
    (fuel : ℕ) (tries : ℕ → Attempt) (k m : ℕ)
    → suc m < 2 ^ 32
    → attempt_once true (tries k) ≡ ok false
    → inject_loop (suc fuel) true tries k (suc (suc m))
      ≡ inject_loop fuel true tries (suc k) (suc m)
unfolding inject_loop
next_attempt fuel tries k m h failed =
    rw (counted_down (suc m) h, not_zero m, failed)
      (ap (inject_loop fuel true tries (suc k)) (counted_down (suc m) h))

good_attempt :
    (fuel : ℕ) (tries : ℕ → Attempt) (k m : ℕ)
    → suc m < 2 ^ 32
    → attempt_once true (tries k) ≡ ok true
    → inject_loop (suc fuel) true tries k (suc (suc m)) ≡ some (ok (suc k))
unfolding inject_loop
good_attempt fuel tries k m h good = rw (counted_down (suc m) h, not_zero m, good) refl

all_fail :
    (m fuel : ℕ) (tries : ℕ → Attempt) (k : ℕ)
    → suc m < 2 ^ 32
    → suc m ≤ fuel
    → ((i : ℕ) → k ≤ i → i < k + m → attempt_once true (tries i) ≡ ok false)
    → inject_loop fuel true tries k (suc m) ≡ some user_die
all_fail m zero tries k h enough fails = absurd (omega arith)
all_fail zero (suc fuel) tries k h enough fails = last_attempt fuel tries k
all_fail (suc m) (suc fuel) tries k h enough fails =
    next_attempt fuel tries k m (omega arith) (fails k (omega arith) (omega arith))
    ∙ all_fail m fuel tries (suc k) (omega arith) (omega arith)
        (λ i p q. fails i (omega arith) (omega arith))

one_succeeds :
    (m fuel : ℕ) (tries : ℕ → Attempt) (k j : ℕ)
    → k ≤ j
    → j < k + m
    → suc m < 2 ^ 32
    → suc m ≤ fuel
    → ((i : ℕ) → k ≤ i → i < j → attempt_once true (tries i) ≡ ok false)
    → attempt_once true (tries j) ≡ ok true
    → inject_loop fuel true tries k (suc m) ≡ some (ok (suc j))
one_succeeds m zero tries k j low high h enough fails good = absurd (omega arith)
one_succeeds zero (suc fuel) tries k j low high h enough fails good = absurd (omega arith)
one_succeeds (suc m) (suc fuel) tries k j low high h enough fails good =
    elim (Bool-cases (k == j)) [
      | inl here ↦
          let same : k ≡ j = ground arith in
          good_attempt fuel tries k m (omega arith) (rw same good)
          ∙ ap (λ n. some (ok (suc n))) same
      | inr later ↦
          let above : k < j = ground arith in
          next_attempt fuel tries k m (omega arith) (fails k (omega arith) (omega arith))
          ∙ one_succeeds m fuel tries (suc k) j (omega arith) (omega arith) (omega arith)
              (omega arith) (λ i p q. fails i (omega arith) (omega arith)) good
    ]

-- With -max-injection-attempts N, for 1 ≤ N < 2^32 - 1, and an injection asked for, runAndWait makes
-- at most N - 1 attempts: when these all fail, it ends with the error message.
pub inject_loop-user_die :
    (max : ℕ) (tries : ℕ → Attempt)
    → 1 ≤ max
    → suc max < 2 ^ 32
    → ((i : ℕ) → i < max - 1 → attempt_once true (tries i) ≡ ok false)
    → inject_loop max true tries 0 max ≡ some user_die
inject_loop-user_die zero tries h w fails = absurd (omega arith)
inject_loop-user_die (suc m) tries h w fails =
    all_fail m (suc m) tries 0 (omega arith) (omega arith) (λ i p q. fails i (omega arith))

-- With the same bounds on N, an attempt that is the first to succeed, among the first N - 1, ends
-- the loop of runAndWait: it is the last run that was started.
pub inject_loop-first :
    (max : ℕ) (tries : ℕ → Attempt) (j : ℕ)
    → suc max < 2 ^ 32
    → j < max - 1
    → ((i : ℕ) → i < j → attempt_once true (tries i) ≡ ok false)
    → attempt_once true (tries j) ≡ ok true
    → inject_loop max true tries 0 max ≡ some (ok (suc j))
inject_loop-first zero tries j w less fails good = absurd (omega arith)
inject_loop-first (suc m) tries j w less fails good =
    one_succeeds m (suc m) tries 0 j (omega arith) (omega arith) (omega arith) (omega arith)
      (λ i p q. fails i (omega arith)) good
