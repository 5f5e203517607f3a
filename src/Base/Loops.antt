-- ===== src/Base/Loops.antt =====
-- `for (i = 0; i != n; ++i)` over a state, where a round may end the program.
use Prim.Native.Nat.{ℕ, zero, suc, ◌<◌}
use mathlib.Core.Path.{◌≡◌, refl}
use native.Mathlib.Omega.{arith}
use zofi.Base.Exits.{Outcome, ok, ◌>>=◌}

unfoldable pub for_each {ℓ} : {S : Type ℓ} → ℕ → (ℕ → S → Outcome S) → S → Outcome S
for_each zero body s = ok s
for_each (suc n) body s = for_each n body s >>= body n

-- The same loop with rounds that never end the program.
unfoldable pub iterate {ℓ} : {S : Type ℓ} → ℕ → (ℕ → S → S) → S → S
iterate zero step s = s
iterate (suc n) step s = step n (iterate n step s)

-- A loop whose rounds all give a value gives one.
pub for_each-ok {ℓ} :
    {S : Type ℓ} (n : ℕ) (body : ℕ → S → Outcome S) (step : ℕ → S → S) (s : S)
    → ((i : ℕ) (t : S) → i < n → body i t ≡ ok (step i t))
    → for_each n body s ≡ ok (iterate n step s)
unfolding for_each iterate
for_each-ok zero body step s h = refl
for_each-ok (suc n) body step s h =
    rw (for_each-ok n body step s (λ i t p. h i t (omega arith))) (h n _ (omega arith))

-- An invariant of the rounds, indexed by the counter.
pub iterate_inv {ℓ κ} :
    {S : Type ℓ} (P : ℕ → S → Type κ) (n : ℕ) (step : ℕ → S → S) (s : S)
    → P 0 s
    → ((i : ℕ) (t : S) → i < n → P i t → P (suc i) (step i t))
    → P n (iterate n step s)
unfolding iterate
iterate_inv P zero step s base keep = base
iterate_inv P (suc n) step s base keep =
    keep n _ (omega arith) (iterate_inv P n step s base (λ i t p. keep i t (omega arith)))
