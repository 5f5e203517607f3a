-- ===== src/Utils/Rand.antt =====
-- src/utils.cpp: randSafe over rand() of the C library, which is a parameter: a generator state
-- and the function that draws from it.
use zofi.Base.{arith, if◌then◌else◌, ◌%◌, ◌<◌, ◌==◌, ℕ}
use Prim.Native.Nat.{max}
use native.Mathlib.Nat.{mod-lt}

-- The state of the generator after one draw, and the number drawn.
abbrev pub Generator : Type 0 → Type 0
Generator G = G → ℕ × G

unfoldable pub rand_safe : {G : Type 0} → Generator G → ℕ → G → ℕ × G
rand_safe rand max g = let r = rand g in (if max == 0 then r.0 else r.0 % max, r.1)

-- The number drawn lies in [0, max).
pub rand_safe-lt :
    {G : Type 0} (rand : Generator G) (max : ℕ) (g : G) → 0 < max → (rand_safe rand max g).0 < max
unfolding rand_safe
rand_safe-lt rand max g h = ground (arith, mod-lt (rand g).0 h)
