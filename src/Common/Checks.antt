-- ===== src/Common/Checks.antt =====
-- Properties of small numbers, by evaluation.
use Prim.Native.Nat.{ℕ, zero, suc, ◌<◌}
use mathlib.Core.Path.{◌≡◌}
use mathlib.Core.Bool.{Bool, true, ◌&&◌}
use native.Mathlib.Omega.{arith}

-- Whether a test holds of the numbers below `count`.
unfoldable pub passes : (ℕ → Bool) → ℕ → Bool
passes test zero = true
passes test (suc count) = passes test count && test count

pub passes_each :
    (test : ℕ → Bool) (count v : ℕ) → passes test count ≡ true → v < count → test v ≡ true
unfolding passes
passes_each test zero v all below = absurd (omega arith)
passes_each test (suc count) v all below = ground (arith, passes_each test count v)
