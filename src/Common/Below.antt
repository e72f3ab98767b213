-- ===== src/Common/Below.antt =====
-- A statement about the numbers below a bound, checked by evaluation.
use Prim.Native.Nat.{ℕ, zero, suc, ◌<◌}
use mathlib.Core.Path.{◌≡◌}
use mathlib.Core.Bool.{Bool, true, ◌&&◌}
use native.Mathlib.Omega.{arith}

-- Does a test hold of each number below `bound`?
unfoldable pub every_below : ℕ → (ℕ → Bool) → Bool
every_below zero test = true
every_below (suc bound) test = every_below bound test && test bound

pub every_below-lt :
    (test : ℕ → Bool) (bound i : ℕ) → i < bound → every_below bound test ≡ true → test i ≡ true
unfolding every_below
every_below-lt test zero i below checked = absurd (omega arith)
every_below-lt test (suc bound) i below checked = ground (arith, every_below-lt test bound i)
