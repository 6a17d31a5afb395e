-- ===== src/Base/Table.antt =====
-- A test that holds of every number below a bound, found by running it on each.
use Prim.Native.Nat.{ℕ, zero, suc, ◌<◌}
use mathlib.Core.Path.{◌≡◌}
use mathlib.Core.Bool.{Bool, true, ◌&&◌}
use native.Mathlib.Omega.{arith}

unfoldable pub holds_below : ℕ → (ℕ → Bool) → Bool
holds_below zero test = true
holds_below (suc bound) test = holds_below bound test && test bound

pub holds_below_lem :
    (bound : ℕ) (test : ℕ → Bool) (n : ℕ)
    → holds_below bound test ≡ true
    → n < bound
    → test n ≡ true
unfolding holds_below
holds_below_lem zero test n run small = absurd (omega arith)
holds_below_lem (suc bound) test n run small = ground (arith, holds_below_lem bound test n)
