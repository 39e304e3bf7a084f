-- ===== src/Base/Table.antt =====
-- Facts about all values below a bound, by evaluation.
use Prim.Native.Nat.{ℕ, zero, suc, ◌<◌}
use mathlib.Core.Path.{◌≡◌}
use mathlib.Core.Bool.{Bool, true, ◌&&◌}
use native.Mathlib.Omega.{arith}

unfoldable pub holds_upto : (ℕ → Bool) → ℕ → Bool
holds_upto test zero = true
holds_upto test (suc bound) = holds_upto test bound && test bound

pub holds_upto-at :
    (test : ℕ → Bool) (bound x : ℕ) → holds_upto test bound ≡ true → x < bound → test x ≡ true
unfolding holds_upto
holds_upto-at test zero x all below = absurd (omega arith)
holds_upto-at test (suc bound) x all below = ground (arith, holds_upto-at test bound x)
