-- ===== src/Prelude/Numbers.antt =====
-- Powers, and checks of every value below a bound by evaluation.
use Prim.Native.Nat.{ℕ, zero, suc, ◌+◌, ◌*◌, ◌^◌, ◌<◌}
use mathlib.Core.Path.{◌≡◌}
use mathlib.Core.Bool.{Bool, true, ◌&&◌}
use native.Mathlib.Nat.{pow-suc, pow-zero, add-suc, add-zero}
use native.Mathlib.Omega.{arith}

pub pow-add : (a m n : ℕ) → a ^ (m + n) ≡ a ^ m * a ^ n
pow-add a m zero = rw (add-zero, pow-zero) (omega arith)
pow-add a m (suc n) = rw (add-suc, pow-suc a (m + n), pow-suc a n, pow-add a m n) (omega arith)

pub pow-pos : (n : ℕ) → 0 < 2 ^ n
pow-pos zero = omega arith
pow-pos (suc n) = omega (arith, pow-suc 2 n, pow-pos n)

unfoldable pub holds_below : (ℕ → Bool) → ℕ → Bool
holds_below test zero = true
holds_below test (suc bound) = holds_below test bound && test bound

-- A test that holds of the numbers below a bound holds of each.
pub holds_below_lem :
    (test : ℕ → Bool) (bound x : ℕ) → x < bound → holds_below test bound ≡ true → test x ≡ true
unfolding holds_below
holds_below_lem test zero x small h = absurd (omega (arith, small))
holds_below_lem test (suc bound) x small h = ground (arith, holds_below_lem test bound x)
