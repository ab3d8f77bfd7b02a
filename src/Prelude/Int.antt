-- ===== src/Prelude/Int.antt =====
-- Integers over the native numbers, for times that may be negative.
use Prim.Native.Nat.{ℕ, zero, suc, ◌-◌, ◌/◌, ◌%◌, ◌^◌}
use mathlib.Core.Path.{◌≡◌}
use mathlib.Core.Bool.{Bool, true, false}
use chn_resolver_go.Prelude.Tests.{ltb}

-- `negsuc n` is -(n + 1).
pub data ℤ : Type 0 where
  pos : ℕ → ℤ
  negsuc : ℕ → ℤ

-- `a < b`
unfoldable pub ltz : ℤ → ℤ → Bool
ltz (pos a) (pos b) = ltb a b
ltz (pos a) (negsuc b) = false
ltz (negsuc a) (pos b) = true
ltz (negsuc a) (negsuc b) = ltb b a

infix 50 ◌≤ℤ◌
abbrev pub ◌≤ℤ◌ : ℤ → ℤ → Type 0
a ≤ℤ b = ltz b a ≡ false

-- `-n`
abbrev pub negate : ℕ → ℤ
negate zero = pos 0
negate (suc n) = negsuc n

-- `z / d`, which rounds towards 0.
unfoldable pub quotient : ℤ → ℕ → ℤ
quotient (pos n) d = pos (n / d)
quotient (negsuc n) d = negate (suc n / d)

-- The conversion to an unsigned integer of `w` bits.
unfoldable pub wrap : ℕ → ℤ → ℕ
wrap w (pos n) = n % 2 ^ w
wrap w (negsuc n) = 2 ^ w - 1 - n % 2 ^ w
