-- ===== src/Base/Int/Signs.antt =====
-- How products and quotients of integers follow the signs.
use Prim.Native.Nat.{ℕ, zero, suc}
use mathlib.Core.Path.{◌≡◌}
use native.Mathlib.Omega.{arith}
use pnlx.Base.Int.{ℤ, pos, negsuc, ◌-ℤ◌, ◌*ℤ◌, ◌/ℤ◌, ◌≤ℤ◌, negate, int_laws}

pub mul-negate : (a b : ℤ) → a *ℤ negate b ≡ negate (a *ℤ b)
unfolding ◌*ℤ◌ ◌-ℤ◌
mul-negate (pos a) (pos zero) = ground arith
mul-negate (pos a) (pos (suc b)) = ground arith
mul-negate (pos a) (negsuc b) = ground arith
mul-negate (negsuc a) (pos zero) = ground arith
mul-negate (negsuc a) (pos (suc b)) = ground arith
mul-negate (negsuc a) (negsuc b) = ground arith

pub negate-mul : (a b : ℤ) → negate a *ℤ b ≡ negate (a *ℤ b)
unfolding ◌*ℤ◌ ◌-ℤ◌
negate-mul (pos zero) (pos b) = ground arith
negate-mul (pos (suc a)) (pos b) = ground arith
negate-mul (negsuc a) (pos b) = ground arith
negate-mul (pos zero) (negsuc b) = ground arith
negate-mul (pos (suc a)) (negsuc b) = ground arith
negate-mul (negsuc a) (negsuc b) = ground arith

-- Division truncates, so it commutes with a change of sign.
pub div-negate : (a : ℤ) (b : ℕ) → negate a /ℤ pos b ≡ negate (a /ℤ pos b)
unfolding ◌/ℤ◌ ◌-ℤ◌
div-negate (pos zero) b = ground arith
div-negate (pos (suc a)) b = ground arith
div-negate (negsuc a) b = ground arith

pub negate-sub : (a b : ℤ) → b -ℤ a ≡ negate (a -ℤ b)
negate-sub a b = omega int_laws

pub mul-nonneg : (a b : ℤ) → pos 0 ≤ℤ a → pos 0 ≤ℤ b → pos 0 ≤ℤ a *ℤ b
unfolding ◌*ℤ◌
mul-nonneg (pos a) (pos b) h k = ground arith
mul-nonneg (pos a) (negsuc b) h k = absurd (omega arith)
mul-nonneg (negsuc a) b h k = absurd (omega arith)

pub div-nonneg : (a : ℤ) (b : ℕ) → pos 0 ≤ℤ a → pos 0 ≤ℤ a /ℤ pos b
unfolding ◌/ℤ◌
div-nonneg (pos a) b h = omega arith
div-nonneg (negsuc a) b h = absurd (omega arith)
