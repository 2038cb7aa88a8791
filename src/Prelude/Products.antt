-- ===== src/Prelude/Products.antt =====
-- Products of native numbers by a common factor.
use Prim.Native.Nat.{ℕ, zero, suc, ◌+◌, ◌*◌, ◌≤◌, ◌<◌}
use mathlib.Core.Path.{◌≡◌}
use native.Mathlib.Omega.{arith}
use multithreading.Prelude.Tests.{◌==◌, ltb}

pub mul_lt : (m a b : ℕ) → 0 < m → a < b → m * a < m * b
mul_lt m a zero pos h = absurd (omega arith)
mul_lt m zero (suc b) pos h = omega arith
mul_lt m (suc a) (suc b) pos h = omega (arith, mul_lt m a b pos (omega arith))

pub mul_test : (m a b : ℕ) → 0 < m → (m * a == m * b) ≡ (a == b)
mul_test m a b pos = ground (arith, mul_lt m a b pos, mul_lt m b a pos)

pub mul_ltb : (m a b : ℕ) → 0 < m → ltb (m * a) (m * b) ≡ ltb a b
mul_ltb m a b pos = ground (arith, mul_lt m a b pos, mul_lt m b a pos)

pub mul_split : (m a b : ℕ) → m * (a + b) ≡ m * a + m * b
mul_split m zero b = omega arith
mul_split m (suc a) b = omega (arith, mul_split m a b)

pub mul_le : (m a b : ℕ) → a ≤ b → a * m ≤ b * m
mul_le m zero b h = omega arith
mul_le m (suc a) zero h = absurd (omega arith)
mul_le m (suc a) (suc b) h = omega (arith, mul_le m a b (omega arith))
