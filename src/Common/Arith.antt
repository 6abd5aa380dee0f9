-- ===== src/Common/Arith.antt =====
-- Products of numbers.
use Prim.Native.Nat.{ℕ, ◌+◌, ◌*◌, ◌≤◌, ◌<◌}
use native.Mathlib.Omega.{arith}

-- `n` pieces of size `s`: the `i`-th one ends within them.
pub mul_room : (s i n : ℕ) → i < n → s * i + s ≤ s * n
mul_room s i n h = grind arith
