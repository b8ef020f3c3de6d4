-- ===== src/Base/Words.antt =====
-- Unsigned 64-bit arithmetic, as a release build computes it: with wrap-around.
use Prim.Native.Nat.{ℕ, ◌+◌, ◌-◌, ◌%◌, ◌^◌, ◌≤◌, ◌<◌}
use mathlib.Core.Path.{◌≡◌}
use native.Mathlib.Omega.{arith}

abbrev pub u64_mod : ℕ
u64_mod = 2 ^ 64

abbrev pub add_u64 : ℕ → ℕ → ℕ
add_u64 a b = (a + b) % u64_mod

abbrev pub sub_u64 : ℕ → ℕ → ℕ
sub_u64 a b = (a + u64_mod - b) % u64_mod

pub add_u64-exact : (a b : ℕ) → a + b < u64_mod → add_u64 a b ≡ a + b
add_u64-exact a b h = omega arith

pub sub_u64-exact : (a b : ℕ) → b ≤ a → a < u64_mod → sub_u64 a b ≡ a - b
sub_u64-exact a b h k = omega arith
