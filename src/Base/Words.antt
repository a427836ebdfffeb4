-- ===== src/Base/Words.antt =====
-- The simulator's `unsigned int` is 32 bits wide and wraps around.
use Prim.Native.Nat.{ℕ, ◌+◌, ◌-◌, ◌%◌, ◌<◌, ◌≤◌}
use mathlib.Core.Path.{◌≡◌}
use native.Mathlib.Omega.{arith}

abbrev pub u32_mod : ℕ
u32_mod = 4294967296

unfoldable pub u32 : ℕ → ℕ
u32 n = n % u32_mod

-- `a - b` for words.
unfoldable pub sub32 : ℕ → ℕ → ℕ
sub32 a b = (a + u32_mod - b) % u32_mod

pub u32_small : (n : ℕ) → n < u32_mod → u32 n ≡ n
unfolding u32
u32_small n h = omega arith

pub sub32_small : (a b : ℕ) → b ≤ a → a < u32_mod → sub32 a b ≡ a - b
unfolding sub32
sub32_small a b h k = omega arith

-- Its `unsigned long` is taken to be 64 bits wide.
abbrev pub u64_mod : ℕ
u64_mod = 18446744073709551616

unfoldable pub u64 : ℕ → ℕ
u64 n = n % u64_mod
