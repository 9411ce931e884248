-- ===== src/Prelude/Words.antt =====
-- uint64_t arithmetic: wrap-around written out.
use Prim.Native.Nat.{ℕ, ◌+◌, ◌-◌, ◌*◌, ◌%◌, ◌^◌, ◌≤◌, ◌<◌}
use mathlib.Core.Path.{◌≡◌}
use native.Mathlib.Omega.{arith}
use velix.Prelude.Int.{ℤ, pos, negsuc}

abbrev pub u64_mod : ℕ
u64_mod = 2 ^ 64

unfoldable pub add64 : ℕ → ℕ → ℕ
add64 a b = (a + b) % u64_mod

-- a - b on uint64_t.
unfoldable pub sub64 : ℕ → ℕ → ℕ
sub64 a b = (a + u64_mod - b) % u64_mod

pub sub64_le : (a b : ℕ) → b ≤ a → a < u64_mod → sub64 a b ≡ a - b
unfolding sub64
sub64_le a b h k = omega arith

pub sub64_wraps : (a b : ℕ) → a < b → b < u64_mod → sub64 a b ≡ u64_mod - (b - a)
unfolding sub64
sub64_wraps a b h k = omega arith

pub add64_lt : (a b : ℕ) → a + b < u64_mod → add64 a b ≡ a + b
unfolding add64
add64_lt a b h = omega arith

pub add64_le : (a b : ℕ) → add64 a b ≤ a + b
unfolding add64
add64_le a b = omega arith

unfoldable pub mul64 : ℕ → ℕ → ℕ
mul64 a b = a * b % u64_mod

-- static_cast<uint64_t> of an int.
unfoldable pub to_u64 : ℤ → ℕ
to_u64 (pos n) = n % u64_mod
to_u64 (negsuc n) = sub64 0 (n + 1)
