-- ===== src/Prelude/Words.antt =====
-- Arithmetic on u64 with its wrap-around, as a release build does it.
use Prim.Native.Nat.{ℕ, ◌+◌, ◌-◌, ◌*◌, ◌/◌, ◌^◌, ◌%◌, ◌<◌, min, bit_or}
use mathlib.Core.Path.{◌≡◌}
use native.Mathlib.Omega.{arith}

abbrev pub add64 : ℕ → ℕ → ℕ
add64 a b = (a + b) % 2 ^ 64

abbrev pub sub64 : ℕ → ℕ → ℕ
sub64 a b = (a + 2 ^ 64 - b) % 2 ^ 64

-- `wrapping_mul`
abbrev pub mul64 : ℕ → ℕ → ℕ
mul64 a b = a * b % 2 ^ 64

-- `rotate_left`
abbrev pub rotate_left : ℕ → ℕ → ℕ
rotate_left x k = bit_or (x * 2 ^ k % 2 ^ 64) (x / 2 ^ (64 - k))

abbrev pub max64 : ℕ
max64 = 2 ^ 64 - 1

-- `saturating_mul`
abbrev pub saturating_mul : ℕ → ℕ → ℕ
saturating_mul a b = min (a * b) max64

-- A counter's difference is what was added to it, modulo the width.
pub sub64-add64 : (a n : ℕ) → a < 2 ^ 64 → sub64 (add64 a n) a ≡ n % 2 ^ 64
sub64-add64 a n h = omega arith
