-- ===== src/Wire/Uvarint/Bounds.antt =====
-- What a successful read can return.
use Prim.Native.Nat.{bit_and, bit_or}
use native.Mathlib.Nat.{pow-suc}
use roots.Prelude.{
  ℕ, zero, suc, ◌+◌, ◌*◌, ◌/◌, ◌%◌, ◌^◌, ◌≤◌, ◌<◌, ◌≡◌, some, List, [], ◌∷◌, arith, length,
}
use roots.Prelude.Bits.{bit_or_step, zero-bit_or}
use roots.Wire.Uvarint.{read_loop, read_uvarint}

bit_or-lt : (k x y : ℕ) → x < 2 ^ k → y < 2 ^ k → bit_or x y < 2 ^ k
bit_or-lt zero x y h g = let e : x ≡ 0 = omega arith in rw e (omega (arith, zero-bit_or y))
bit_or-lt (suc k) x y h g = omega (
  arith,
  pow-suc 2 k,
  bit_or_step x y,
  bit_or-lt k (x / 2) (y / 2) (omega (arith, pow-suc 2 k)) (omega (arith, pow-suc 2 k)),
)

read_loop_bounds :
    (left i x : ℕ) (buf : List ℕ) (v n : ℕ)
    → x < 2 ^ 64
    → read_loop left i x buf ≡ some (v, n)
    → (v < 2 ^ 64) × (i < n) × (n ≤ i + left) × (n ≤ i + length buf)
unfolding read_loop
read_loop_bounds zero i x buf v n hx e = cc
read_loop_bounds (suc left) i x [] v n hx e = cc
read_loop_bounds (suc left) i x (b ∷ buf) v n hx e = ground (
  arith,
  bit_or-lt 64 x (b * 2 ^ (7 * i) % 2 ^ 64) hx (omega arith),
  read_loop_bounds left (i + 1) (bit_or x (bit_and b 0x7f * 2 ^ (7 * i) % 2 ^ 64)) buf v n
      (bit_or-lt 64 x (bit_and b 0x7f * 2 ^ (7 * i) % 2 ^ 64) hx (omega arith)),
)

-- A value that is read fits 64 bits, and between one byte and ten were read, all of them there.
pub read_uvarint_bounds :
    (buf : List ℕ) (v n : ℕ)
    → read_uvarint buf ≡ some (v, n)
    → (v < 2 ^ 64) × (0 < n) × (n ≤ 10) × (n ≤ length buf)
unfolding read_uvarint
read_uvarint_bounds buf v n e = ground (arith, read_loop_bounds 10 0 0 buf v n (omega arith) e)
