-- ===== src/Wire/Uvarint/RoundTrip.antt =====
-- Reading back what was written.
use Prim.Native.Nat.{bit_and, bit_or}
use native.Mathlib.Nat.{mul-le-mul_right}
use native.Mathlib.Numerals.{towards_suc}
use roots.Prelude.{
  ℕ, zero, suc, ◌+◌, ◌*◌, ◌/◌, ◌%◌, ◌^◌, ◌≤◌, ◌<◌, ◌≡◌, refl, ap, some, List, ◌∷◌, ◌++◌, arith,
  length, inl, inr, Bool-cases, ltb, ltb→lt, ltb→le, le→ltb, ◌∙◌,
}
use roots.Prelude.Bits.{bit_and_127, bit_or_shifted}
use roots.Wire.Uvarint.{read_loop, read_uvarint}
use roots.Wire.Uvarint.Equations.{uvarint, uvarint_small, uvarint_large}

pow_seven : (i : ℕ) → 2 ^ (7 * (i + 1)) ≡ 128 * 2 ^ (7 * i)
pow_seven i = let e : 7 * (i + 1) ≡ 7 * i + 7 = omega arith in rw e (simp towards_suc (omega arith))

module _ (i x v : ℕ) (below : x < 2 ^ (7 * i)) (fits : v * 2 ^ (7 * i) < 2 ^ 64) where
  -- A group lands above the bits that are there.
  group_added : bit_or x (v * 2 ^ (7 * i) % 2 ^ 64) ≡ x + v * 2 ^ (7 * i)
  group_added =
      let whole : v * 2 ^ (7 * i) % 2 ^ 64 ≡ v * 2 ^ (7 * i) = omega arith in
      rw whole (bit_or_shifted (7 * i) x v below)

  last_round : i ≡ 9 → v < 2
  last_round e = omega (arith, ap (λ (t : ℕ). v * 2 ^ (7 * t)) e)

  last_group :
      (left : ℕ) (rest : List ℕ)
      → v < 128
      → read_loop (suc left) i x (v ∷ rest) ≡ some (x + v * 2 ^ (7 * i), i + 1)
  unfolding read_loop
  last_group left rest small = ground (arith, last_round, group_added)

-- The bits of a group that others follow.
module _ (i x v : ℕ) (below : x < 2 ^ (7 * i)) (fits : v * 2 ^ (7 * i) < 2 ^ 64)
    (large : 128 ≤ v) where
  low_group : v % 128 * 2 ^ (7 * i) + 128 * (v / 128 * 2 ^ (7 * i)) ≡ v * 2 ^ (7 * i)
  low_group =
      let parts : v ≡ v % 128 + 128 * (v / 128) = omega arith in
      omega (arith, ap (λ (t : ℕ). t * 2 ^ (7 * i)) parts)

  next_below : x + v % 128 * 2 ^ (7 * i) < 2 ^ (7 * (i + 1))
  next_below =
      let low : suc (v % 128) ≤ 128 = omega arith in
      omega (arith, pow_seven i, mul-le-mul_right (2 ^ (7 * i)) low)

  next_fits : v / 128 * 2 ^ (7 * (i + 1)) < 2 ^ 64
  next_fits = omega (arith, low_group, ap (λ (t : ℕ). v / 128 * t) (pow_seven i))

  next_value : x + v % 128 * 2 ^ (7 * i) + v / 128 * 2 ^ (7 * (i + 1)) ≡ x + v * 2 ^ (7 * i)
  next_value = omega (arith, low_group, ap (λ (t : ℕ). v / 128 * t) (pow_seven i))

  more_bits :
      bit_or x (bit_and (v % 128 + 128) 0x7f * 2 ^ (7 * i) % 2 ^ 64) ≡ x + v % 128 * 2 ^ (7 * i)
  more_bits =
      let kept : bit_and (v % 128 + 128) 0x7f ≡ v % 128 =
        omega (arith, bit_and_127 (v % 128 + 128) (omega arith)) in
      rw kept (group_added i x (v % 128) below (omega (arith, low_group)))

  read_more :
      (left : ℕ) (rest : List ℕ)
      → read_loop (suc left) i x ((v % 128 + 128) ∷ rest)
        ≡ read_loop left (i + 1) (x + v % 128 * 2 ^ (7 * i)) rest
  unfolding read_loop
  read_more left rest = rw (le→ltb (v % 128 + 128) 128 (omega arith), more_bits) refl

read_loop-uvarint :
    (left i x v : ℕ) (rest : List ℕ)
    → i + left ≡ 9
    → x < 2 ^ (7 * i)
    → v * 2 ^ (7 * i) < 2 ^ 64
    → read_loop (suc left) i x (uvarint v ++ rest)
      ≡ some (x + v * 2 ^ (7 * i), i + length (uvarint v))
read_loop-uvarint zero i x v rest e below fits =
    let small : v < 128 = omega (arith, last_round i x v below fits (omega arith)) in
    rw (uvarint_small v small) (last_group i x v below fits zero rest small)
read_loop-uvarint (suc left) i x v rest e below fits = elim (Bool-cases (ltb v 128)) [
  | inl small ↦
      rw (uvarint_small v (ltb→lt v 128 small))
        (last_group i x v below fits (suc left) rest (ltb→lt v 128 small))
  | inr big ↦
      let large : 128 ≤ v = ltb→le v 128 big in
      rw (uvarint_large v large) (
        read_more i x v below fits large (suc left) (uvarint (v / 128) ++ rest)
        ∙ read_loop-uvarint left (i + 1) (x + v % 128 * 2 ^ (7 * i)) (v / 128) rest (omega arith)
            (next_below i x v below fits large) (next_fits i x v below fits large)
        ∙ ground (arith, next_value i x v below fits large))
]

-- What `append_uvarint` writes of a number below 2^64 is read back, with its length, whatever
-- bytes follow.
pub read_uvarint-uvarint :
    (v : ℕ) (rest : List ℕ)
    → v < 2 ^ 64
    → read_uvarint (uvarint v ++ rest) ≡ some (v, length (uvarint v))
unfolding read_uvarint
read_uvarint-uvarint v rest h =
    read_loop-uvarint 9 0 0 v rest refl (omega arith) (omega arith) ∙ ground arith
