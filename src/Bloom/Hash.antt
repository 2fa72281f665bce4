-- ===== src/Bloom/Hash.antt =====
-- src/bloom.rs: the Murmur3 hash behind the filter. A word is a number below 2 ^ 64, data is bytes.
use Prim.Native.Nat.{bit_xor}
use roots.Prelude.{
  All, ◌<◌, arith, ℕ, zero, suc, ◌+◌, ◌*◌, ◌/◌, ◌%◌, ◌^◌, min, Bool, true, false, List, [], ◌∷◌,
  length, take, drop, replicate, get_or, copy_into, set, ◌==◌, leb, ltb, if◌then◌else◌,
}
use roots.Prelude.Words.{add64, mul64, rotate_left}

abbrev pub bloom_m : ℕ
bloom_m = 8192

abbrev pub bloom_k : ℕ
bloom_k = 8

abbrev c1 : ℕ
c1 = 0x87c37b91114253d5

abbrev c2 : ℕ
c2 = 0x4cf5ad432745937f

-- The scrambling of the first word of a block
scramble1 : ℕ → ℕ
scramble1 k = mul64 (rotate_left (mul64 k c1) 31) c2

-- The scrambling of the second word
scramble2 : ℕ → ℕ
scramble2 k = mul64 (rotate_left (mul64 k c2) 33) c1

bmix_words : ℕ → ℕ → ℕ → ℕ → ℕ × ℕ
unfolding scramble1 scramble2
bmix_words h1 h2 k1 k2 =
    let a = rotate_left (bit_xor h1 (scramble1 k1)) 27 in
    let h1' = add64 (mul64 (add64 a h2) 5) 0x52dce729 in
    let b = rotate_left (bit_xor h2 (scramble2 k2)) 31 in
    (h1', add64 (mul64 (add64 b h1') 5) 0x38495ab5)

fmix : ℕ → ℕ
fmix k =
    let a = mul64 (bit_xor k (k / 2 ^ 33)) 0xff51afd7ed558ccd in
    let b = mul64 (bit_xor a (a / 2 ^ 33)) 0xc4ceb9fe1a85ec53 in bit_xor b (b / 2 ^ 33)

-- At most eight bytes, the lowest first.
le_u64 : List ℕ → ℕ
le_u64 [] = 0
le_u64 (b ∷ bs) = b + le_u64 bs * 256

-- The variables of `sum128`.
pub record Lanes : Type 0 where
  pub h1 : ℕ
  pub h2 : ℕ
  pub k1 : ℕ
  pub k2 : ℕ

-- The pad byte, by `(tail.len() + 1) & 15`.
pad_byte : ℕ → Lanes → Lanes
unfolding scramble1 scramble2
pad_byte n s =
    let second = scramble2 (bit_xor s.k2 1) in
    let first = scramble1 (bit_xor s.k1 1) in
    if n == 15
    then record s { k2 = bit_xor s.k2 (2 ^ 48) }
    else if n == 14
    then record s { k2 = bit_xor s.k2 (2 ^ 40) }
    else if n == 13
    then record s { k2 = bit_xor s.k2 (2 ^ 32) }
    else if n == 12
    then record s { k2 = bit_xor s.k2 (2 ^ 24) }
    else if n == 11
    then record s { k2 = bit_xor s.k2 (2 ^ 16) }
    else if n == 10
    then record s { k2 = bit_xor s.k2 (2 ^ 8) }
    else if n == 9
    then record s { k2 = second; h2 = bit_xor s.h2 second }
    else if n == 8
    then record s { k1 = bit_xor s.k1 (2 ^ 56) }
    else if n == 7
    then record s { k1 = bit_xor s.k1 (2 ^ 48) }
    else if n == 6
    then record s { k1 = bit_xor s.k1 (2 ^ 40) }
    else if n == 5
    then record s { k1 = bit_xor s.k1 (2 ^ 32) }
    else if n == 4
    then record s { k1 = bit_xor s.k1 (2 ^ 24) }
    else if n == 3
    then record s { k1 = bit_xor s.k1 (2 ^ 16) }
    else if n == 2
    then record s { k1 = bit_xor s.k1 (2 ^ 8) }
    else if n == 1
    then record s { k1 = first; h1 = bit_xor s.h1 first }
    else s

-- `for (i, b) in bytes.iter().enumerate() { k ^= (*b as u64) << (8 * i); }`
xor_bytes : ℕ → ℕ → List ℕ → ℕ
xor_bytes k i [] = k
xor_bytes k i (b ∷ bs) = xor_bytes (bit_xor k (b * 2 ^ (8 * i) % 2 ^ 64)) (i + 1) bs

-- The bytes of the tail behind the eighth, then those before it.
tail_bytes : List ℕ → Lanes → Lanes
unfolding xor_bytes scramble1 scramble2
tail_bytes tail s =
    let high = scramble2 (xor_bytes s.k2 0 (drop 8 tail)) in
    let s' =
      if leb 9 (length tail % 16) then record s { k2 = high; h2 = bit_xor s.h2 high } else s in
    let lo = min (length tail) 8 in
    let low = scramble1 (xor_bytes s'.k1 0 (take lo tail)) in
    if ltb 0 lo then record s' { k1 = low; h1 = bit_xor s'.h1 low } else s'

sum128 : ℕ → ℕ → Bool → ℕ → List ℕ → ℕ × ℕ
unfolding pad_byte tail_bytes fmix
sum128 h1 h2 pad_tail len tail =
    let s : Lanes = record { h1 = h1; h2 = h2; k1 = 0; k2 = 0 } in
    let s1 = if pad_tail then pad_byte ((length tail + 1) % 16) s else s in
    let s2 = tail_bytes tail s1 in
    let a = bit_xor s2.h1 len in
    let b = bit_xor s2.h2 len in
    let a' = add64 a b in
    let b' = add64 b a' in let a'' = add64 (fmix a') (fmix b') in (a'', add64 (fmix b') a'')

-- The full blocks of sixteen bytes.
blocks : ℕ → ℕ → ℕ → List ℕ → ℕ × ℕ
unfolding le_u64 bmix_words
blocks zero h1 h2 bytes = (h1, h2)
blocks (suc n) h1 h2 bytes =
    let next = bmix_words h1 h2 (le_u64 (take 8 bytes)) (le_u64 (take 8 (drop 8 bytes))) in
    blocks n next.0 next.1 (drop 16 bytes)

base_hashes : List ℕ → List ℕ
unfolding blocks sum128 le_u64 bmix_words
base_hashes bytes =
    let nblocks = length bytes / 16 in
    let h = blocks nblocks 0 0 bytes in
    let len = length bytes in
    let tail = drop (nblocks * 16) bytes in
    let first = sum128 h.0 h.1 false len tail in
    let tmp = set (copy_into (replicate 16 0) 0 tail) 15 1 in
    let last = bmix_words h.0 h.1 (le_u64 (take 8 tail)) (le_u64 (drop 8 tmp)) in
    let second =
      if (length tail + 1) == 16
      then sum128 last.0 last.1 false (len + 1) []
      else sum128 h.0 h.1 true (len + 1) tail in
    first.0 ∷ first.1 ∷ second.0 ∷ second.1 ∷ []

location : List ℕ → ℕ → ℕ
location h i = add64 (get_or h (i % 2) 0) (mul64 i (get_or h (2 + (i + i % 2) % 4 / 2) 0))

-- `for (i, o) in out.iter_mut().enumerate()`
locations_loop : List ℕ → ℕ → ℕ → List ℕ
unfolding location
locations_loop h zero i = []
locations_loop h (suc left) i = location h i % bloom_m ∷ locations_loop h left (i + 1)

unfoldable pub locations_for : List ℕ → List ℕ
unfolding base_hashes locations_loop
locations_for bytes = locations_loop (base_hashes bytes) bloom_k 0

locations_loop-lt : (h : List ℕ) (left i : ℕ) → All (λ l. l < bloom_m) (locations_loop h left i)
unfolding locations_loop
locations_loop-lt h zero i = tt
locations_loop-lt h (suc left) i = (below (location h i), locations_loop-lt h left (i + 1))
  where
    below : (l : ℕ) → l % bloom_m < bloom_m
    below l = omega arith

-- No location is outside the filter.
pub locations_for-lt : (bytes : List ℕ) → All (λ l. l < bloom_m) (locations_for bytes)
unfolding locations_for
locations_for-lt bytes = locations_loop-lt (base_hashes bytes) bloom_k 0
