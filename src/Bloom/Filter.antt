-- ===== src/Bloom/Filter.antt =====
-- src/bloom.rs: `BloomFilter`, its words and its encoding.
use roots.Prelude.{
  ℕ, zero, suc, ◌+◌, ◌*◌, ◌/◌, ◌%◌, ◌^◌, Bool, true, false, not, ◌&&◌, List, [], ◌∷◌, length,
  get_or, set, take, drop, replicate, copy_into, ◌==◌, ltb, if◌then◌else◌,
}
use Prim.Native.Nat.{bit_or, bit_and}
use roots.Prelude.Masks.{meets}
use roots.Prelude.Bytes.{be_bytes, of_be}
use roots.Prelude.Words.{max64}
use roots.Error.{Result, ok, err, length_error, ◌>>=◌}
use roots.Bloom.Hash.{bloom_m, locations_for}

abbrev pub bloom_words : ℕ
bloom_words = bloom_m / 64

abbrev pub bloom_flags : ℕ
bloom_flags = 16

pub record BloomFilter : Type 0 where
  pub words : List ℕ

-- `BloomFilter::new`
abbrev pub empty : BloomFilter
empty = record { words = replicate bloom_words 0 }

-- `words[(l >> 6) as usize] |= 1 << (l & 63)`
unfoldable pub set_bit : List ℕ → ℕ → List ℕ
set_bit ws l = set ws (l / 2 ^ 6) (bit_or (get_or ws (l / 2 ^ 6) 0) (2 ^ bit_and l 63))

-- `words[(l >> 6) as usize] & (1 << (l & 63)) != 0`
unfoldable pub has_bit : List ℕ → ℕ → Bool
unfolding meets
has_bit ws l = meets (get_or ws (l / 2 ^ 6) 0) (2 ^ bit_and l 63)

unfoldable pub set_bits : List ℕ → List ℕ → List ℕ
unfolding set_bit
set_bits ws [] = ws
set_bits ws (l ∷ ls) = set_bits (set_bit ws l) ls

unfoldable pub has_bits : List ℕ → List ℕ → Bool
unfolding has_bit
has_bits ws [] = true
has_bits ws (l ∷ ls) = has_bit ws l && has_bits ws ls

unfoldable pub add : BloomFilter → List ℕ → BloomFilter
unfolding set_bits locations_for
add f bytes = record { words = set_bits f.words (locations_for bytes) }

unfoldable pub test : BloomFilter → List ℕ → Bool
unfolding has_bits locations_for
test f bytes = has_bits f.words (locations_for bytes)

unfoldable pub or_words : List ℕ → List ℕ → List ℕ
or_words [] right = []
or_words (a ∷ left) [] = a ∷ left
or_words (a ∷ left) (b ∷ right) = bit_or a b ∷ or_words left right

unfoldable pub merge : BloomFilter → BloomFilter → BloomFilter
unfolding or_words
merge f other = record { words = or_words f.words other.words }

-- Neither all zeros nor all ones.
unfoldable pub is_data : ℕ → Bool
is_data w = not (w == 0) && not (w == max64)

unfoldable pub count_data : List ℕ → ℕ
unfolding is_data
count_data [] = 0
count_data (w ∷ ws) = let rest = count_data ws in if is_data w then suc rest else rest

-- `0x80 >> (idx % 8)`
unfoldable pub flag_mask : ℕ → ℕ
flag_mask idx = 0x80 / 2 ^ (idx % 8)

-- `flags[idx / 8] |= 0x80 >> (idx % 8)`
unfoldable pub raise : List ℕ → ℕ → List ℕ
unfolding flag_mask
raise flags idx = set flags (idx / 8) (bit_or (get_or flags (idx / 8) 0) (flag_mask idx))

-- `flags[idx / 8] & (0x80 >> (idx % 8)) != 0`
unfoldable pub raised : List ℕ → ℕ → Bool
unfolding flag_mask meets
raised flags idx = meets (get_or flags (idx / 8) 0) (flag_mask idx)

-- The two blocks of flags.
unfoldable pub flag_words : ℕ → List ℕ → List ℕ → List ℕ → List ℕ × List ℕ
unfolding raise
flag_words idx [] flags0 flags1 = (flags0, flags1)
flag_words idx (w ∷ ws) flags0 flags1 =
    flag_words (idx + 1) ws (if w == 0 then raise flags0 idx else flags0)
      (if w == 0 then flags1 else if w == max64 then raise flags1 idx else flags1)

-- The data words into `out`, and where they end.
unfoldable pub put_words : List ℕ → ℕ → List ℕ → List ℕ × ℕ
unfolding is_data
put_words out at [] = (out, at)
put_words out at (w ∷ ws) =
    put_words (if is_data w then copy_into out at (be_bytes 8 w) else out)
      (if is_data w then at + 8 else at) ws

unfoldable pub encode_to : BloomFilter → List ℕ → Result (List ℕ × ℕ)
unfolding count_data flag_words put_words
encode_to f out =
    let need = 2 * bloom_flags + 8 * count_data f.words in
    let flags = flag_words 0 f.words (replicate bloom_flags 0) (replicate bloom_flags 0) in
    let out' = copy_into (copy_into out 0 flags.0) bloom_flags flags.1 in
    if ltb (length out) need
    then err length_error
    else ok (put_words out' (2 * bloom_flags) f.words)

abbrev pub max_encoded_len : ℕ
max_encoded_len = 2 * bloom_flags + 8 * bloom_words

-- An error is the panic of its `expect`.
unfoldable pub encode : BloomFilter → Result (List ℕ)
unfolding encode_to
encode f = do written ← encode_to f (replicate max_encoded_len 0); ok (take written.1 written.0)

-- The words from `idx` on, and the bytes behind them.
unfoldable pub take_words : List ℕ → List ℕ → ℕ → ℕ → List ℕ → Result (List ℕ × List ℕ)
unfolding raised
take_words flags0 flags1 idx zero rest = ok ([], rest)
take_words flags0 flags1 idx (suc left) rest = elim (raised flags0 idx) [
  | true ↦ elim (raised flags1 idx) [
    | true ↦ err length_error
    | false ↦ take_words flags0 flags1 (idx + 1) left rest >>= λ got. ok (0 ∷ got.0, got.1)
  ]
  | false ↦ elim (raised flags1 idx) [
    | true ↦ take_words flags0 flags1 (idx + 1) left rest >>= λ got. ok (max64 ∷ got.0, got.1)
    | false ↦ elim (ltb (length rest) 8) [
      | true ↦ err length_error
      | false ↦ take_words flags0 flags1 (idx + 1) left (drop 8 rest) >>= λ got.
          ok (of_be (take 8 rest) ∷ got.0, got.1)
    ]
  ]
]

unfoldable pub decode_exact : List ℕ → Result BloomFilter
unfolding take_words
decode_exact buf =
    let rest = drop bloom_flags buf in
    if ltb (length buf) (2 * bloom_flags)
    then err length_error
    else (take_words (take bloom_flags buf) (take bloom_flags rest) 0 bloom_words
          (drop bloom_flags rest)
        >>= λ got. if ltb 0 (length got.1) then err length_error else ok (record { words = got.0 }))
