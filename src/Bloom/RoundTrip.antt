-- ===== src/Bloom/RoundTrip.antt =====
-- An encoded filter is decoded to itself.
use roots.Prelude.{
  ℕ, ◌+◌, ◌*◌, ◌≤◌, ◌≡◌, refl, sym, ap, ◌∙◌, Bool, false, ◌||◌, List, [], ◌++◌, arith, length, take,
  drop, replicate, copy_into, ltb, All, length-append, length-replicate, take-append, drop-append,
  copy_into-append, copy_into-zero, le→ltb,
}
use roots.Error.{ok, ◌>>=◌}
use roots.Wire.Fields.{IsU64}
use roots.Bloom.Filter.{
  BloomFilter, count_data, flag_words, put_words, encode_to, encode, take_words, decode_exact,
  max_encoded_len,
}
use roots.Bloom.Membership.{IsFilter}
use roots.Bloom.Flags.{marks, all_zeros, all_ones, raised-flag_words, length-flag_words, no_flags}
use roots.Bloom.Chunks.{
  data_bytes, length-data_bytes, count_data-le, put_words-data_bytes, take_words-data_bytes,
  Describes,
}

-- The three parts of the encoding of these words.
abbrev flag_blocks : List ℕ → List ℕ × List ℕ
flag_blocks ws = flag_words 0 ws (replicate 16 0) (replicate 16 0)

abbrev wire : List ℕ → List ℕ
wire ws = (flag_blocks ws).0 ++ ((flag_blocks ws).1 ++ data_bytes ws)

length-flag_blocks :
    (ws : List ℕ) → (length (flag_blocks ws).0 ≡ 16) × (length (flag_blocks ws).1 ≡ 16)
length-flag_blocks ws = length-flag_words 0 ws (replicate 16 0) (replicate 16 0)

Describes-flag_blocks :
    (ws : List ℕ) → length ws ≡ 128 → Describes (flag_blocks ws).0 (flag_blocks ws).1 0 ws
Describes-flag_blocks ws h i below =
    let at = raised-flag_words 0 ws (replicate 16 0) (replicate 16 0) i refl refl (omega arith) in
    (
      at.0
          ∙ ap (λ (b : Bool). marks all_zeros 0 ws i || b) (no_flags i)
          ∙ or_false (marks all_zeros 0 ws i),
      at.1
          ∙ ap (λ (b : Bool). marks all_ones 0 ws i || b) (no_flags i)
          ∙ or_false (marks all_ones 0 ws i),
    )
  where
    or_false : (b : Bool) → (b || false) ≡ b
    or_false b = ground arith

encode_to_fits :
    (f : BloomFilter) (out : List ℕ)
    → 32 + 8 * count_data f.words ≤ length out
    → encode_to f out
      ≡ ok (
          put_words
            (copy_into (copy_into out 0 (flag_blocks f.words).0) 16 (flag_blocks f.words).1)
            32
            f.words)
unfolding encode_to
encode_to_fits f out h = rw (le→ltb (length out) (32 + 8 * count_data f.words) h) refl

copy_three :
    (out a b c : List ℕ)
    → length a ≡ 16
    → length b ≡ 16
    → copy_into (copy_into (copy_into out 0 a) 16 b) 32 c ≡ copy_into out 0 (a ++ (b ++ c))
copy_three out a b c h h' = sym (
    copy_into-append out 0 a (b ++ c)
    ∙ copy_into-append (copy_into out 0 a) (0 + length a) b c
    ∙ (λ i.
        copy_into (copy_into (copy_into out 0 a) (first (length a) h i) b)
          (at (length a) (length b) h h' i) c))
  where
    first : (m : ℕ) → m ≡ 16 → 0 + m ≡ 16
    first m e = omega arith

    at : (m n : ℕ) → m ≡ 16 → n ≡ 16 → 0 + m + n ≡ 32
    at m n e e' = omega arith

take_copied :
    (out xs : List ℕ) → length xs ≤ length out → take (length xs) (copy_into out 0 xs) ≡ xs
take_copied out xs h =
    ap (take (length xs)) (copy_into-zero out xs h)
    ∙ take-append xs (drop (length xs) out) (length xs) refl

length-wire : (ws : List ℕ) → length (wire ws) ≡ 32 + length (data_bytes ws)
length-wire ws = omega (
  arith,
  length-append (flag_blocks ws).0 ((flag_blocks ws).1 ++ data_bytes ws),
  length-append (flag_blocks ws).1 (data_bytes ws),
  (length-flag_blocks ws).0,
  (length-flag_blocks ws).1,
)

-- Where the buffer is long enough, the wire bytes stand at its front.
pub encode_to-wire :
    (f : BloomFilter) (out : List ℕ)
    → length (wire f.words) ≤ length out
    → encode_to f out ≡ ok (copy_into out 0 (wire f.words), length (wire f.words))
encode_to-wire f out fits =
    encode_to_fits f out (omega (arith, length-wire f.words, length-data_bytes f.words))
    ∙ ap ok (
        put_words-data_bytes
          (copy_into (copy_into out 0 (flag_blocks f.words).0) 16 (flag_blocks f.words).1) 32
          f.words
        ∙ (λ i. (
          copy_three out (flag_blocks f.words).0 (flag_blocks f.words).1 (data_bytes f.words)
              (length-flag_blocks f.words).0 (length-flag_blocks f.words).1 i,
          sym (length-wire f.words) i,
        )))

encode_of :
    (f : BloomFilter) (bytes : List ℕ) (n : ℕ)
    → encode_to f (replicate max_encoded_len 0) ≡ ok (bytes, n)
    → encode f ≡ ok (take n bytes)
unfolding encode
encode_of f bytes n e = rw e refl

encode-wire : (f : BloomFilter) → IsFilter f → encode f ≡ ok (wire f.words)
encode-wire f h =
    encode_of f (copy_into (replicate max_encoded_len 0) 0 (wire f.words)) (length (wire f.words))
      (encode_to-wire f (replicate max_encoded_len 0) (bounded f h))
    ∙ ap ok (take_copied (replicate max_encoded_len 0) (wire f.words) (bounded f h))
  where
    bounded :
        (f : BloomFilter)
        → IsFilter f
        → length (wire f.words) ≤ length (replicate {A = ℕ} max_encoded_len 0)
    bounded f h = omega (
      arith,
      length-wire f.words,
      length-data_bytes f.words,
      count_data-le f.words,
      length-replicate {A = ℕ} max_encoded_len 0,
    )

decode_exact-parts :
    (a b c ws : List ℕ)
    → length a ≡ 16
    → length b ≡ 16
    → take_words a b 0 128 c ≡ ok (ws, [])
    → decode_exact (a ++ (b ++ c)) ≡ ok (record { words = ws })
unfolding decode_exact
decode_exact-parts a b c ws h h' e =
    rw
      (
        long_enough,
        drop-append a (b ++ c) 16 h,
        take-append a (b ++ c) 16 h,
        drop-append b c 16 h',
        take-append b c 16 h',
        e,
      )
      refl
  where
    long_enough : ltb (length (a ++ (b ++ c))) 32 ≡ false
    long_enough =
        le→ltb (length (a ++ (b ++ c))) 32
          (omega (arith, length-append a (b ++ c), length-append b c, h, h'))

decode_exact-wire :
    (ws : List ℕ)
    → length ws ≡ 128
    → All IsU64 ws
    → decode_exact (wire ws) ≡ ok (record { words = ws })
decode_exact-wire ws h u =
    decode_exact-parts (flag_blocks ws).0 (flag_blocks ws).1 (data_bytes ws) ws
      (length-flag_blocks ws).0 (length-flag_blocks ws).1
      (ap (λ (n : ℕ). take_words (flag_blocks ws).0 (flag_blocks ws).1 0 n (data_bytes ws)) (sym h)
        ∙ take_words-data_bytes (flag_blocks ws).0 (flag_blocks ws).1 0 ws
            (Describes-flag_blocks ws h) u)

-- Encoding a filter of 128 words of 64 bits succeeds, and decoding the bytes gives the filter back.
pub decode_exact-encode :
    (f : BloomFilter) → IsFilter f → All IsU64 f.words → (encode f >>= decode_exact) ≡ ok f
decode_exact-encode f h u =
    ap (λ r. r >>= decode_exact) (encode-wire f h) ∙ decode_exact-wire f.words h u
