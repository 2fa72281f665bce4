-- ===== src/Bloom/Chunks.antt =====
-- The data words of an encoded filter, and how they are read back where the flags fit them.
use roots.Prelude.{
  ℕ, suc, ◌+◌, ◌*◌, ◌≤◌, ◌≡◌, refl, sym, ap, ◌∙◌, Bool, true, false, not, ◌&&◌, List, [], ◌∷◌, ◌++◌,
  arith, length, take, drop, copy_into, ◌==◌, ltb, if◌then◌else◌, All, length-append,
  copy_into-append, le→ltb, inl, inr, Bool-cases, ==_iff, ==_refl,
}
use roots.Prelude.Bytes.{be_bytes, of_be, length-be_bytes}
use roots.Prelude.Words.{max64}
use roots.Error.{Result, ok, ◌>>=◌}
use roots.Wire.Fields.{IsU64, drop-be_bytes, of_be-field}
use roots.Bloom.Filter.{is_data, count_data, raised, put_words, take_words}
use roots.Bloom.Flags.{marks, marks_before, all_zeros, all_ones}

-- What a word leaves on the wire.
unfoldable pub chunk : ℕ → List ℕ
unfolding is_data
chunk w = if is_data w then be_bytes 8 w else []

unfoldable pub data_bytes : List ℕ → List ℕ
unfolding chunk
data_bytes [] = []
data_bytes (w ∷ ws) = chunk w ++ data_bytes ws

length-chunk : (w : ℕ) → length (chunk w) ≡ (if is_data w then 8 else 0)
unfolding chunk
length-chunk w = ground (arith, length-be_bytes 8 w)

pub length-data_bytes : (ws : List ℕ) → length (data_bytes ws) ≡ 8 * count_data ws
unfolding data_bytes count_data
length-data_bytes [] = refl
length-data_bytes (w ∷ ws) =
    ground (arith, length-append (chunk w) (data_bytes ws), length-chunk w, length-data_bytes ws)

pub count_data-le : (ws : List ℕ) → count_data ws ≤ length ws
unfolding count_data
count_data-le [] = omega arith
count_data-le (w ∷ ws) = ground (arith, count_data-le ws)

put_words_step :
    (out : List ℕ) (at w : ℕ) (ws : List ℕ)
    → put_words out at (w ∷ ws) ≡ put_words (copy_into out at (chunk w)) (at + length (chunk w)) ws
unfolding put_words chunk
put_words_step out at w ws = elim (Bool-cases (is_data w)) [
  | inl e ↦ rw e (
      ap (λ (n : ℕ). put_words (copy_into out at (be_bytes 8 w)) n ws)
        (omega (arith, length-be_bytes 8 w)))
  | inr e ↦ rw e (ap (λ (n : ℕ). put_words out n ws) (omega arith))
]

put_words_nil : (out : List ℕ) (at : ℕ) → put_words out at [] ≡ (out, at)
unfolding put_words
put_words_nil out at = refl

pub put_words-data_bytes :
    (out : List ℕ) (at : ℕ) (ws : List ℕ)
    → put_words out at ws ≡ (copy_into out at (data_bytes ws), at + length (data_bytes ws))
unfolding data_bytes
put_words-data_bytes out at [] =
    put_words_nil out at ∙ ap (λ (n : ℕ). (out, n)) {y = at + 0} (omega arith)
put_words-data_bytes out at (w ∷ ws) =
    put_words_step out at w ws
    ∙ put_words-data_bytes (copy_into out at (chunk w)) (at + length (chunk w)) ws
    ∙ (λ i. (
      sym (copy_into-append out at (chunk w) (data_bytes ws)) i,
      total (length (chunk w)) (length (data_bytes ws)) (length (chunk w ++ data_bytes ws))
          (length-append (chunk w) (data_bytes ws)) i,
    ))
  where
    total : (a b c : ℕ) → c ≡ a + b → at + a + b ≡ at + c
    total a b c e = omega arith

module _ (flags0 flags1 : List ℕ) (idx left : ℕ) (rest : List ℕ) where
  take_zeros :
      raised flags0 idx ≡ true
      → raised flags1 idx ≡ false
      → take_words flags0 flags1 idx (suc left) rest
        ≡ (take_words flags0 flags1 (idx + 1) left rest >>= λ got. ok (0 ∷ got.0, got.1))
  unfolding take_words
  take_zeros e f = rw (take_words, e, f) refl

  take_ones :
      raised flags0 idx ≡ false
      → raised flags1 idx ≡ true
      → take_words flags0 flags1 idx (suc left) rest
        ≡ (take_words flags0 flags1 (idx + 1) left rest >>= λ got. ok (max64 ∷ got.0, got.1))
  unfolding take_words
  take_ones e f = rw (take_words, e, f) refl

  take_data :
      raised flags0 idx ≡ false
      → raised flags1 idx ≡ false
      → ltb (length rest) 8 ≡ false
      → take_words flags0 flags1 idx (suc left) rest ≡ (
          take_words flags0 flags1 (idx + 1) left (drop 8 rest) >>= λ got.
          ok (of_be (take 8 rest) ∷ got.0, got.1))
  unfolding take_words
  take_data e f g = rw (take_words, e, f, g) refl

abbrev pub with_word : ℕ → Result (List ℕ × List ℕ) → Result (List ℕ × List ℕ)
with_word w r = r >>= λ got. ok (w ∷ got.0, got.1)

no_chunk : (w : ℕ) → is_data w ≡ false → chunk w ≡ []
unfolding chunk
no_chunk w e = rw e refl

whole_chunk : (w : ℕ) → is_data w ≡ true → chunk w ≡ be_bytes 8 w
unfolding chunk
whole_chunk w e = rw e refl

zero_no_data : is_data 0 ≡ false
unfolding is_data
zero_no_data = refl

max_no_data : is_data max64 ≡ false
unfolding is_data
max_no_data = refl

other_data : (w : ℕ) → (w == 0) ≡ false → (w == max64) ≡ false → is_data w ≡ true
unfolding is_data
other_data w e f = rw (e, f) refl

-- Where the blocks say of a word what it is, the word is read.
take_chunk :
    (flags0 flags1 : List ℕ) (idx left w : ℕ) (more : List ℕ)
    → raised flags0 idx ≡ (w == 0)
    → raised flags1 idx ≡ (not (w == 0) && w == max64)
    → IsU64 w
    → take_words flags0 flags1 idx (suc left) (chunk w ++ more)
      ≡ with_word w (take_words flags0 flags1 (idx + 1) left more)
take_chunk flags0 flags1 idx left w more zeros ones u = elim (Bool-cases (w == 0)) [
  | inl e ↦
      let at : w ≡ 0 = (==_iff w 0).0 e in
      ap (λ (c : List ℕ). take_words flags0 flags1 idx (suc left) (c ++ more))
        (ap chunk at ∙ no_chunk 0 zero_no_data)
      ∙ take_zeros flags0 flags1 idx left more (zeros ∙ e)
          (ones ∙ ap (λ (b : Bool). not b && w == max64) e)
      ∙ ap (λ (x : ℕ). with_word x (take_words flags0 flags1 (idx + 1) left more)) (sym at)
  | inr e ↦ elim (Bool-cases (w == max64)) [
    | inl f ↦
        let at : w ≡ max64 = (==_iff w max64).0 f in
        ap (λ (c : List ℕ). take_words flags0 flags1 idx (suc left) (c ++ more))
          (ap chunk at ∙ no_chunk max64 max_no_data)
        ∙ take_ones flags0 flags1 idx left more (zeros ∙ e)
            (ones ∙ ap (λ (b : Bool). not b && w == max64) e ∙ f)
        ∙ ap (λ (x : ℕ). with_word x (take_words flags0 flags1 (idx + 1) left more)) (sym at)
    | inr f ↦
        ap (λ (c : List ℕ). take_words flags0 flags1 idx (suc left) (c ++ more))
          (whole_chunk w (other_data w e f))
        ∙ take_data flags0 flags1 idx left (be_bytes 8 w ++ more) (zeros ∙ e)
            (ones ∙ ap (λ (b : Bool). not b && w == max64) e ∙ f)
            (long_enough (length (be_bytes 8 w)) (length more) (length-be_bytes 8 w)
              (length (be_bytes 8 w ++ more)) (length-append (be_bytes 8 w) more))
        ∙ (λ i. take_words flags0 flags1 (idx + 1) left (drop-be_bytes 8 w more i) >>= λ got.
            ok (of_be-field 8 w more u i ∷ got.0, got.1))
  ]
]
  where
    long_enough : (a b : ℕ) → a ≡ 8 → (c : ℕ) → c ≡ a + b → ltb c 8 ≡ false
    long_enough a b e c f = le→ltb c 8 (omega arith)

take_words_nil :
    (flags0 flags1 : List ℕ) (idx : ℕ) → take_words flags0 flags1 idx 0 [] ≡ ok ([], [])
unfolding take_words
take_words_nil flags0 flags1 idx = refl

-- The blocks say of the words from `idx` on what they are.
abbrev pub Describes : List ℕ → List ℕ → ℕ → List ℕ → Type 0
Describes flags0 flags1 idx ws =
    (i : ℕ)
    → idx ≤ i
    → (raised flags0 i ≡ marks all_zeros idx ws i) × (raised flags1 i ≡ marks all_ones idx ws i)

marks_head : (p : ℕ → Bool) (idx w : ℕ) (ws : List ℕ) → marks p idx (w ∷ ws) idx ≡ p w
unfolding marks
marks_head p idx w ws = ground (arith, ==_refl idx, marks_before p (idx + 1) ws idx (omega arith))

marks_tail :
    (p : ℕ → Bool) (idx w : ℕ) (ws : List ℕ) (i : ℕ)
    → idx + 1 ≤ i
    → marks p idx (w ∷ ws) i ≡ marks p (idx + 1) ws i
unfolding marks
marks_tail p idx w ws i h = ground arith

Describes-tail :
    (flags0 flags1 : List ℕ) (idx w : ℕ) (ws : List ℕ)
    → Describes flags0 flags1 idx (w ∷ ws)
    → Describes flags0 flags1 (idx + 1) ws
Describes-tail flags0 flags1 idx w ws d i h =
    let at = d i (omega arith) in
    (at.0 ∙ marks_tail all_zeros idx w ws i h, at.1 ∙ marks_tail all_ones idx w ws i h)

pub take_words-data_bytes :
    (flags0 flags1 : List ℕ) (idx : ℕ) (ws : List ℕ)
    → Describes flags0 flags1 idx ws
    → All IsU64 ws
    → take_words flags0 flags1 idx (length ws) (data_bytes ws) ≡ ok (ws, [])
unfolding data_bytes chunk
take_words-data_bytes flags0 flags1 idx [] d u = take_words_nil flags0 flags1 idx
take_words-data_bytes flags0 flags1 idx (w ∷ ws) d u =
    let at = d idx (omega arith) in
    take_chunk flags0 flags1 idx (length ws) w (data_bytes ws)
      (at.0 ∙ marks_head all_zeros idx w ws) (at.1 ∙ marks_head all_ones idx w ws) u.0
    ∙ ap (with_word w) (
        take_words-data_bytes flags0 flags1 (idx + 1) ws (Describes-tail flags0 flags1 idx w ws d)
          u.1)
