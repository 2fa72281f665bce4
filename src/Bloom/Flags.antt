-- ===== src/Bloom/Flags.antt =====
-- The flag blocks of an encoded filter, as the sets of the words that they mark.
use Prim.Native.Nat.{bit_or}
use roots.Prelude.{
  ℕ, ◌+◌, ◌-◌, ◌/◌, ◌%◌, ◌^◌, ◌<◌, ◌≤◌, ◌≡◌, refl, ap, ◌∙◌, Bool, true, false, not, ◌&&◌, ◌||◌,
  List, [], ◌∷◌, arith, length, length-set, get_or, replicate, ◌==◌, if◌then◌else◌,
  get_or-replicate,
}
use roots.Prelude.Bits.{agree, agree-below}
use roots.Prelude.Masks.{meets, meets_pow, meets-or_at, zero-meets}
use roots.Prelude.Words.{max64}
use roots.Bloom.Filter.{flag_mask, raise, raised, flag_words}

flag_mask_pow : (idx : ℕ) → flag_mask idx ≡ 2 ^ (7 - idx % 8)
unfolding flag_mask agree
flag_mask_pow idx =
    agree-below (λ k. 0x80 / 2 ^ k) (λ k. 2 ^ (7 - k)) (idx % 8) 8 refl (omega arith)

same_flag : (j i : ℕ) → ((j / 8) == (i / 8) && (7 - j % 8) == (7 - i % 8)) ≡ (j == i)
same_flag j i = ground arith

pub raised-raise :
    (flags : List ℕ) (j i : ℕ)
    → j / 8 < length flags
    → raised (raise flags j) i ≡ (j == i || raised flags i)
unfolding raised raise
raised-raise flags j i h = ground (
  arith,
  meets-or_at flags (j / 8) (i / 8) (flag_mask j) (flag_mask i) h,
  ap (λ (m : ℕ). meets m (flag_mask i)) (flag_mask_pow j),
  ap (meets (2 ^ (7 - j % 8))) (flag_mask_pow i),
  meets_pow (7 - j % 8) (7 - i % 8),
  same_flag j i,
)

length-raise : (flags : List ℕ) (j : ℕ) → length (raise flags j) ≡ length flags
unfolding raise
length-raise flags j = length-set flags (j / 8) (bit_or (get_or flags (j / 8) 0) (flag_mask j))

pub no_flags : (i : ℕ) → raised (replicate 16 0) i ≡ false
unfolding raised
no_flags i = ground (arith, get_or-replicate {A = ℕ} 16 (i / 8) 0, zero-meets (flag_mask i))

-- The word at `i` is there and passes; `ws` begins at `idx`.
unfoldable pub marks : (ℕ → Bool) → ℕ → List ℕ → ℕ → Bool
marks p idx [] i = false
marks p idx (w ∷ ws) i = (idx == i && p w) || marks p (idx + 1) ws i

pub marks_before :
    (p : ℕ → Bool) (idx : ℕ) (ws : List ℕ) (i : ℕ) → i < idx → marks p idx ws i ≡ false
unfolding marks
marks_before p idx [] i h = refl
marks_before p idx (w ∷ ws) i h = ground (arith, marks_before p (idx + 1) ws i (omega arith))

abbrev pub all_zeros : ℕ → Bool
all_zeros w = w == 0

abbrev pub all_ones : ℕ → Bool
all_ones w = not (w == 0) && w == max64

module _ (idx : ℕ) where
  -- What one word does to the blocks.
  raise_if : Bool → List ℕ → List ℕ
  raise_if b flags = if b then raise flags idx else flags

  raised-raise_if :
      (b : Bool) (flags : List ℕ) (i : ℕ)
      → idx / 8 < length flags
      → raised (raise_if b flags) i ≡ ((idx == i && b) || raised flags i)
  unfolding raise_if
  raised-raise_if true flags i h = ground (arith, raised-raise flags idx i h)
  raised-raise_if false flags i h = ground arith

  length-raise_if : (b : Bool) (flags : List ℕ) → length (raise_if b flags) ≡ length flags
  unfolding raise_if
  length-raise_if true flags = length-raise flags idx
  length-raise_if false flags = refl

second_if {ℓ} :
    {A : Type ℓ} (a b : Bool) (x y : A)
    → (if a then y else if b then x else y) ≡ (if not a && b then x else y)
second_if true b x y = refl
second_if false b x y = refl

flag_words_step :
    (idx w : ℕ) (ws flags0 flags1 : List ℕ)
    → flag_words idx (w ∷ ws) flags0 flags1
      ≡ flag_words
          (idx + 1)
          ws
          (raise_if idx (all_zeros w) flags0)
          (raise_if idx (all_ones w) flags1)
unfolding flag_words raise_if
flag_words_step idx w ws flags0 flags1 =
    ap (flag_words (idx + 1) ws (raise_if idx (all_zeros w) flags0))
      (second_if (w == 0) (w == max64) (raise flags1 idx) flags1)

or_swap : (a b c : Bool) → (b || (a || c)) ≡ ((a || b) || c)
or_swap a true c = ground arith
or_swap true false c = refl
or_swap false false c = refl

flag_words_nil :
    (idx : ℕ) (flags0 flags1 : List ℕ) → flag_words idx [] flags0 flags1 ≡ (flags0, flags1)
unfolding flag_words
flag_words_nil idx flags0 flags1 = refl

-- The flags afterwards: those before, and those of the words that are all zeros or all ones.
pub raised-flag_words :
    (idx : ℕ) (ws flags0 flags1 : List ℕ) (i : ℕ)
    → length flags0 ≡ 16
    → length flags1 ≡ 16
    → idx + length ws ≤ 128
    → (raised (flag_words idx ws flags0 flags1).0 i ≡ (marks all_zeros idx ws i || raised flags0 i))
      × (raised (flag_words idx ws flags0 flags1).1 i
          ≡ (marks all_ones idx ws i || raised flags1 i))
unfolding marks
raised-flag_words idx [] flags0 flags1 i h h' fits =
    let e = flag_words_nil idx flags0 flags1 in
    (ap (λ (fs : List ℕ × List ℕ). raised fs.0 i) e, ap (λ (fs : List ℕ × List ℕ). raised fs.1 i) e)
raised-flag_words idx (w ∷ ws) flags0 flags1 i h h' fits =
    let rest =
      raised-flag_words (idx + 1) ws (raise_if idx (all_zeros w) flags0)
        (raise_if idx (all_ones w) flags1) i (length-raise_if idx (all_zeros w) flags0 ∙ h)
        (length-raise_if idx (all_ones w) flags1 ∙ h') (omega arith) in
    let step = flag_words_step idx w ws flags0 flags1 in
    (
      ap (λ (fs : List ℕ × List ℕ). raised fs.0 i) step
          ∙ rest.0
          ∙ ap (λ (b : Bool). marks all_zeros (idx + 1) ws i || b)
              (raised-raise_if idx (all_zeros w) flags0 i (omega arith))
          ∙ or_swap (idx == i && all_zeros w) (marks all_zeros (idx + 1) ws i) (raised flags0 i),
      ap (λ (fs : List ℕ × List ℕ). raised fs.1 i) step
          ∙ rest.1
          ∙ ap (λ (b : Bool). marks all_ones (idx + 1) ws i || b)
              (raised-raise_if idx (all_ones w) flags1 i (omega arith))
          ∙ or_swap (idx == i && all_ones w) (marks all_ones (idx + 1) ws i) (raised flags1 i),
    )

pub length-flag_words :
    (idx : ℕ) (ws flags0 flags1 : List ℕ)
    → (length (flag_words idx ws flags0 flags1).0 ≡ length flags0)
      × (length (flag_words idx ws flags0 flags1).1 ≡ length flags1)
length-flag_words idx [] flags0 flags1 =
    let e = flag_words_nil idx flags0 flags1 in
    (ap (λ (fs : List ℕ × List ℕ). length fs.0) e, ap (λ (fs : List ℕ × List ℕ). length fs.1) e)
length-flag_words idx (w ∷ ws) flags0 flags1 =
    let rest =
      length-flag_words (idx + 1) ws (raise_if idx (all_zeros w) flags0)
        (raise_if idx (all_ones w) flags1) in
    let step = flag_words_step idx w ws flags0 flags1 in
    (
      ap (λ (fs : List ℕ × List ℕ). length fs.0) step
          ∙ rest.0
          ∙ length-raise_if idx (all_zeros w) flags0,
      ap (λ (fs : List ℕ × List ℕ). length fs.1) step
          ∙ rest.1
          ∙ length-raise_if idx (all_ones w) flags1,
    )
