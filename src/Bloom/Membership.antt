-- ===== src/Bloom/Membership.antt =====
-- What a filter holds: `add` and `merge` as operations on the set of its locations.
use Prim.Native.Nat.{bit_or, bit_and}
use roots.Prelude.{
  ℕ, zero, suc, ◌/◌, ◌^◌, ◌<◌, ◌≡◌, refl, sym, ap, ◌∙◌, Bool, true, ◌&&◌, ◌||◌, List, [], ◌∷◌,
  arith, length, length-set, get_or, ◌==◌, ==_refl, All,
}
use roots.Prelude.Masks.{meets, meets-bit_or, meets_pow, zero-meets, bit_and_63, meets-or_at}
use roots.Prelude.Sets.{contains}
use roots.Bloom.Hash.{bloom_m, locations_for, locations_for-lt}
use roots.Bloom.Filter.{
  BloomFilter, set_bit, has_bit, set_bits, has_bits, add, test, or_words, merge,
}

-- The width of a filter.
abbrev pub IsFilter : BloomFilter → Type 0
IsFilter f = length f.words ≡ 128

-- The two halves of a location say which it is.
same_bit : (l k : ℕ) → ((l / 2 ^ 6) == (k / 2 ^ 6) && bit_and l 63 == bit_and k 63) ≡ (l == k)
same_bit l k = ground (arith, bit_and_63 l, bit_and_63 k)

pub has-set_bit :
    (ws : List ℕ) (l k : ℕ)
    → length ws ≡ 128
    → l < bloom_m
    → has_bit (set_bit ws l) k ≡ (l == k || has_bit ws k)
unfolding has_bit set_bit
has-set_bit ws l k len lh = ground (
  arith,
  meets-or_at ws (l / 2 ^ 6) (k / 2 ^ 6) (2 ^ bit_and l 63) (2 ^ bit_and k 63) (omega arith),
  meets_pow (bit_and l 63) (bit_and k 63),
  same_bit l k,
)

length-set_bit : (ws : List ℕ) (l : ℕ) → length (set_bit ws l) ≡ length ws
unfolding set_bit
length-set_bit ws l =
    length-set ws (l / 2 ^ 6) (bit_or (get_or ws (l / 2 ^ 6) 0) (2 ^ bit_and l 63))

pub length-set_bits : (ws ls : List ℕ) → length (set_bits ws ls) ≡ length ws
unfolding set_bits
length-set_bits ws [] = refl
length-set_bits ws (l ∷ ls) = length-set_bits (set_bit ws l) ls ∙ length-set_bit ws l

pub has-set_bits :
    (ws ls : List ℕ) (k : ℕ)
    → length ws ≡ 128
    → All (λ l. l < bloom_m) ls
    → has_bit (set_bits ws ls) k ≡ (contains k ls || has_bit ws k)
unfolding set_bits contains
has-set_bits ws [] k len h = refl
has-set_bits ws (l ∷ ls) k len h = ground (
  arith,
  has-set_bits (set_bit ws l) ls k (length-set_bit ws l ∙ len) h.1,
  has-set_bit ws l k len h.0,
)

meets-or_words :
    (left right : List ℕ) (i mask : ℕ)
    → length left ≡ length right
    → meets (get_or (or_words left right) i 0) mask
      ≡ (meets (get_or left i 0) mask || meets (get_or right i 0) mask)
unfolding or_words
meets-or_words [] [] i mask h = ground (arith, zero-meets mask)
meets-or_words [] (b ∷ right) i mask h = absurd (omega arith)
meets-or_words (a ∷ left) [] i mask h = absurd (omega arith)
meets-or_words (a ∷ left) (b ∷ right) zero mask h = meets-bit_or a b mask
meets-or_words (a ∷ left) (b ∷ right) (suc i) mask h =
    meets-or_words left right i mask (omega arith)

length-or_words : (left right : List ℕ) → length (or_words left right) ≡ length left
unfolding or_words
length-or_words [] right = refl
length-or_words (a ∷ left) [] = refl
length-or_words (a ∷ left) (b ∷ right) = ap suc (length-or_words left right)

-- A key is in where all its locations are.
pub has_bits-all :
    (ws more ls : List ℕ)
    → ((k : ℕ) → has_bit ws k ≡ true → has_bit more k ≡ true)
    → has_bits ws ls ≡ true
    → has_bits more ls ≡ true
unfolding has_bits
has_bits-all ws more [] h e = refl
has_bits-all ws more (l ∷ ls) h e = ground (arith, h l, has_bits-all ws more ls h)

has_bits-own :
    (ws ls : List ℕ)
    → ((k : ℕ) → contains k ls ≡ true → has_bit ws k ≡ true)
    → has_bits ws ls ≡ true
unfolding has_bits contains
has_bits-own ws [] h = refl
has_bits-own ws (l ∷ ls) h =
    ground (arith, h l, ==_refl l, has_bits-own ws ls (λ k e. h k (ground arith)))

-- A filter of full width, once a key of these bytes is added to it, holds exactly the locations of
-- the key and those that it held.
pub has-add :
    (f : BloomFilter) (bytes : List ℕ) (k : ℕ)
    → IsFilter f
    → has_bit (add f bytes).words k ≡ (contains k (locations_for bytes) || has_bit f.words k)
unfolding add
has-add f bytes k h = has-set_bits f.words (locations_for bytes) k h (locations_for-lt bytes)

-- Two filters of full width merged hold exactly the locations that one of them holds.
pub has-merge :
    (f other : BloomFilter) (k : ℕ)
    → IsFilter f
    → IsFilter other
    → has_bit (merge f other).words k ≡ (has_bit f.words k || has_bit other.words k)
unfolding merge has_bit
has-merge f other k h h' =
    meets-or_words f.words other.words (k / 2 ^ 6) (2 ^ bit_and k 63) (h ∙ sym h')

-- What can happen to a filter once a key is in: other keys, and the filters of peers.
pub data Grows (f : BloomFilter) : BloomFilter → Type 0 where
  same : Grows f f
  added : (g : BloomFilter) (bytes : List ℕ) → Grows f g → Grows f (add g bytes)
  merged : (g other : BloomFilter) → IsFilter other → Grows f g → Grows f (merge g other)

pub add-IsFilter : (f : BloomFilter) (bytes : List ℕ) → IsFilter f → IsFilter (add f bytes)
unfolding add
add-IsFilter f bytes h = length-set_bits f.words (locations_for bytes) ∙ h

pub merge-IsFilter : (f other : BloomFilter) → IsFilter f → IsFilter (merge f other)
unfolding merge
merge-IsFilter f other h = length-or_words f.words other.words ∙ h

pub Grows-IsFilter : {f g : BloomFilter} → Grows f g → IsFilter f → IsFilter g
Grows-IsFilter same h = h
Grows-IsFilter (added g bytes steps) h = add-IsFilter g bytes (Grows-IsFilter steps h)
Grows-IsFilter (merged g other h' steps) h = merge-IsFilter g other (Grows-IsFilter steps h)

-- No step takes a location away.
pub has-Grows :
    {f g : BloomFilter} (k : ℕ)
    → Grows f g
    → IsFilter f
    → has_bit f.words k ≡ true
    → has_bit g.words k ≡ true
has-Grows k same h e = e
has-Grows k (added g bytes steps) h e =
    ground (arith, has-add g bytes k (Grows-IsFilter steps h), has-Grows k steps h e)
has-Grows k (merged g other h' steps) h e =
    ground (arith, has-merge g other k (Grows-IsFilter steps h) h', has-Grows k steps h e)

-- No false negatives: once a key is added to a filter of full width, the filter answers yes for it,
-- whatever keys are added and whatever filters of full width are merged into it afterwards.
pub test-Grows :
    (f g : BloomFilter) (bytes : List ℕ) → IsFilter f → Grows (add f bytes) g → test g bytes ≡ true
unfolding test
test-Grows f g bytes h steps = has_bits-own g.words (locations_for bytes) (λ k e.
    has-Grows k steps (add-IsFilter f bytes h)
      (has-add f bytes k h ∙ ap (λ (b : Bool). b || has_bit f.words k) e))
