-- ===== src/Prelude/Sets.antt =====
-- Lists of keys as the program uses them: membership, `filter`, `HashSet`, `sort`, and how many keys
-- of a list a search has still to see.
use Prim.Native.Nat.{ℕ, suc, ◌≤◌, ◌<◌}
use mathlib.Core.Path.{◌≡◌, refl}
use mathlib.Core.Bool.{Bool, true, false, not, ◌&&◌, ◌||◌}
use mathlib.Core.List.{List, [], ◌∷◌, ◌++◌}
use native.Mathlib.Omega.{arith}
use roots.Prelude.Tests.{◌==◌, leb, if◌then◌else◌}
use roots.Prelude.Lists.{length}

-- `iter().filter(p)`
unfoldable pub keep {ℓ} : {A : Type ℓ} → (A → Bool) → List A → List A
keep p [] = []
keep p (x ∷ xs) = let rest = keep p xs in if p x then x ∷ rest else rest

-- `contains(&k)`
unfoldable pub contains : ℕ → List ℕ → Bool
contains k [] = false
contains k (x ∷ xs) = x == k || contains k xs

-- `HashSet::insert`
unfoldable pub set_insert : ℕ → List ℕ → List ℕ
set_insert k xs = if contains k xs then xs else xs ++ k ∷ []

-- `HashSet::remove`
unfoldable pub set_remove : ℕ → List ℕ → List ℕ
unfolding keep
set_remove k xs = keep (λ x. not (x == k)) xs

sort_insert : ℕ → List ℕ → List ℕ
sort_insert k [] = k ∷ []
sort_insert k (x ∷ xs) = let rest = sort_insert k xs in if leb k x then k ∷ x ∷ xs else x ∷ rest

-- `sort()`
unfoldable pub sort : List ℕ → List ℕ
unfolding sort_insert
sort [] = []
sort (x ∷ xs) = sort_insert x (sort xs)

pub contains-append :
    (k : ℕ) (xs ys : List ℕ) → contains k (xs ++ ys) ≡ (contains k xs || contains k ys)
unfolding contains
contains-append k [] ys = refl
contains-append k (x ∷ xs) ys = ground (arith, contains-append k xs ys)

pub contains-set_insert :
    (k j : ℕ) (xs : List ℕ) → contains k (set_insert j xs) ≡ (j == k || contains k xs)
unfolding contains set_insert
contains-set_insert k j xs = ground (arith, contains-append k xs (j ∷ []), contains_at k j xs)
  where
    contains_at :
        (k j : ℕ) (xs : List ℕ) → contains j xs ≡ true → (j == k) ≡ true → contains k xs ≡ true
    contains_at k j [] h e = cc
    contains_at k j (x ∷ xs) h e = ground (arith, contains_at k j xs)

pub contains-set_remove :
    (k j : ℕ) (xs : List ℕ) → contains k (set_remove j xs) ≡ (not (j == k) && contains k xs)
unfolding contains set_remove
contains-set_remove k j [] = ground arith
contains-set_remove k j (x ∷ xs) = ground (arith, contains-set_remove k j xs)

contains-sort_insert :
    (k j : ℕ) (xs : List ℕ) → contains k (sort_insert j xs) ≡ (j == k || contains k xs)
unfolding contains sort_insert
contains-sort_insert k j [] = refl
contains-sort_insert k j (x ∷ xs) = ground (arith, contains-sort_insert k j xs)

pub contains-sort : (k : ℕ) (xs : List ℕ) → contains k (sort xs) ≡ contains k xs
unfolding contains sort
contains-sort k [] = refl
contains-sort k (x ∷ xs) = ground (arith, contains-sort_insert k x (sort xs), contains-sort k xs)

-- The keys that `seen` does not have, counted.
unfoldable pub unseen : (ℕ → Bool) → List ℕ → ℕ
unseen seen [] = 0
unseen seen (k ∷ keys) = let rest = unseen seen keys in if seen k then rest else suc rest

pub unseen-length : (seen : ℕ → Bool) (keys : List ℕ) → unseen seen keys ≤ length keys
unfolding unseen
unseen-length seen [] = omega arith
unseen-length seen (k ∷ keys) = ground (arith, unseen-length seen keys)

-- Seeing more leaves fewer.
pub unseen-le :
    (seen more : ℕ → Bool) (keys : List ℕ)
    → ((k : ℕ) → seen k ≡ true → more k ≡ true)
    → unseen more keys ≤ unseen seen keys
unfolding unseen
unseen-le seen more [] h = omega arith
unseen-le seen more (k ∷ keys) h = ground (arith, h k, unseen-le seen more keys h)

-- Seeing one of them leaves one less, at least.
pub unseen-lt :
    (seen more : ℕ → Bool) (new : ℕ) (keys : List ℕ)
    → ((k : ℕ) → seen k ≡ true → more k ≡ true)
    → seen new ≡ false
    → more new ≡ true
    → contains new keys ≡ true
    → unseen more keys < unseen seen keys
unfolding unseen contains
unseen-lt seen more new [] h before after there = cc
unseen-lt seen more new (k ∷ keys) h before after there =
    grind (arith, h k, unseen-le seen more keys h, unseen-lt seen more new keys h before after)

-- No key stands in the list twice.
unfoldable pub distinct : List ℕ → Bool
unfolding contains
distinct [] = true
distinct (x ∷ xs) = not (contains x xs) && distinct xs

pub distinct-append_one :
    (xs : List ℕ) (k : ℕ)
    → distinct xs ≡ true
    → contains k xs ≡ false
    → distinct (xs ++ k ∷ []) ≡ true
unfolding distinct contains
distinct-append_one [] k h e = refl
distinct-append_one (x ∷ xs) k h e =
    ground (arith, contains-append x xs (k ∷ []), distinct-append_one xs k)
