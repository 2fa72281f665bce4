-- ===== src/Tree/Walks.antt =====
-- The walks up the tree, `root_and_dists` and `ancestry`, on fuel: one round a step.
pub mod Rounds
pub mod Climb
use roots.Prelude.{
  ℕ, zero, suc, ◌+◌, ◌≡◌, Bool, true, false, Option, none, some, List, [], ◌∷◌, ◌++◌, reverse,
  length, if◌then◌else◌,
}
use roots.Prelude.Map.{Map, lookup, insert, keys}
use roots.Prelude.Sets.{contains}
use roots.Tree.State.{Info}

-- `dists.contains_key(&next)`
unfoldable pub has_key : {V : Type 0} → ℕ → Map V → Bool
has_key k m = elim (lookup k m) [ none ↦ false | some v ↦ true ]

-- `pop()`
unfoldable pub drop_last : List ℕ → List ℕ
drop_last [] = []
drop_last (x ∷ []) = []
drop_last (x ∷ y ∷ xs) = x ∷ drop_last (y ∷ xs)

module _ (infos : Map Info) where
  unfoldable pub root_loop : ℕ → ℕ → ℕ → ℕ → Map ℕ → ℕ × Map ℕ
  unfolding has_key
  root_loop zero next root dist dists = (root, dists)
  root_loop (suc fuel) next root dist dists = elim (has_key next dists) [
    | true ↦ (root, dists)
    | false ↦ elim (lookup next infos) [
      | some info ↦ root_loop fuel info.parent next (dist + 1) (insert next dist dists)
      | none ↦ (root, dists)
    ]
  ]

  -- A walk visits each key with an info once.
  unfoldable pub root_and_dists : ℕ → ℕ × Map ℕ
  root_and_dists dest = root_loop (length (keys infos) + 1) dest dest 0 []

  -- `anc` is in the order of the walk.
  unfoldable pub ancestry_loop : ℕ → ℕ → List ℕ → List ℕ
  ancestry_loop zero here anc = anc
  ancestry_loop (suc fuel) here anc = elim (lookup here infos) [
    | some info ↦ elim (contains info.parent anc) [
      | true ↦ anc
      | false ↦ ancestry_loop fuel info.parent (anc ++ info.parent ∷ [])
    ]
    | none ↦ drop_last anc
  ]

  unfoldable pub ancestry : ℕ → List ℕ
  ancestry key = reverse (ancestry_loop (length (keys infos) + 2) key (key ∷ []))
