-- ===== src/Tree/Walks/Climb.antt =====
-- The distances of `root_and_dists` count the steps from child to parent.
use roots.Prelude.{
  ℕ, zero, suc, ◌+◌, ◌≡◌, refl, sym, ap, ◌∙◌, subst, Option, none, some, inl, inr, [], arith, ◌==◌,
  ==_iff, Bool-cases, Option-cases, length,
}
use roots.Prelude.Map.{Map, lookup, insert, keys, lookup-insert}
use roots.Tree.State.{Info}
use roots.Tree.Walks.{has_key, root_loop, root_and_dists}
use roots.Tree.Walks.Rounds.{root_round_seen, root_round_end, root_round_on}

module _ (infos : Map Info) (dest : ℕ) where
  -- The parent that the table has for a key.
  unfoldable pub parent_of : Option ℕ → Option ℕ
  parent_of none = none
  parent_of (some k) = elim (lookup k infos) [ none ↦ none | some info ↦ some info.parent ]

  -- The key that is so many steps above `dest`.
  unfoldable pub ancestor : ℕ → Option ℕ
  unfolding parent_of
  ancestor zero = some dest
  ancestor (suc d) = parent_of (ancestor d)

  -- Every distance in the table is right.
  abbrev pub Measured : Map ℕ → Type 0
  Measured dists = (k d : ℕ) → lookup k dists ≡ some d → ancestor d ≡ some k

  -- The root that was reached is above `dest` or `dest` itself.
  abbrev pub Climbed : ℕ × Map ℕ → Type 0
  Climbed r = ((d : ℕ) × (ancestor d ≡ some r.0)) × Measured r.1

  Measured-insert :
      (next dist : ℕ) (dists : Map ℕ)
      → ancestor dist ≡ some next
      → Measured dists
      → Measured (insert next dist dists)
  Measured-insert next dist dists at all k d e = elim (Bool-cases (next == k)) [
    | inl same ↦
        let there : lookup k (insert next dist dists) ≡ some dist =
          lookup-insert next k dist dists ∙ rw same refl in
        let equal : some dist ≡ some d = sym there ∙ e in
        let dist_d : dist ≡ d = cc equal in
        let next_k : next ≡ k = (==_iff next k).0 same in
        subst (λ (x : ℕ). ancestor x ≡ some k) dist_d (at ∙ ap some next_k)
    | inr other ↦ all k d (sym (lookup-insert next k dist dists ∙ rw other refl) ∙ e)
  ]

  above : (dist : ℕ) → ancestor (suc dist) ≡ parent_of (ancestor dist)
  unfolding ancestor
  above dist = refl

  parent_found :
      (k : ℕ) (info : Info) → lookup k infos ≡ some info → parent_of (some k) ≡ some info.parent
  unfolding parent_of
  parent_found k info found = rw (parent_of, found) refl

  up :
      (dist next : ℕ) (info : Info)
      → ancestor dist ≡ some next
      → lookup next infos ≡ some info
      → ancestor (dist + 1) ≡ some info.parent
  up dist next info at found =
      let e : dist + 1 ≡ suc dist = omega arith in
      ap ancestor e ∙ above dist ∙ ap parent_of at ∙ parent_found next info found

  root_loop-Climbed :
      (fuel next root dist : ℕ) (dists : Map ℕ)
      → ancestor dist ≡ some next
      → ((d : ℕ) × (ancestor d ≡ some root))
      → Measured dists
      → Climbed (root_loop infos fuel next root dist dists)
  root_loop-Climbed zero next root dist dists at below all = unfold root_loop in (below, all)
  root_loop-Climbed (suc fuel) next root dist dists at below all =
      elim (Bool-cases (has_key next dists)) [
        | inl seen ↦
            subst Climbed (sym (root_round_seen infos fuel next root dist dists seen)) (below, all)
        | inr new ↦ elim (Option-cases (lookup next infos)) [
          | inl end ↦
              subst Climbed (sym (root_round_end infos fuel next root dist dists end)) (below, all)
          | inr (info, found) ↦
              subst Climbed (sym (root_round_on infos fuel next root dist dists info new found)) (
                root_loop-Climbed fuel info.parent next (dist + 1) (insert next dist dists)
                  (up dist next info at found) (dist, at) (Measured-insert next dist dists at all))
        ]
      ]

  -- Each distance that `root_and_dists` gives counts the steps up from `dest` to its key, and the root
  -- lies on the same way up.
  pub root_and_dists-Climbed : Climbed (root_and_dists infos dest)
  unfolding root_and_dists
  root_and_dists-Climbed =
      root_loop-Climbed (length (keys infos) + 1) dest dest 0 [] (unfold ancestor in refl)
        (0, unfold ancestor in refl) (λ k d e. cc (nowhere k, e))
    where
      nowhere : (k : ℕ) → lookup {V = ℕ} k [] ≡ none
      nowhere k = unfold lookup in refl
