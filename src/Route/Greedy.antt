-- ===== src/Route/Greedy.antt =====
-- A packet that is forwarded comes closer with every hop.
use roots.Prelude.{
  ℕ, suc, ◌+◌, ◌≤◌, ◌<◌, ◌≡◌, ◌⊎◌, inl, inr, refl, sym, ap, ◌∙◌, subst, Bool, true, false, ◌||◌,
  Option, none, some, List, [], ◌∷◌, ◌++◌, arith, ltb, ltb→lt, ==_iff, ==_refl, if◌then◌else◌,
  Bool-cases, Option-cases,
}
use roots.Prelude.Map.{lookup}
use roots.Prelude.Sets.{contains, contains-append, sort}
use roots.Links.{LinkSet, peers, links_to}
use roots.Tree.State.{TreeState}
use roots.Route.{
  Hop, root_path_for, root_path, coords_dist, is_closer, weigh_hop, weigh_hops, candidates, pick,
  greedy_next,
}

if-best : (b : Bool) (x y : Hop) → ((if b then x else y) ≡ y) ⊎ ((if b then x else y).best ≡ x.best)
if-best true x y = inr refl
if-best false x y = inl refl

module _ (t : TreeState) (path : List ℕ) where
  weigh_hop-cases :
      (h : Hop) (id : ℕ) → (weigh_hop t path h id ≡ h) ⊎ ((weigh_hop t path h id).best ≡ some id)
  unfolding weigh_hop
  weigh_hop-cases h id = elim (Option-cases (lookup id t.links)) [
    | inl miss ↦ inl (rw (weigh_hop, miss) refl)
    | inr (l, hit) ↦ rw (weigh_hop, hit) (if-best _ _ h)
  ]

  -- The choice is the one from before or one of the candidates.
  weigh_hops-best :
      (ids : List ℕ) (h : Hop) (x : ℕ)
      → (weigh_hops t path h ids).best ≡ some x
      → (h.best ≡ some x) ⊎ (contains x ids ≡ true)
  unfolding weigh_hops contains
  weigh_hops-best [] h x e = inl e
  weigh_hops-best (id ∷ ids) h x e = elim (weigh_hops-best ids (weigh_hop t path h id) x e) [
    | inr later ↦ inr (ground (arith, later))
    | inl now ↦ elim (weigh_hop-cases h id) [
      | inl kept ↦ inl (ap (λ (g : Hop). g.best) (sym kept) ∙ now)
      | inr taken ↦
          let same : id ≡ x = some_inj (sym taken ∙ now) in
          inr (ground (arith, (==_iff id x).1 same))
    ]
  ]
    where
      some_inj : {a b : ℕ} → some a ≡ some b → a ≡ b
      some_inj e = cc

module _ {S : Type 0} (pubkey : ℕ) (t : TreeState) (links : LinkSet S) (path : List ℕ) where
  abbrev far_or_near : ℕ → List ℕ → List ℕ
  far_or_near bound ks = candidates pubkey t links path bound ks

  near_step :
      (bound k : ℕ) (ks : List ℕ)
      → is_closer path bound (root_path_for t.infos k) ≡ true
      → far_or_near bound (k ∷ ks) ≡ links_to links k ++ far_or_near bound ks
  unfolding candidates
  near_step bound k ks e = rw (candidates, e) refl

  far_step :
      (bound k : ℕ) (ks : List ℕ)
      → is_closer path bound (root_path_for t.infos k) ≡ false
      → far_or_near bound (k ∷ ks) ≡ far_or_near bound ks
  unfolding candidates
  far_step bound k ks e = rw (candidates, e) refl

  -- A link of a key whose coordinates are below the bound.
  abbrev pub LeadsBelow : ℕ → ℕ → List ℕ → Type 0
  LeadsBelow bound x ks =
      (k : ℕ) × (contains k ks ≡ true)
      × (contains x (links_to links k) ≡ true)
      × (is_closer path bound (root_path_for t.infos k) ≡ true)

  later_key : (bound x j : ℕ) (ks : List ℕ) → LeadsBelow bound x ks → LeadsBelow bound x (j ∷ ks)
  unfolding contains
  later_key bound x j ks (k, there, link, near) = (k, ground (arith, there), link, near)

  first_key :
      (bound x k : ℕ) (ks : List ℕ)
      → contains x (links_to links k) ≡ true
      → is_closer path bound (root_path_for t.infos k) ≡ true
      → LeadsBelow bound x (k ∷ ks)
  unfolding contains
  first_key bound x k ks link near = (k, ground (arith, ==_refl k), link, near)

  none_there : (bound x : ℕ) → contains x (far_or_near bound []) ≡ false
  unfolding candidates contains
  none_there bound x = refl

  candidates-contains :
      (bound x : ℕ) (ks : List ℕ) → contains x (far_or_near bound ks) ≡ true → LeadsBelow bound x ks
  candidates-contains bound x [] h = absurd (clash (sym (none_there bound x) ∙ h))
    where
      clash : false ≡ true → ⊥
      clash e = cc
  candidates-contains bound x (k ∷ ks) h =
      elim (Bool-cases (is_closer path bound (root_path_for t.infos k))) [
        | inr far ↦
            later_key bound x k ks
              (candidates-contains bound x ks (ap (contains x) (sym (far_step bound k ks far)) ∙ h))
        | inl near ↦ elim (Bool-cases (contains x (links_to links k))) [
          | inl here ↦ first_key bound x k ks here near
          | inr other ↦ later_key bound x k ks (
              candidates-contains bound x ks (
                ap (λ (b : Bool). b || contains x (far_or_near bound ks)) (sym other)
                ∙ sym (contains-append x (links_to links k) (far_or_near bound ks))
                ∙ ap (contains x) (sym (near_step bound k ks near))
                ∙ h))
        ]
      ]

  pick-below :
      (bound x : ℕ)
      → pick pubkey t links path bound ≡ some x
      → LeadsBelow bound x (sort (peers links))
  unfolding pick
  pick-below bound x e =
      elim (weigh_hops-best t path (far_or_near bound (sort (peers links))) _ x e) [
        | inl start ↦ absurd (nothing start)
        | inr there ↦ candidates-contains bound x (sort (peers links)) there
      ]
    where
      nothing : none ≡ some x → ⊥
      nothing e = cc

  module _ (sp : List ℕ) (watermark : ℕ) (known : root_path t.infos pubkey ≡ some sp) where
    closer_round :
        ltb (coords_dist path sp) watermark ≡ true
        → greedy_next pubkey t links path watermark
          ≡ (pick pubkey t links path (coords_dist path sp), coords_dist path sp)
    unfolding greedy_next
    closer_round e = rw (greedy_next, known, e) refl

    stuck_round :
        ltb (coords_dist path sp) watermark ≡ false
        → greedy_next pubkey t links path watermark ≡ (none, watermark)
    unfolding greedy_next
    stuck_round e = rw (greedy_next, known, e) refl

    -- Where a node knows its own coordinates and finds a next hop, its distance to the destination is
    -- below the watermark and becomes the watermark, and the next hop is a live link to a peer whose
    -- coordinates are known and strictly closer than that.
    pub greedy_next_lem :
        (id watermark' : ℕ)
        → greedy_next pubkey t links path watermark ≡ (some id, watermark')
        → (watermark' ≡ coords_dist path sp)
          × (watermark' < watermark)
          × LeadsBelow watermark' id (sort (peers links))
    greedy_next_lem id watermark' e = elim (Bool-cases (ltb (coords_dist path sp) watermark)) [
      | inr far ↦ absurd (nothing (ap (λ (r : Option ℕ × ℕ). r.0) (sym (stuck_round far) ∙ e)))
      | inl near ↦
          let found = sym (closer_round near) ∙ e in
          let at : watermark' ≡ coords_dist path sp = sym (ap (λ (r : Option ℕ × ℕ). r.1) found) in
          (
            at,
            omega (arith, at, ltb→lt (coords_dist path sp) watermark near),
            subst (λ (w : ℕ). LeadsBelow w id (sort (peers links))) (sym at)
                (pick-below (coords_dist path sp) id (ap (λ (r : Option ℕ × ℕ). r.0) found)),
          )
    ]
      where
        nothing : none ≡ some id → ⊥
        nothing e = cc

-- A packet with this path on its way through nodes that know their coordinates, whatever the trees and
-- the links of each: the watermark it comes with, the watermark it leaves with, and the hops it took.
pub data Forwarded (path : List ℕ) : ℕ → ℕ → ℕ → Type 1 where
  rests : (watermark : ℕ) → Forwarded path watermark watermark 0
  hops :
      {S : Type 0} (pubkey : ℕ) (t : TreeState) (links : LinkSet S) (sp : List ℕ)
      (watermark watermark' last id n : ℕ)
      → root_path t.infos pubkey ≡ some sp
      → greedy_next pubkey t links path watermark ≡ (some id, watermark')
      → Forwarded path watermark' last n
      → Forwarded path watermark last (suc n)

-- No packet is forwarded for ever: through nodes that know their coordinates, even when they disagree
-- about the tree, it takes no more hops than its watermark goes down.
pub Forwarded-bound :
    (path : List ℕ) (watermark last n : ℕ) → Forwarded path watermark last n → n + last ≤ watermark
Forwarded-bound path _ _ _ (rests w) = omega arith
Forwarded-bound path _ _ _ (hops pubkey t links sp watermark watermark' last id n known step rest) =
    omega (
      arith,
      (greedy_next_lem pubkey t links path sp watermark known id watermark' step).1,
      Forwarded-bound path watermark' last n rest,
    )
