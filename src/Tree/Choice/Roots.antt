-- ===== src/Tree/Choice/Roots.antt =====
-- What the scan over the candidates settles on.
use roots.Prelude.{
  ℕ, ◌≤◌, ◌<◌, ◌≡◌, ◌⊎◌, inl, inr, refl, sym, ◌∙◌, subst, Bool, true, false, not, ◌&&◌, none, some,
  List, [], ◌∷◌, arith, ltb, ltb→lt, ltb→le, ◌==◌, ==_refl, ==_iff, Bool-cases, Option-cases,
}
use roots.Prelude.Map.{lookup, keys}
use roots.Prelude.Sets.{contains, sort, contains-sort}
use roots.Links.{LinkSet}
use roots.Tree.State.{Info, TreeState}
use roots.Tree.Walks.{has_key, root_and_dists}
use roots.Tree.Choice.{Best, start, cost_via, weigh, consider, scan, choose, cheaper}

module _ {S : Type 0} (pubkey : ℕ) (t : TreeState) (links : LinkSet S) where
  -- A key that has an info and whose way up does not lead through this node.
  unfoldable pub eligible : ℕ → Bool
  eligible pk = has_key pk t.infos && not (has_key pubkey (root_and_dists t.infos pk).1)

  -- The root that a key's way up leads to.
  abbrev pub root_of : ℕ → ℕ
  root_of pk = (root_and_dists t.infos pk).0

  weigh_cases :
      (b this : Best)
      → let r = weigh pubkey t links b this in
        ((r ≡ b) ⊎ (r ≡ this)) × (r.best_root ≤ b.best_root) × (r.best_root ≤ this.best_root)
  unfolding weigh
  weigh_cases b this = elim (Bool-cases (ltb this.best_root b.best_root)) [
    | inl lower ↦
        let fact : this.best_root < b.best_root = ltb→lt this.best_root b.best_root lower in
        rw (lower, ==_refl this.best_root)
          (elim (Bool-cases (cheaper pubkey t links this this.best_cost)) [
            | inl cheap ↦ rw cheap (inr refl, omega (arith, fact), omega (arith, fact))
            | inr dear ↦ rw dear (inr refl, omega (arith, fact), omega (arith, fact))
          ])
    | inr higher ↦
        let fact : b.best_root ≤ this.best_root = ltb→le this.best_root b.best_root higher in
        rw higher (elim (Bool-cases (this.best_root == b.best_root)) [
          | inr apart ↦ rw apart (inl refl, omega (arith, fact), omega (arith, fact))
          | inl same ↦
              let equal : this.best_root ≡ b.best_root =
                (==_iff this.best_root b.best_root).0 same in
              rw same (elim (Bool-cases (cheaper pubkey t links b this.best_cost)) [
                | inl cheap ↦
                    rw cheap (inr refl, omega (arith, fact, equal), omega (arith, fact, equal))
                | inr dear ↦
                    rw dear (inl refl, omega (arith, fact, equal), omega (arith, fact, equal))
              ])
        ])
  ]

  abbrev candidate : ℕ → Best
  candidate pk = record {
    best_root = root_of pk;
    best_parent = pk;
    best_cost = cost_via pubkey t links pk (root_and_dists t.infos pk);
  }

  known_key : (pk : ℕ) (i : Info) → lookup pk t.infos ≡ some i → has_key pk t.infos ≡ true
  unfolding has_key
  known_key pk i known = rw (has_key, known) refl

  unknown_key : (pk : ℕ) → lookup pk t.infos ≡ none → has_key pk t.infos ≡ false
  unfolding has_key
  unknown_key pk unknown = rw (has_key, unknown) refl

  consider-eligible :
      (b : Best) (pk : ℕ)
      → ((eligible pk ≡ true)
          × (consider pubkey t links b pk ≡ weigh pubkey t links b (candidate pk)))
        ⊎ ((eligible pk ≡ false) × (consider pubkey t links b pk ≡ b))
  unfolding consider eligible
  consider-eligible b pk = elim (Option-cases (lookup pk t.infos)) [
    | inl unknown ↦ inr (rw (unknown_key pk unknown) refl, rw (consider, unknown) refl)
    | inr (i, known) ↦ elim (Bool-cases (has_key pubkey (root_and_dists t.infos pk).1)) [
      | inl through ↦
          inr (rw (known_key pk i known, through) refl, rw (consider, known, through) refl)
      | inr apart ↦ inl (rw (known_key pk i known, apart) refl, rw (consider, known, apart) refl)
    ]
  ]

  consider_cases :
      (b : Best) (pk : ℕ)
      → let r = consider pubkey t links b pk in
        ((r ≡ b) ⊎ ((eligible pk ≡ true) × (r ≡ candidate pk)))
        × (r.best_root ≤ b.best_root)
        × (eligible pk ≡ true → r.best_root ≤ root_of pk)
  consider_cases b pk =
      let (which, low, lower) = weigh_cases b (candidate pk) in
      elim (consider-eligible b pk) [
        | inl (fit, e) ↦
            rw e (elim which [ inl same ↦ inl same | inr this ↦ inr (fit, this) ], low, λ _. lower)
        | inr (unfit, e) ↦ rw e (inl refl, omega arith, λ fit. cc (fit, unfit))
      ]

  -- A choice that the scan may make: where it began, or a candidate that is eligible.
  abbrev pub Sound : Best → List ℕ → Best → Type 0
  Sound b pks r =
      (r ≡ b) ⊎ ((pk : ℕ) × (contains pk pks ≡ true) × (eligible pk ≡ true) × (r ≡ candidate pk))

  Sound-step :
      (b next r : Best) (k : ℕ) (ks : List ℕ)
      → (next ≡ b) ⊎ ((eligible k ≡ true) × (next ≡ candidate k))
      → Sound next ks r
      → Sound b (k ∷ ks) r
  unfolding contains
  Sound-step b next r k ks (inl same) (inl e) = inl (e ∙ same)
  Sound-step b next r k ks (inr (fit, this)) (inl e) = inr (k, rw (==_refl k) refl, fit, e ∙ this)
  Sound-step b next r k ks which (inr (pk, there, fit, e)) = inr (pk, ground (arith, there), fit, e)

  -- What a scan comes to, for every candidate it saw.
  abbrev pub Scanned : Best → List ℕ → Best → Type 0
  Scanned b pks r =
      Sound b pks r
      × (r.best_root ≤ b.best_root)
      × ((pk : ℕ) → contains pk pks ≡ true → eligible pk ≡ true → r.best_root ≤ root_of pk)

  contains_later :
      (k pk : ℕ) (ks : List ℕ)
      → (k == pk) ≡ false
      → contains pk (k ∷ ks) ≡ true
      → contains pk ks ≡ true
  unfolding contains
  contains_later k pk ks other there = ground arith

  Scanned-step :
      (b next r : Best) (k : ℕ) (ks : List ℕ)
      → (next ≡ b) ⊎ ((eligible k ≡ true) × (next ≡ candidate k))
      → next.best_root ≤ b.best_root
      → (eligible k ≡ true → next.best_root ≤ root_of k)
      → Scanned next ks r
      → Scanned b (k ∷ ks) r
  Scanned-step b next r k ks which low lower (after, down, below) = (
    Sound-step b next r k ks which after,
    omega (arith, low, down),
    λ pk there fit. elim (Bool-cases (k == pk)) [
      | inl here ↦
          let at : k ≡ pk = (==_iff k pk).0 here in
          let fit_k : eligible k ≡ true = subst (λ (x : ℕ). eligible x ≡ true) (sym at) fit in
          subst (λ (x : ℕ). r.best_root ≤ root_of x) at (omega (arith, down, lower fit_k))
      | inr later ↦ below pk (contains_later k pk ks later there) fit
    ],
  )

  scan_round :
      (b : Best) (k : ℕ) (ks : List ℕ)
      → scan pubkey t links b (k ∷ ks) ≡ scan pubkey t links (consider pubkey t links b k) ks
  unfolding scan
  scan_round b k ks = refl

  scan_cases : (b : Best) (pks : List ℕ) → Scanned b pks (scan pubkey t links b pks)
  scan_cases b [] = unfold scan in (inl refl, omega arith, λ pk there fit. cc (there, nothing pk))
    where
      nothing : (pk : ℕ) → contains pk [] ≡ false
      nothing pk = unfold contains in refl
  scan_cases b (k ∷ ks) =
      let next : Best = consider pubkey t links b k in
      let (which, low, lower) = consider_cases b k in
      subst (Scanned b (k ∷ ks)) (sym (scan_round b k ks)) (
        Scanned-step b next (scan pubkey t links next ks) k ks which low lower (scan_cases next ks))

  unsorted : (b r : Best) (pks : List ℕ) → Sound b (sort pks) r → Sound b pks r
  unsorted b r pks (inl same) = inl same
  unsorted b r pks (inr (pk, there, fit, e)) = inr (pk, sym (contains-sort pk pks) ∙ there, fit, e)

  -- The choice is where the scan began or a neighbour with a response whose way up avoids this
  -- node; its root is no higher than where the scan began, nor than the root that any neighbour
  -- with a response and such a way leads to.
  pub choose_lem :
      Sound (start pubkey t links) (keys t.responses) (choose pubkey t links)
      × ((choose pubkey t links).best_root ≤ (start pubkey t links).best_root)
      × ((pk : ℕ)
          → contains pk (keys t.responses) ≡ true
          → eligible pk ≡ true
          → (choose pubkey t links).best_root ≤ root_of pk)
  choose_lem =
      let b : Best = start pubkey t links in
      let pks : List ℕ = keys t.responses in
      let scanned : choose pubkey t links ≡ scan pubkey t links b (sort pks) =
        unfold choose in refl in
      let (which, low, lower) = scan_cases b (sort pks) in
      rw scanned (
        unsorted b (scan pubkey t links b (sort pks)) pks which,
        low,
        λ pk there fit. lower pk (contains-sort pk pks ∙ there) fit,
      )
