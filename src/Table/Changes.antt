-- ===== src/Table/Changes.antt =====
-- Changing one slot keeps the invariant: a new value, a new entry, a tombstone.
use native.Mathlib.Decide.{ℕ_discrete}
use roots.Prelude.{
  ℕ, zero, suc, ◌+◌, ◌-◌, ◌<◌, ◌≡◌, ◌≢◌, refl, sym, ap, ◌∙◌, true, some, List, [], ◌∷◌, arith,
  subst, length, get_or, set, if◌then◌else◌,
}
use roots.Table.{
  Key, Table, SlotState, never_used, live, tombstone, slot_at, state_at, is_tombstone,
}
use roots.Table.Probe.{pos}
use roots.Table.Invariant.{Holds, Open, Inv, count_tombs}

count_tombs_pos :
    (ss : List SlotState) (i : ℕ)
    → is_tombstone (get_or ss i never_used) ≡ true
    → 0 < count_tombs ss
unfolding count_tombs is_tombstone
count_tombs_pos [] i e = cc
count_tombs_pos (tombstone ∷ ss) i e = omega arith
count_tombs_pos (never_used ∷ ss) zero e = cc
count_tombs_pos (live ∷ ss) zero e = cc
count_tombs_pos (never_used ∷ ss) (suc i) e = count_tombs_pos ss i e
count_tombs_pos (live ∷ ss) (suc i) e = count_tombs_pos ss i e

pub count_tombs-set_live :
    (ss : List SlotState) (i : ℕ)
    → i < length ss
    → count_tombs (set ss i live)
      ≡ (if is_tombstone (get_or ss i never_used) then count_tombs ss - 1 else count_tombs ss)
unfolding count_tombs is_tombstone
count_tombs-set_live [] i h = absurd (omega arith)
count_tombs-set_live (never_used ∷ ss) zero h = refl
count_tombs-set_live (live ∷ ss) zero h = refl
count_tombs-set_live (tombstone ∷ ss) zero h = omega arith
count_tombs-set_live (never_used ∷ ss) (suc i) h = count_tombs-set_live ss i (omega arith)
count_tombs-set_live (live ∷ ss) (suc i) h = count_tombs-set_live ss i (omega arith)
count_tombs-set_live (tombstone ∷ ss) (suc i) h =
    ground (arith, count_tombs-set_live ss i, count_tombs_pos ss i)

pub count_tombs-set_tombstone :
    (ss : List SlotState) (i : ℕ)
    → i < length ss
    → get_or ss i never_used ≡ live
    → count_tombs (set ss i tombstone) ≡ count_tombs ss + 1
unfolding count_tombs
count_tombs-set_tombstone [] i h e = absurd (omega arith)
count_tombs-set_tombstone (s ∷ ss) zero h e = rw e (omega arith)
count_tombs-set_tombstone (never_used ∷ ss) (suc i) h e =
    count_tombs-set_tombstone ss i (omega arith) e
count_tombs-set_tombstone (live ∷ ss) (suc i) h e = count_tombs-set_tombstone ss i (omega arith) e
count_tombs-set_tombstone (tombstone ∷ ss) (suc i) h e =
    ap suc (count_tombs-set_tombstone ss i (omega arith) e) ∙ omega arith

-- What a changed slot must satisfy, for the others to stay as they were.
module _ {K V : Type 0} (n : ℕ) (key_of : Key K) (t : Table K V) (i : ℕ) where
  pub record Change (t' : Table K V) : Type 0 where
    pub slots_len : length t'.slots ≡ n
    pub state_len : length t'.state ≡ n
    pub tombs_counted : t'.tombs ≡ count_tombs t'.state
    pub state_same : (a : ℕ) → i ≢ a → state_at t' a ≡ state_at t a
    pub slot_same : (a : ℕ) → i ≢ a → slot_at t' a ≡ slot_at t a
    pub used : state_at t' i ≢ never_used
    pub filled_here : state_at t' i ≡ live → (k : K) × (v : V) × (slot_at t' i ≡ some (k, v))
    pub reach_here :
        (k : K) (v : V)
        → Holds t' i k v
        → (d : ℕ) × (d < n) × (pos n key_of k d ≡ i) × Open n key_of t k d
    pub alone : (k : K) (v w : V) (a : ℕ) → i ≢ a → Holds t' i k v → Holds t a k w → ⊥

  module _ (inv : Inv n key_of t) (t' : Table K V) (c : Change t') where
    -- Elsewhere the tables hold the same.
    pub Holds-back : (a : ℕ) (k : K) (v : V) → i ≢ a → Holds t' a k v → Holds t a k v
    Holds-back a k v ne h = (sym (c.state_same a ne) ∙ h.0, sym (c.slot_same a ne) ∙ h.1)

    pub Holds-forth : (a : ℕ) (k : K) (v : V) → i ≢ a → Holds t a k v → Holds t' a k v
    Holds-forth a k v ne h = (c.state_same a ne ∙ h.0, c.slot_same a ne ∙ h.1)

    still-Open : (k : K) (d : ℕ) → Open n key_of t k d → Open n key_of t' k d
    still-Open k d old e h = elim (ℕ_discrete i (pos n key_of k e)) [
      | yes p ↦ subst (λ (x : ℕ). state_at t' x ≢ never_used) p c.used
      | no p ↦ λ never. old e h (sym (c.state_same (pos n key_of k e) p) ∙ never)
    ]

    filled_after : (a : ℕ) → state_at t' a ≡ live → (k : K) × (v : V) × (slot_at t' a ≡ some (k, v))
    filled_after a alive = elim (ℕ_discrete i a) [
      | yes p ↦
          subst (λ (x : ℕ). state_at t' x ≡ live → (k : K) × (v : V) × (slot_at t' x ≡ some (k, v)))
            p c.filled_here alive
      | no p ↦
          let (k, v, e) = inv.filled a (sym (c.state_same a p) ∙ alive) in
          (k, v, c.slot_same a p ∙ e)
    ]

    reach_after :
        (a : ℕ) (k : K) (v : V)
        → Holds t' a k v
        → (d : ℕ) × (d < n) × (pos n key_of k d ≡ a) × Open n key_of t' k d
    reach_after a k v h = elim (ℕ_discrete i a) [
      | yes p ↦
          let (d, below, at_i, chain) =
            c.reach_here k v (subst (λ (x : ℕ). Holds t' x k v) (sym p) h) in
          (d, below, at_i ∙ p, still-Open k d chain)
      | no p ↦
          let (d, below, at_a, chain) = inv.reach a k v (Holds-back a k v p h) in
          (d, below, at_a, still-Open k d chain)
    ]

    unique_after : (a b : ℕ) (k : K) (v w : V) → Holds t' a k v → Holds t' b k w → a ≡ b
    unique_after a b k v w h g = elim (ℕ_discrete i a) [
      | yes p ↦ elim (ℕ_discrete i b) [
        | yes q ↦ sym p ∙ q
        | no q ↦
            absurd (
              c.alone k v w b q (subst (λ (x : ℕ). Holds t' x k v) (sym p) h)
                (Holds-back b k w q g))
      ]
      | no p ↦ elim (ℕ_discrete i b) [
        | yes q ↦
            absurd (
              c.alone k w v a p (subst (λ (x : ℕ). Holds t' x k w) (sym q) g)
                (Holds-back a k v p h))
        | no q ↦ inv.unique a b k v w (Holds-back a k v p h) (Holds-back b k w q g)
      ]
    ]

    pub Change-Inv : Inv n key_of t'
    Change-Inv = record {
      slots_len = c.slots_len;
      state_len = c.state_len;
      tombs_counted = c.tombs_counted;
      filled = filled_after;
      reach = reach_after;
      unique = unique_after;
    }
