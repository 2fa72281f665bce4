-- ===== src/Table/Update.antt =====
-- What `get` answers after one slot has changed.
use native.Mathlib.Decide.{ℕ_discrete}
use roots.Prelude.{
  ℕ, ◌-◌, ◌<◌, ◌≡◌, ◌≢◌, inl, inr, refl, sym, ap, ◌∙◌, false, Bool-cases, Option, none, some,
  Option-cases, arith, subst, get_or, set, length-set, get_or-set_self, get_or-set_ne,
  if◌then◌else◌,
}
use roots.Table.{Key, Table, never_used, live, state_at, write_live, place, is_tombstone, get}
use roots.Table.Probe.{pos, pos-lt}
use roots.Table.Invariant.{Holds, Absent, Open, Inv}
use roots.Table.Lookup.{get_held, held_get, get-Absent, Absent-get}
use roots.Table.Changes.{Change, Change-Inv, Holds-back, Holds-forth, count_tombs-set_live}

live≢never : live ≢ never_used
live≢never e = cc

module _ {K V : Type 0} (n : ℕ) (key_of : Key K) (t : Table K V) (inv : Inv n key_of t) where
  pub Holds-below : (i : ℕ) (k : K) (v : V) → Holds t i k v → i < n
  Holds-below i k v h =
      let (d, below, at_i, chain) = inv.reach i k v h in
      subst (λ (x : ℕ). x < n) at_i (pos-lt n key_of (omega arith) k d)

  module _ (i : ℕ) (below : i < n) (k : K) (v : V) where
    pub set_slot_here : get_or (set t.slots i (some (k, v))) i none ≡ some (k, v)
    set_slot_here = get_or-set_self t.slots i (some (k, v)) none (omega (arith, inv.slots_len))

    -- A new value for the key that the slot holds.
    pub replaced-Change :
        (old : V)
        → Holds t i k old
        → Change n key_of t i (record t { slots = set t.slots i (some (k, v)) })
    replaced-Change old held = record {
      slots_len = length-set t.slots i (some (k, v)) ∙ inv.slots_len;
      state_len = inv.state_len;
      tombs_counted = inv.tombs_counted;
      state_same = λ a ne. refl;
      slot_same = λ a ne. get_or-set_ne t.slots i a (some (k, v)) none ne;
      used = λ e. cc (held.0, e);
      filled_here = λ alive. (k, v, set_slot_here);
      reach_here = λ k' v' h.
          let same : k ≡ k' = cc (set_slot_here, h.1) in
          subst (λ (x : K). (d : ℕ) × (d < n) × (pos n key_of x d ≡ i) × Open n key_of t x d) same
            (inv.reach i k old held);
      alone = λ k' v' w a ne h g.
          let same : k ≡ k' = cc (set_slot_here, h.1) in
          ne (inv.unique i a k old w held (subst (λ (x : K). Holds t a x w) (sym same) g));
    }

    -- The key in a free slot on its probe.
    pub placed-Change :
        (d : ℕ)
        → d < n
        → pos n key_of k d ≡ i
        → Open n key_of t k d
        → Absent t k
        → Change n key_of t i (place t k v i).0
    unfolding place write_live
    placed-Change d d_below at_i chain away = record {
      slots_len = length-set t.slots i (some (k, v)) ∙ inv.slots_len;
      state_len = length-set t.state i live ∙ inv.state_len;
      tombs_counted =
          ap (λ (m : ℕ). if is_tombstone (state_at t i) then m - 1 else m) inv.tombs_counted
          ∙ sym (count_tombs-set_live t.state i (omega (arith, inv.state_len)));
      state_same = λ a ne. get_or-set_ne t.state i a live never_used ne;
      slot_same = λ a ne. get_or-set_ne t.slots i a (some (k, v)) none ne;
      used = λ e. live≢never (sym set_state_here ∙ e);
      filled_here = λ alive. (k, v, set_slot_here);
      reach_here = λ k' v' h.
          let same : k ≡ k' = cc (set_slot_here, h.1) in
          subst (λ (x : K). (d : ℕ) × (d < n) × (pos n key_of x d ≡ i) × Open n key_of t x d) same
            (d, d_below, at_i, chain);
      alone = λ k' v' w a ne h g.
          let same : k ≡ k' = cc (set_slot_here, h.1) in
          away a w (subst (λ (x : K). Holds t a x w) (sym same) g);
    }
      where
        set_state_here : get_or (set t.state i live) i never_used ≡ live
        set_state_here = get_or-set_self t.state i live never_used (omega (arith, inv.state_len))

  -- Two tables that hold the same of a key answer the same.
  same_answer :
      (t' : Table K V) (inv' : Inv n key_of t') (k : K)
      → ((a : ℕ) (w : V) → Holds t a k w → Holds t' a k w)
      → ((a : ℕ) (w : V) → Holds t' a k w → Holds t a k w)
      → get n key_of t' k ≡ get n key_of t k
  same_answer t' inv' k forth back = elim (Option-cases (get n key_of t k)) [
    | inl e ↦ get-Absent inv' k (λ a w h. Absent-get inv k e a w (back a w h)) ∙ sym e
    | inr (w, e) ↦ let (a, h) = held_get inv k w e in get_held inv' a k w (forth a w h) ∙ sym e
  ]

  -- A change of one slot, which held and holds no key but `k`, is not seen under other keys.
  module _ (i : ℕ) (t' : Table K V) (k : K) (c : Change n key_of t i t')
      (before : (k' : K) (w : V) → Holds t i k' w → k ≡ k')
      (after : (k' : K) (w : V) → Holds t' i k' w → k ≡ k') where
    pub Inv-after : Inv n key_of t'
    Inv-after = Change-Inv n key_of t i inv t' c

    others_after : (k' : K) → key_of.eq k k' ≡ false → get n key_of t' k' ≡ get n key_of t k'
    others_after k' other = same_answer t' Inv-after k' forth back
      where
        ne : ¬ (k ≡ k')
        ne e = cc (other, (key_of.eq_iff k k').1 e)

        forth : (a : ℕ) (w : V) → Holds t a k' w → Holds t' a k' w
        forth a w h = elim (ℕ_discrete i a) [
          | yes p ↦ absurd (ne (before k' w (subst (λ (x : ℕ). Holds t x k' w) (sym p) h)))
          | no p ↦ Holds-forth n key_of t i inv t' c a k' w p h
        ]

        back : (a : ℕ) (w : V) → Holds t' a k' w → Holds t a k' w
        back a w h = elim (ℕ_discrete i a) [
          | yes p ↦ absurd (ne (after k' w (subst (λ (x : ℕ). Holds t' x k' w) (sym p) h)))
          | no p ↦ Holds-back n key_of t i inv t' c a k' w p h
        ]

    -- The key itself now has one answer, the others have theirs.
    pub answers_after :
        (o : Option V)
        → get n key_of t' k ≡ o
        → (k' : K) → get n key_of t' k' ≡ (if key_of.eq k k' then o else get n key_of t k')
    answers_after o now k' = elim (Bool-cases (key_of.eq k k')) [
      | inl same ↦
          let e : k ≡ k' = (key_of.eq_iff k k').0 same in
          rw same (ap (get n key_of t') (sym e) ∙ now)
      | inr other ↦ rw other (others_after k' other)
    ]
