-- ===== src/Table/Insert.antt =====
-- `insert` against what `get` answers: the table refines a finite map of bounded size.
use roots.Prelude.{
  ℕ, ◌<◌, ◌≡◌, ◌≢◌, ◌⊎◌, inl, inr, refl, sym, ap, Option, none, some, arith, subst, set,
  get_or-set_self, if◌then◌else◌,
}
use roots.Table.{
  Key, Table, InsertResult, ok, table_full, never_used, live, state_at, write_live, place, get,
  insert,
}
use roots.Table.Probe.{pos, pos-lt}
use roots.Table.Invariant.{Holds, Absent, Open, Inv}
use roots.Table.Lookup.{get_held, get-Absent}
use roots.Table.Outcome.{Outcome, replaced, placed, full, insert-Outcome}
use roots.Table.Changes.{Change}
use roots.Table.Update.{
  Holds-below, set_slot_here, replaced-Change, placed-Change, Inv-after, answers_after,
}

module _ {K V : Type 0} (n : ℕ) (key_of : Key K) (t : Table K V) (k : K) (v : V) where
  -- A stored entry is there afterwards and no other key has changed.
  abbrev pub Stored : Table K V × InsertResult V → Type 0
  Stored r =
      (r.1 ≡ ok (get n key_of t k))
      × Inv n key_of r.0
      × ((k' : K) → get n key_of r.0 k' ≡ (if key_of.eq k k' then some v else get n key_of t k'))

  -- A refused one is no key of the table, every slot is live, and nothing was written.
  abbrev pub Refused : Table K V × InsertResult V → Type 0
  Refused r =
      (r ≡ (t, table_full)) × (get n key_of t k ≡ none) × ((i : ℕ) → i < n → state_at t i ≡ live)

module _ {K V : Type 0} (n : ℕ) (key_of : Key K) (t : Table K V) (inv : Inv n key_of t) where
  module _ (k : K) (v : V) where
    Stored-at :
        (i : ℕ) (t' : Table K V) (old : Option V)
        → Change n key_of t i t'
        → ((k' : K) (w : V) → Holds t i k' w → k ≡ k')
        → Holds t' i k v
        → get n key_of t k ≡ old
        → Stored n key_of t k v (t', ok old)
    Stored-at i t' old c before now was = (
      ap ok (sym was),
      Inv-after n key_of t inv i t' k c before after,
      answers_after n key_of t inv i t' k c before after (some v)
          (get_held (Inv-after n key_of t inv i t' k c before after) i k v now),
    )
      where
        after : (k' : K) (w : V) → Holds t' i k' w → k ≡ k'
        after k' w h = cc (now.1, h.1)

    placed_at :
        (d i : ℕ)
        → d < n
        → pos n key_of k d ≡ i
        → Open n key_of t k d
        → state_at t i ≢ live
        → Absent t k
        → Stored n key_of t k v (place t k v i)
    unfolding place write_live
    placed_at d i d_below at_i chain free away =
        Stored-at i (place t k v i).0 none
          (placed-Change n key_of t inv i below k v d d_below at_i chain away)
          (λ k' w h. absurd (free h.0))
          (
            get_or-set_self t.state i live never_used (omega (arith, below, inv.state_len)),
            set_slot_here n key_of t inv i below k v,
          )
          (get-Absent inv k away)
      where
        below : i < n
        below = subst (λ (x : ℕ). x < n) at_i (pos-lt n key_of (omega arith) k d)

    insert_cases_of :
        (r : Table K V × InsertResult V)
        → Outcome n key_of t k v r
        → Stored n key_of t k v r ⊎ Refused n key_of t k v r
    insert_cases_of r (replaced i old held e) = inl (
        subst (Stored n key_of t k v) (sym e) (
          Stored-at i (record t { slots = set t.slots i (some (k, v)) }) (some old)
            (replaced-Change n key_of t inv i below k v old held) (λ k' w h. cc (held.1, h.1))
            (held.0, set_slot_here n key_of t inv i below k v) (get_held inv i k old held)))
      where
        below : i < n
        below = Holds-below n key_of t inv i k old held
    insert_cases_of r (placed d d_below chain free away e) = inl (
        subst (Stored n key_of t k v) (sym e)
          (placed_at d (pos n key_of k d) d_below refl chain free away))
    insert_cases_of r (full away all_live e) = inr (e, get-Absent inv k away, all_live)

    -- An insertion into a table that keeps its invariant either stores the entry, returning what
    -- `get` found before, and leaves the answers for all other keys; or it is refused, and then the
    -- key is absent, every slot is live and the table is as it was.
    pub insert_cases :
        Stored n key_of t k v (insert n key_of t k v)
        ⊎ Refused n key_of t k v (insert n key_of t k v)
    insert_cases = insert_cases_of (insert n key_of t k v) (insert-Outcome n key_of t k v inv)

    -- Whatever the result, the invariant is kept.
    pub insert-Inv : Inv n key_of (insert n key_of t k v).0
    insert-Inv = elim insert_cases [
      | inl stored ↦ stored.1
      | inr refused ↦ subst (Inv n key_of) (sym (ap (λ r. r.0) refused.0)) inv
    ]
