-- ===== src/Table/Remove.antt =====
-- `remove` against what `get` answers.
use mathlib.Core.Path.{subst₂}
use native.Mathlib.Decide.{ℕ_discrete}
use roots.Prelude.{
  ℕ, zero, suc, ◌+◌, ◌%◌, ◌<◌, ◌≡◌, ◌⊎◌, inl, inr, refl, sym, ap, ◌∙◌, Bool-cases, Option, none,
  some, Option-cases, arith, subst, get_or, set, length-set, get_or-set_self, get_or-set_ne,
  if◌then◌else◌,
}
use roots.Table.{
  Key, Table, never_used, live, tombstone, state_at, matches, get_loop, get, remove_loop, remove,
  probe_start,
}
use roots.Table.Invariant.{Holds, Absent, Inv, matches-some}
use roots.Table.Lookup.{State-cases, get-Absent, get_never, get_hit, get_miss, get_tomb}
use roots.Table.Changes.{Change, Holds-back, count_tombs-set_tombstone}
use roots.Table.Update.{Holds-below, Inv-after, answers_after}

module _ {K V : Type 0} (n : ℕ) (key_of : Key K) (t : Table K V) (k : K) where
  -- Slot `i` given up.
  abbrev buried : ℕ → Table K V
  buried i = record {
    slots = set t.slots i none;
    state = set t.state i tombstone;
    tombs = t.tombs + 1;
  }

  Removal : Option V → Table K V × Option V → Type 0
  Removal found r =
      ((found ≡ none) × (r ≡ (t, none)))
      ⊎ ((i : ℕ) × (old : V) × Holds t i k old × (found ≡ some old) × (r ≡ (buried i, some old)))

  module _ (left i : ℕ) where
    remove_miss :
        state_at t i ≡ live
        → matches key_of t i k ≡ none
        → remove_loop n key_of t k (suc left) i ≡ remove_loop n key_of t k left ((i + 1) % n)
    unfolding remove_loop
    remove_miss h m = ground arith

    remove_tomb :
        state_at t i ≡ tombstone
        → remove_loop n key_of t k (suc left) i ≡ remove_loop n key_of t k left ((i + 1) % n)
    unfolding remove_loop
    remove_tomb h = ground arith

    remove_never : state_at t i ≡ never_used → remove_loop n key_of t k (suc left) i ≡ (t, none)
    unfolding remove_loop
    remove_never h = ground arith

    remove_hit :
        (old : V)
        → state_at t i ≡ live
        → matches key_of t i k ≡ some old
        → remove_loop n key_of t k (suc left) i ≡ (buried i, some old)
    unfolding remove_loop
    remove_hit old h m = ground arith

  remove_loop_cases :
      (left i : ℕ) → Removal (get_loop n key_of t k left i) (remove_loop n key_of t k left i)
  unfolding Removal
  remove_loop_cases zero i = inl (unfold get_loop in refl, unfold remove_loop in refl)
  remove_loop_cases (suc left) i = elim (State-cases (state_at t i)) [
    | inl never ↦ inl (get_never n key_of t k left i never, remove_never left i never)
    | inr (inl alive) ↦ elim (Option-cases (matches key_of t i k)) [
      | inl miss ↦
          subst₂ Removal (sym (get_miss n key_of t k left i alive miss))
            (sym (remove_miss left i alive miss)) (remove_loop_cases left ((i + 1) % n))
      | inr (old, hit) ↦ inr (
        i,
        old,
        (alive, matches-some key_of t i k old hit),
        get_hit n key_of t k left i old alive hit,
        remove_hit left i old alive hit,
      )
    ]
    | inr (inr tomb) ↦
        subst₂ Removal (sym (get_tomb n key_of t k left i tomb)) (sym (remove_tomb left i tomb))
          (remove_loop_cases left ((i + 1) % n))
  ]

  remove-Removal : Removal (get n key_of t k) (remove n key_of t k)
  unfolding get remove
  remove-Removal = remove_loop_cases n (probe_start n key_of k)

module _ {K V : Type 0} (n : ℕ) (key_of : Key K) (t : Table K V) (k : K) where
  -- The value that was there is returned, and the key is gone; no other answer changes.
  abbrev pub Removed : Table K V × Option V → Type 0
  Removed r =
      (r.1 ≡ get n key_of t k)
      × Inv n key_of r.0
      × ((k' : K) → get n key_of r.0 k' ≡ (if key_of.eq k k' then none else get n key_of t k'))

module _ {K V : Type 0} (n : ℕ) (key_of : Key K) (t : Table K V) (inv : Inv n key_of t)
    (k : K) where
  module _ (i : ℕ) (old : V) (held : Holds t i k old) where
    below : i < n
    below = Holds-below n key_of t inv i k old held

    grave : get_or (set t.state i tombstone) i never_used ≡ tombstone
    grave = get_or-set_self t.state i tombstone never_used (omega (arith, below, inv.state_len))

    nothing_there : (k' : K) (w : V) → Holds (buried n key_of t k i) i k' w → ⊥
    nothing_there k' w h = cc (grave, h.0)

    buried-Change : Change n key_of t i (buried n key_of t k i)
    buried-Change = record {
      slots_len = length-set t.slots i none ∙ inv.slots_len;
      state_len = length-set t.state i tombstone ∙ inv.state_len;
      tombs_counted =
          ap (λ (m : ℕ). m + 1) inv.tombs_counted
          ∙ sym (count_tombs-set_tombstone t.state i (omega (arith, below, inv.state_len)) held.0);
      state_same = λ a ne. get_or-set_ne t.state i a tombstone never_used ne;
      slot_same = λ a ne. get_or-set_ne t.slots i a none none ne;
      used = λ e. cc (grave, e);
      filled_here = λ alive. cc (grave, alive);
      reach_here = λ k' v' h. absurd (nothing_there k' v' h);
      alone = λ k' v' w a ne h g. nothing_there k' v' h;
    }

    gone : Absent (buried n key_of t k i) k
    gone a w h = elim (ℕ_discrete i a) [
      | yes p ↦ nothing_there k w (subst (λ (x : ℕ). Holds (buried n key_of t k i) x k w) (sym p) h)
      | no p ↦ p (
          inv.unique i a k old w held
            (Holds-back n key_of t i inv (buried n key_of t k i) buried-Change a k w p h))
    ]

    only_k : (k' : K) (w : V) → Holds t i k' w → k ≡ k'
    only_k k' w h = cc (held.1, h.1)

    after : Inv n key_of (buried n key_of t k i)
    after =
        Inv-after n key_of t inv i (buried n key_of t k i) k buried-Change only_k
          (λ k' w h. absurd (nothing_there k' w h))

    Removed-at :
        get n key_of t k ≡ some old → Removed n key_of t k (buried n key_of t k i, some old)
    Removed-at e = (
      sym e,
      after,
      answers_after n key_of t inv i (buried n key_of t k i) k buried-Change only_k
          (λ k' w h. absurd (nothing_there k' w h)) none (get-Absent after k gone),
    )

  removed_none :
      get n key_of t k ≡ none
      → (k' : K) → get n key_of t k' ≡ (if key_of.eq k k' then none else get n key_of t k')
  removed_none e k' = elim (Bool-cases (key_of.eq k k')) [
    | inl same ↦ rw same (ap (get n key_of t) (sym ((key_of.eq_iff k k').0 same)) ∙ e)
    | inr other ↦ rw other refl
  ]

  Removed-of :
      (r : Table K V × Option V)
      → Removal n key_of t k (get n key_of t k) r
      → Removed n key_of t k r
  unfolding Removal
  Removed-of r (inl (e, eq)) = subst (Removed n key_of t k) (sym eq) (sym e, inv, removed_none e)
  Removed-of r (inr (i, old, held, e, eq)) =
      subst (Removed n key_of t k) (sym eq) (Removed-at i old held e)

  -- In a table that keeps its invariant, a removal returns what `get` found, forgets the key,
  -- keeps every other answer and keeps the invariant: the tombstone ends no other key's probe.
  pub remove_lem : Removed n key_of t k (remove n key_of t k)
  remove_lem = Removed-of (remove n key_of t k) (remove-Removal n key_of t k)
