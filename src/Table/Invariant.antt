-- ===== src/Table/Invariant.antt =====
-- What a table holds, and the invariant that makes its probes find it.
use roots.Prelude.{
  ℕ, zero, suc, ◌+◌, ◌<◌, ◌≡◌, ◌≢◌, refl, sym, Option, none, some, List, [], ◌∷◌, arith, length,
  replicate, get_or-replicate, length-replicate,
}
use roots.Table.{
  Key, Table, SlotState, never_used, live, tombstone, slot_at, state_at, new, count_used, occupied,
  len, value_if, matches,
}
use roots.Table.Probe.{pos}

module _ {K V : Type 0} where
  -- Slot `i` is live and holds the entry.
  abbrev pub Holds : Table K V → ℕ → K → V → Type 0
  Holds t i k v = (state_at t i ≡ live) × (slot_at t i ≡ some (k, v))

  abbrev pub Absent : Table K V → K → Type 0
  Absent t k = (i : ℕ) (v : V) → Holds t i k v → ⊥

unfoldable pub count_tombs : List SlotState → ℕ
count_tombs [] = 0
count_tombs (tombstone ∷ ss) = suc (count_tombs ss)
count_tombs (never_used ∷ ss) = count_tombs ss
count_tombs (live ∷ ss) = count_tombs ss

unfoldable pub count_live : List SlotState → ℕ
count_live [] = 0
count_live (live ∷ ss) = suc (count_live ss)
count_live (never_used ∷ ss) = count_live ss
count_live (tombstone ∷ ss) = count_live ss

count_tombs-replicate : (m : ℕ) → count_tombs (replicate m never_used) ≡ 0
unfolding count_tombs
count_tombs-replicate zero = refl
count_tombs-replicate (suc m) = count_tombs-replicate m

module _ (K V : Type 0) (n : ℕ) where
  never_at : (i : ℕ) → state_at (new {K = K} {V = V} n) i ≡ never_used
  unfolding new
  never_at i = get_or-replicate n i never_used

  never-live : (i : ℕ) → state_at (new {K = K} {V = V} n) i ≡ live → ⊥
  never-live i h = cc (never_at i)

  pub new-Absent : (k : K) → Absent (new {K = K} {V = V} n) k
  new-Absent k i v h = never-live i h.0

module _ {K V : Type 0} (n : ℕ) (key_of : Key K) where
  -- No slot before distance `d` on the probe of `k` ends a chain.
  abbrev pub Open : Table K V → K → ℕ → Type 0
  Open t k d = (e : ℕ) → e < d → state_at t (pos n key_of k e) ≢ never_used

  pub record Inv (t : Table K V) : Type 0 where
    pub slots_len : length t.slots ≡ n
    pub state_len : length t.state ≡ n
    pub tombs_counted : t.tombs ≡ count_tombs t.state
    -- A live slot holds an entry.
    pub filled : (i : ℕ) → state_at t i ≡ live → (k : K) × (v : V) × (slot_at t i ≡ some (k, v))
    -- An entry is on its key's probe, with no end of the chain before it.
    pub reach :
        (i : ℕ) (k : K) (v : V)
        → Holds t i k v
        → (d : ℕ) × (d < n) × (pos n key_of k d ≡ i) × Open t k d
    -- A key is held once.
    pub unique : (i j : ℕ) (k : K) (v w : V) → Holds t i k v → Holds t j k w → i ≡ j

  pub new-Inv : Inv (new n)
  new-Inv = record {
    slots_len = unfold new in length-replicate n none;
    state_len = unfold new in length-replicate n never_used;
    tombs_counted = unfold new in sym (count_tombs-replicate n);
    filled = λ i h. absurd (never-live K V n i h);
    reach = λ i k v h. absurd (never-live K V n i h.0);
    unique = λ i j k v w h g. absurd (never-live K V n i h.0);
  }

count_used-split : (ss : List SlotState) → count_used ss ≡ count_live ss + count_tombs ss
unfolding count_used count_live count_tombs
count_used-split [] = refl
count_used-split (never_used ∷ ss) = count_used-split ss
count_used-split (live ∷ ss) = omega (arith, count_used-split ss)
count_used-split (tombstone ∷ ss) = omega (arith, count_used-split ss)

module _ {K V : Type 0} {n : ℕ} {key_of : Key K} {t : Table K V} (inv : Inv n key_of t) where
  -- `len` counts the live slots.
  pub len-live : len t ≡ count_live t.state
  unfolding len occupied
  len-live = omega (arith, count_used-split t.state, inv.tombs_counted)

module _ {K V : Type 0} (key_of : Key K) where
  value_if-some :
      (k : K) (o : Option (K × V)) (v : V) → value_if key_of k o ≡ some v → o ≡ some (k, v)
  unfolding value_if
  value_if-some k none v e = cc
  value_if-some k (some (j, w)) v e = ground (arith, (key_of.eq_iff j k).0)

  -- What the test of one slot says.
  pub matches-some :
      (t : Table K V) (i : ℕ) (k : K) (v : V)
      → matches key_of t i k ≡ some v
      → slot_at t i ≡ some (k, v)
  unfolding matches
  matches-some t i k v e = value_if-some k (slot_at t i) v e

  pub matches_held :
      (t : Table K V) (i : ℕ) (k : K) (v : V)
      → slot_at t i ≡ some (k, v)
      → matches key_of t i k ≡ some v
  unfolding matches
  matches_held t i k v h = rw (h, (key_of.eq_iff k k).1 refl) refl
