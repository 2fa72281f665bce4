-- ===== src/Table/Lookup.antt =====
-- `get` and `contains` against what the table holds.
use roots.Prelude.{
  ℕ, zero, suc, ◌+◌, ◌%◌, ◌≤◌, ◌<◌, ◌≡◌, ◌⊎◌, ◌↔◌, inl, inr, refl, sym, ap, ◌∙◌, Bool, true, false,
  Option, none, some, Option-cases, arith,
}
use roots.Table.{
  Key, Table, SlotState, never_used, live, tombstone, state_at, matches, get_loop, get,
  contains_loop, contains, probe_start,
}
use roots.Table.Probe.{pos, pos_start, pos_next}
use roots.Table.Invariant.{Holds, Absent, Open, Inv, matches-some, matches_held}

-- The three states of a slot, with the equation.
pub State-cases : (s : SlotState) → (s ≡ never_used) ⊎ (s ≡ live) ⊎ (s ≡ tombstone)
State-cases never_used = inl refl
State-cases live = inr (inl refl)
State-cases tombstone = inr (inr refl)

module _ {K V : Type 0} (n : ℕ) (key_of : Key K) (t : Table K V) (k : K) where
  module _ (left i : ℕ) where
    pub get_never : state_at t i ≡ never_used → get_loop n key_of t k (suc left) i ≡ none
    unfolding get_loop
    get_never h = ground arith

    pub get_hit :
        (v : V)
        → state_at t i ≡ live
        → matches key_of t i k ≡ some v
        → get_loop n key_of t k (suc left) i ≡ some v
    unfolding get_loop
    get_hit v h m = ground arith

    pub get_miss :
        state_at t i ≡ live
        → matches key_of t i k ≡ none
        → get_loop n key_of t k (suc left) i ≡ get_loop n key_of t k left ((i + 1) % n)
    unfolding get_loop
    get_miss h m = ground arith

    pub get_tomb :
        state_at t i ≡ tombstone
        → get_loop n key_of t k (suc left) i ≡ get_loop n key_of t k left ((i + 1) % n)
    unfolding get_loop
    get_tomb h = ground arith

  get_loop_sound :
      (left i : ℕ) (v : V) → get_loop n key_of t k left i ≡ some v → (j : ℕ) × Holds t j k v
  get_loop_sound zero i v e = let e' : none ≡ some v = unfold get_loop in e in cc e'
  get_loop_sound (suc left) i v e = elim (State-cases (state_at t i)) [
    | inl never ↦ cc (get_never left i never)
    | inr (inl alive) ↦ elim (Option-cases (matches key_of t i k)) [
      | inl miss ↦ get_loop_sound left ((i + 1) % n) v (sym (get_miss left i alive miss) ∙ e)
      | inr (w, hit) ↦
          (i, (alive, matches-some key_of t i k v (hit ∙ (sym (get_hit left i w alive hit) ∙ e))))
    ]
    | inr (inr tomb) ↦ get_loop_sound left ((i + 1) % n) v (sym (get_tomb left i tomb) ∙ e)
  ]

  module _ (inv : Inv n key_of t) (v : V) (i : ℕ) (held : Holds t i k v) (d : ℕ)
      (at_i : pos n key_of k d ≡ i) (chain : Open n key_of t k d) where
    entry_match : matches key_of t i k ≡ some v
    entry_match = matches_held key_of t i k v held.1

    entry_live : (e : ℕ) → e ≡ d → state_at t (pos n key_of k e) ≡ live
    entry_live e h =
        ap (λ (x : ℕ). state_at t (pos n key_of k x)) h ∙ (ap (state_at t) at_i ∙ held.0)

    entry_found : (e : ℕ) → e ≡ d → matches key_of t (pos n key_of k e) k ≡ some v
    entry_found e h =
        ap (λ (x : ℕ). matches key_of t (pos n key_of k x) k) h
        ∙ (ap (λ (x : ℕ). matches key_of t x k) at_i ∙ entry_match)

    same_value :
        (j : ℕ) (w : V) → state_at t j ≡ live → matches key_of t j k ≡ some w → some w ≡ some v
    same_value j w alive hit =
        sym hit
        ∙ (ap (λ (x : ℕ). matches key_of t x k)
              (inv.unique j i k w v (alive, matches-some key_of t j k w hit) held)
            ∙ entry_match)

    -- From any place before it the loop comes to the entry.
    get_loop_complete :
        (left e : ℕ) → e ≤ d → d < e + left → get_loop n key_of t k left (pos n key_of k e) ≡ some v
    get_loop_complete zero e before room = absurd (omega arith)
    get_loop_complete (suc left) e before room = elim (State-cases (state_at t p)) [
      | inl never ↦
          let off : ¬ (e ≡ d) = λ h. cc (never, entry_live e h) in
          absurd (chain e (omega arith) never)
      | inr (inl alive) ↦ elim (Option-cases (matches key_of t p k)) [
        | inl miss ↦
            let off : ¬ (e ≡ d) = λ h. cc (miss, entry_found e h) in
            get_miss left p alive miss
            ∙ (next ∙ get_loop_complete left (e + 1) (omega arith) (omega arith))
        | inr (w, hit) ↦ get_hit left p w alive hit ∙ same_value p w alive hit
      ]
      | inr (inr tomb) ↦
          let off : ¬ (e ≡ d) = λ h. cc (tomb, entry_live e h) in
          get_tomb left p tomb ∙ (next ∙ get_loop_complete left (e + 1) (omega arith) (omega arith))
    ]
      where
        p : ℕ
        p = pos n key_of k e

        next :
            get_loop n key_of t k left ((p + 1) % n)
            ≡ get_loop n key_of t k left (pos n key_of k (e + 1))
        next = ap (get_loop n key_of t k left) (pos_next n key_of k e)

module _ {K V : Type 0} {n : ℕ} {key_of : Key K} {t : Table K V} (inv : Inv n key_of t) where
  pub get_held : (i : ℕ) (k : K) (v : V) → Holds t i k v → get n key_of t k ≡ some v
  unfolding get
  get_held i k v held =
      let (d, below, at_i, chain) = inv.reach i k v held in
      ap (get_loop n key_of t k n) (sym (pos_start n key_of k))
      ∙ get_loop_complete n key_of t k inv v i held d at_i chain n 0 (omega arith) (omega arith)

  pub held_get : (k : K) (v : V) → get n key_of t k ≡ some v → (i : ℕ) × Holds t i k v
  unfolding get
  held_get k v e = get_loop_sound n key_of t k n (probe_start n key_of k) v e

  -- In a table that keeps its invariant, `get` answers a value exactly if a live slot holds it
  -- under the key.
  pub get_exact : (k : K) (v : V) → (get n key_of t k ≡ some v) ↔ ((i : ℕ) × Holds t i k v)
  get_exact k v = (held_get k v, λ h. get_held h.0 k v h.1)

  pub get-Absent : (k : K) → Absent t k → get n key_of t k ≡ none
  get-Absent k away = elim (Option-cases (get n key_of t k)) [
    | inl e ↦ e
    | inr (v, e) ↦ let (i, h) = held_get k v e in absurd (away i v h)
  ]

  pub Absent-get : (k : K) → get n key_of t k ≡ none → Absent t k
  Absent-get k e i v h = cc (e, get_held i k v h)

unfoldable pub is_some {ℓ} : {A : Type ℓ} → Option A → Bool
is_some none = false
is_some (some a) = true

module _ {K V : Type 0} (n : ℕ) (key_of : Key K) (t : Table K V) (k : K) where
  contains_loop-get_loop :
      (left i : ℕ) → contains_loop n key_of t k left i ≡ is_some (get_loop n key_of t k left i)
  unfolding contains_loop get_loop is_some
  contains_loop-get_loop zero i = refl
  contains_loop-get_loop (suc left) i = ground (arith, contains_loop-get_loop left ((i + 1) % n))

  -- `contains` is `get(key).is_some()`, in every state of the table.
  pub contains-get : contains n key_of t k ≡ is_some (get n key_of t k)
  unfolding contains get
  contains-get = contains_loop-get_loop n (probe_start n key_of k)
