-- ===== src/Table/Outcome.antt =====
-- How the loop of `insert` ends: at the key, at a free place on its probe, or with a full table.
use native.Mathlib.Decide.{dec_lt}
use roots.Prelude.{
  ℕ, zero, suc, ◌+◌, ◌%◌, ◌<◌, ◌≡◌, ◌≢◌, inl, inr, refl, sym, ap, ◌∙◌, Option, none, some,
  Option-cases, arith, subst, set,
}
use roots.Table.{
  Key, Table, InsertResult, ok, table_full, never_used, live, tombstone, state_at, matches, place,
  place_full, get_or_insert, unwrap_or, insert_loop, insert,
}
use roots.Table.Probe.{pos, pos_start, pos_next, pos_onto}
use roots.Table.Invariant.{Holds, Absent, Open, Inv, matches-some, matches_held}
use roots.Table.Lookup.{State-cases}

below_next {ℓ} :
    (P : ℕ → Type ℓ) (d : ℕ) → ((e : ℕ) → e < d → P e) → P d → (e : ℕ) → e < d + 1 → P e
below_next P d old new e h = elim (dec_lt e d) [
  | yes p ↦ old e p
  | no p ↦ let same : d ≡ e = omega arith in subst P same new
]

module _ {K V : Type 0} (n : ℕ) (key_of : Key K) (t : Table K V) (k : K) (v : V) where
  pub data Outcome (r : Table K V × InsertResult V) : Type 0 where
    replaced :
        (i : ℕ) (old : V)
        → Holds t i k old
        → r ≡ (record t { slots = set t.slots i (some (k, v)) }, ok (some old))
        → Outcome r
    placed :
        (d : ℕ)
        → d < n
        → Open n key_of t k d
        → state_at t (pos n key_of k d) ≢ live
        → Absent t k
        → r ≡ place t k v (pos n key_of k d)
        → Outcome r
    full : Absent t k → ((i : ℕ) → i < n → state_at t i ≡ live) → r ≡ (t, table_full) → Outcome r

  Missed : ℕ → Type 0
  Missed d = (e : ℕ) → e < d → (w : V) → Holds t (pos n key_of k e) k w → ⊥

  FirstTomb : ℕ → Option ℕ → Type 0
  FirstTomb d none = (e : ℕ) → e < d → state_at t (pos n key_of k e) ≢ tombstone
  FirstTomb d (some j) = (e : ℕ) × (e < d) × (pos n key_of k e ≡ j) × (state_at t j ≡ tombstone)

  module _ (left i : ℕ) (ft : Option ℕ) where
    insert_never :
        state_at t i ≡ never_used
        → insert_loop n key_of t k v (suc left) i ft ≡ place t k v (unwrap_or ft i)
    unfolding insert_loop
    insert_never h = ground arith

    insert_hit :
        (old : V)
        → state_at t i ≡ live
        → matches key_of t i k ≡ some old
        → insert_loop n key_of t k v (suc left) i ft
          ≡ (record t { slots = set t.slots i (some (k, v)) }, ok (some old))
    unfolding insert_loop
    insert_hit old h m = ground arith

    insert_miss :
        state_at t i ≡ live
        → matches key_of t i k ≡ none
        → insert_loop n key_of t k v (suc left) i ft
          ≡ insert_loop n key_of t k v left ((i + 1) % n) ft
    unfolding insert_loop
    insert_miss h m = ground arith

    insert_tomb :
        state_at t i ≡ tombstone
        → insert_loop n key_of t k v (suc left) i ft
          ≡ insert_loop n key_of t k v left ((i + 1) % n) (get_or_insert ft i)
    unfolding insert_loop
    insert_tomb h = ground arith

  place_full-place : (j : ℕ) → state_at t j ≡ tombstone → place_full t k v (some j) ≡ place t k v j
  unfolding place_full place
  place_full-place j h = rw h refl

  module _ (inv : Inv n key_of t) where
    Absent-by :
        (d : ℕ)
        → ((i : ℕ) (w : V)
            → Holds t i k w
            → (e : ℕ) → e < n
            → Open n key_of t k e
            → pos n key_of k e ≡ i
            → e < d)
        → Missed d
        → Absent t k
    unfolding Missed
    Absent-by d early missed i w held =
        let (e, below, at_i, chain) = inv.reach i k w held in
        missed e (early i w held e below chain at_i) w
          (subst (λ (x : ℕ). Holds t x k w) (sym at_i) held)

    Absent-at_never : (d : ℕ) → state_at t (pos n key_of k d) ≡ never_used → Missed d → Absent t k
    Absent-at_never d never = Absent-by d λ i w held e below chain at_i.
        let other : ¬ (e ≡ d) = λ h. cc (never, held.0, at_i, h) in
        let behind : ¬ (d < e) = λ h. chain d h never in omega arith

    Absent-at_end : Missed n → Absent t k
    Absent-at_end = Absent-by n (λ i w held e below chain at_i. below)

    tomb_kept :
        (d : ℕ) (ft : Option ℕ)
        → state_at t (pos n key_of k d) ≢ tombstone
        → FirstTomb d ft
        → FirstTomb (d + 1) ft
    unfolding FirstTomb
    tomb_kept d none h old =
        below_next (λ (e : ℕ). state_at t (pos n key_of k e) ≢ tombstone) d old h
    tomb_kept d (some j) h (e, below, at_j, tomb) = (e, omega arith, at_j, tomb)

    tomb_added :
        (d : ℕ) (ft : Option ℕ)
        → state_at t (pos n key_of k d) ≡ tombstone
        → FirstTomb d ft
        → FirstTomb (d + 1) (get_or_insert ft (pos n key_of k d))
    unfolding FirstTomb get_or_insert
    tomb_added d none h old = (d, omega arith, refl, h)
    tomb_added d (some j) h (e, below, at_j, tomb) = (e, omega arith, at_j, tomb)

    -- A place on the probe that is free, before which no chain ends.
    placed_first :
        (d : ℕ) (ft : Option ℕ) (r : Table K V × InsertResult V)
        → d < n
        → state_at t (pos n key_of k d) ≡ never_used
        → Open n key_of t k d
        → Absent t k
        → FirstTomb d ft
        → r ≡ place t k v (unwrap_or ft (pos n key_of k d))
        → Outcome r
    unfolding FirstTomb unwrap_or
    placed_first d none r below never open_d away tombs eq =
        placed d below open_d (λ h. cc (never, h)) away eq
    placed_first d (some j) r below never open_d away (e, before, at_j, tomb) eq =
        placed e (omega arith) (λ x h. open_d x (omega arith)) (λ h. cc (at_j, tomb, h)) away
          (eq ∙ ap (place t k v) (sym at_j))

    walked_all :
        (d : ℕ) (ft : Option ℕ) (r : Table K V × InsertResult V)
        → d ≡ n
        → Open n key_of t k d
        → Missed d
        → FirstTomb d ft
        → r ≡ place_full t k v ft
        → Outcome r
    unfolding FirstTomb Missed
    walked_all d none r h open_d missed tombs eq =
        full (Absent-at_end (λ e below. missed e (omega arith))) all_live
          (eq ∙ unfold place_full in refl)
      where
        all_live : (i : ℕ) → i < n → state_at t i ≡ live
        all_live i below =
            let (e, before, at_i) = pos_onto n key_of k i below in
            elim (State-cases (state_at t i)) [
              | inl never ↦ absurd (open_d e (omega arith) (ap (state_at t) at_i ∙ never))
              | inr (inl alive) ↦ alive
              | inr (inr tomb) ↦ absurd (tombs e (omega arith) (ap (state_at t) at_i ∙ tomb))
            ]
    walked_all d (some j) r h open_d missed (e, before, at_j, tomb) eq =
        placed e (omega arith) (λ x lt. open_d x (omega arith)) (λ alive. cc (at_j, tomb, alive))
          (Absent-at_end (λ x below. missed x (omega arith)))
          (eq ∙ (place_full-place j tomb ∙ ap (place t k v) (sym at_j)))

    insert_loop-Outcome :
        (left d : ℕ) (ft : Option ℕ)
        → left + d ≡ n
        → Open n key_of t k d
        → Missed d
        → FirstTomb d ft
        → Outcome (insert_loop n key_of t k v left (pos n key_of k d) ft)
    insert_loop-Outcome zero d ft e open_d missed tombs =
        walked_all d ft (insert_loop n key_of t k v zero (pos n key_of k d) ft) (omega arith) open_d
          missed tombs (unfold insert_loop in refl)
    insert_loop-Outcome (suc left) d ft e open_d missed tombs = elim (State-cases (state_at t p)) [
      | inl never ↦
          placed_first d ft (insert_loop n key_of t k v (suc left) p ft) (omega arith) never open_d
            (Absent-at_never d never missed) tombs (insert_never left p ft never)
      | inr (inl alive) ↦ elim (Option-cases (matches key_of t p k)) [
        | inl miss ↦ subst Outcome (sym (insert_miss left p ft alive miss ∙ next ft)) (
            insert_loop-Outcome left (d + 1) ft (omega arith)
              (below_next (λ (x : ℕ). state_at t (pos n key_of k x) ≢ never_used) d open_d
                (λ h. cc (alive, h)))
              (passed (λ w held. cc (miss, matches_held key_of t p k w held.1)))
              (tomb_kept d ft (λ h. cc (alive, h)) tombs))
        | inr (old, hit) ↦
            replaced p old (alive, matches-some key_of t p k old hit)
              (insert_hit left p ft old alive hit)
      ]
      | inr (inr tomb) ↦
          subst Outcome (sym (insert_tomb left p ft tomb ∙ next (get_or_insert ft p))) (
            insert_loop-Outcome left (d + 1) (get_or_insert ft p) (omega arith)
              (below_next (λ (x : ℕ). state_at t (pos n key_of k x) ≢ never_used) d open_d
                (λ h. cc (tomb, h)))
              (passed (λ w held. cc (tomb, held.0))) (tomb_added d ft tomb tombs))
    ]
      where
        p : ℕ
        p = pos n key_of k d

        next :
            (f : Option ℕ)
            → insert_loop n key_of t k v left ((p + 1) % n) f
              ≡ insert_loop n key_of t k v left (pos n key_of k (d + 1)) f
        next f = ap (λ (x : ℕ). insert_loop n key_of t k v left x f) (pos_next n key_of k d)

        passed : ((w : V) → Holds t p k w → ⊥) → Missed (d + 1)
        passed new =
            unfold Missed in
            below_next (λ (x : ℕ). (w : V) → Holds t (pos n key_of k x) k w → ⊥) d missed new

    -- Every insertion ends in one of the three ways.
    pub insert-Outcome : Outcome (insert n key_of t k v)
    unfolding insert FirstTomb
    insert-Outcome =
        subst (λ (i : ℕ). Outcome (insert_loop n key_of t k v n i none)) (pos_start n key_of k)
          (insert_loop-Outcome n 0 none (omega arith) (λ e h. elim h [ ])
            (unfold Missed in λ e h. elim h [ ]) (λ e h. elim h [ ]))
