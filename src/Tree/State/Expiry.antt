-- ===== src/Tree/State/Expiry.antt =====
-- What `expire` drops.
use roots.Prelude.{
  ℕ, ◌≡◌, ◌==◌, ◌||◌, refl, inl, inr, Bool-cases, true, false, none, List, [], ◌∷◌, arith,
  if◌then◌else◌,
}
use roots.Prelude.Map.{Map, lookup, insert, remove, keys, lookup-remove}
use roots.Prelude.Sets.{contains, distinct}
use roots.Wire.Signed.{Announce}
use roots.Tree.State.Adopt.{update_news, update_old}
use roots.Tree.State.{
  is_news, adopt, update, TreeState, overdue, expire_all, expire, reached, forget_sent,
}

lookup_fresh : {V : Type 0} (k : ℕ) (m : Map V) → contains k (keys m) ≡ false → lookup k m ≡ none
unfolding contains keys lookup
lookup_fresh k [] h = refl
lookup_fresh k ((j, v) ∷ m) h = ground (arith, lookup_fresh k m)

contains-keys-insert :
    {V : Type 0} (k j : ℕ) (v : V) (m : Map V)
    → contains k (keys (insert j v m)) ≡ (j == k || contains k (keys m))
unfolding contains keys insert
contains-keys-insert k j v [] = refl
contains-keys-insert k j v (e ∷ m) = grind (arith, contains-keys-insert k j v m)

distinct-keys-insert :
    {V : Type 0} (j : ℕ) (v : V) (m : Map V)
    → distinct (keys m) ≡ true
    → distinct (keys (insert j v m)) ≡ true
unfolding distinct keys insert contains
distinct-keys-insert j v [] h = refl
distinct-keys-insert j v (e ∷ m) h =
    grind (arith, distinct-keys-insert j v m, contains-keys-insert e.0 j v m)

-- `update` gives no key a second deadline.
pub update-distinct :
    (pubkey now : ℕ) (t : TreeState) (ann : Announce)
    → distinct (keys t.deadlines) ≡ true
    → distinct (keys (update pubkey now t ann).0.deadlines) ≡ true
update-distinct pubkey now t ann h = elim (Bool-cases (is_news ann (lookup ann.key t.infos))) [
  | inl news ↦
      rw (update_news pubkey now t ann news)
        (unfold adopt in distinct-keys-insert ann.key _ t.deadlines h)
  | inr old ↦ rw (update_old pubkey now t ann old) h
]

contains-overdue :
    (now k : ℕ) (m : Map ℕ)
    → distinct (keys m) ≡ true
    → contains k (overdue now m) ≡ reached now (lookup k m)
unfolding contains overdue keys lookup distinct reached
contains-overdue now k [] h = refl
contains-overdue now k ((j, d) ∷ m) h = grind (arith, contains-overdue now k m, lookup_fresh k m)

expire_all_infos :
    (dead : List ℕ) (t : TreeState) (k : ℕ)
    → (lookup k (expire_all dead t).infos ≡ (if contains k dead then none else lookup k t.infos))
      × (lookup k (expire_all dead t).deadlines
          ≡ (if contains k dead then none else lookup k t.deadlines))
unfolding expire_all contains
expire_all_infos [] t k = (refl, refl)
expire_all_infos (j ∷ dead) t k =
    let rest =
      expire_all_infos dead
        (record t {
          deadlines = remove j t.deadlines;
          infos = remove j t.infos;
          sent = forget_sent j t.sent;
        })
        k in
    (
      grind (arith, rest.0, lookup-remove j k t.infos),
      grind (arith, rest.1, lookup-remove j k t.deadlines),
    )

module _ (now : ℕ) (t : TreeState) where
  expire_tables :
      ((expire now t).infos ≡ (expire_all (overdue now t.deadlines) t).infos)
      × ((expire now t).deadlines ≡ (expire_all (overdue now t.deadlines) t).deadlines)
  unfolding expire
  expire_tables =
      elim (Bool-cases (reached now (expire_all (overdue now t.deadlines) t).self_refresh_at)) [
        | inl due ↦ (rw due refl, rw due refl)
        | inr early ↦ (rw early refl, rw early refl)
      ]

  -- If no key has two deadlines, `expire` forgets exactly the keys whose deadline has passed, both
  -- their info and their deadline, and what it keeps it keeps as it was.
  pub expire_exact :
      distinct (keys t.deadlines) ≡ true
      → (k : ℕ)
      → let late = reached now (lookup k t.deadlines) in
        (lookup k (expire now t).infos ≡ (if late then none else lookup k t.infos))
        × (lookup k (expire now t).deadlines ≡ (if late then none else lookup k t.deadlines))
  expire_exact h k =
      let (infos, deadlines) = expire_all_infos (overdue now t.deadlines) t k in
      let (i, d) = expire_tables in
      let late = contains-overdue now k t.deadlines h in
      (rw (i, ← late) infos, rw (d, ← late) deadlines)
