-- ===== src/Tree/Walks/Rounds.antt =====
-- The walks end: more fuel than they are given changes nothing.
use roots.Prelude.{
  ℕ, zero, suc, ◌+◌, ◌<◌, ◌≡◌, ◌⊎◌, inl, inr, refl, sym, ap, ◌∙◌, true, false, none, some, List, [],
  ◌∷◌, ◌++◌, arith, ◌==◌, ◌||◌, Bool-cases, Option-cases, length, reverse,
}
use roots.Prelude.Map.{Map, lookup, insert, keys, lookup-insert}
use roots.Prelude.Sets.{contains, contains-append, unseen, unseen-length, unseen-lt}
use roots.Tree.State.{Info}
use roots.Tree.Walks.{has_key, root_loop, root_and_dists, ancestry_loop, ancestry, drop_last}

pub contains-keys :
    {V : Type 0} (k : ℕ) (m : Map V) (v : V) → lookup k m ≡ some v → contains k (keys m) ≡ true
unfolding contains keys lookup
contains-keys k [] v h = cc
contains-keys k ((j, w) ∷ m) v h = ground (arith, contains-keys k m v)

has_key-insert :
    {V : Type 0} (k j : ℕ) (v : V) (m : Map V) → has_key k (insert j v m) ≡ (j == k || has_key k m)
unfolding has_key
has_key-insert k j v m =
    rw (has_key, lookup-insert j k v m)
      (elim (Bool-cases (j == k)) [ inl same ↦ rw same refl | inr other ↦ rw other refl ])

module _ (infos : Map Info) where
  module _ (fuel next root dist : ℕ) (dists : Map ℕ) where
    pub root_round_seen :
        has_key next dists ≡ true → root_loop infos (suc fuel) next root dist dists ≡ (root, dists)
    unfolding root_loop
    root_round_seen seen = rw (root_loop, seen) refl

    pub root_round_end :
        lookup next infos ≡ none → root_loop infos (suc fuel) next root dist dists ≡ (root, dists)
    unfolding root_loop
    root_round_end end = elim (Bool-cases (has_key next dists)) [
      | inl seen ↦ rw (root_loop, seen) refl
      | inr new ↦ rw (root_loop, new, end) refl
    ]

    pub root_round_on :
        (info : Info)
        → has_key next dists ≡ false
        → lookup next infos ≡ some info
        → root_loop infos (suc fuel) next root dist dists
          ≡ root_loop infos fuel info.parent next (dist + 1) (insert next dist dists)
    unfolding root_loop
    root_round_on info new found = rw (root_loop, new, found) refl

  -- Each round that goes on has one key less to see.
  pub root_round_less :
      (next dist : ℕ) (dists : Map ℕ) (info : Info)
      → has_key next dists ≡ false
      → lookup next infos ≡ some info
      → unseen (λ k. has_key k (insert next dist dists)) (keys infos)
        < unseen (λ k. has_key k dists) (keys infos)
  root_round_less next dist dists info new found =
      unseen-lt (λ k. has_key k dists) (λ k. has_key k (insert next dist dists)) next (keys infos)
        (λ k there. has_key-insert k next dist dists ∙ ground (arith, there)) new
        (has_key-insert next next dist dists ∙ ground arith) (contains-keys next infos info found)

  root_loop_enough :
      (fuel more next root dist : ℕ) (dists : Map ℕ)
      → unseen (λ k. has_key k dists) (keys infos) < fuel
      → root_loop infos (fuel + more) next root dist dists
        ≡ root_loop infos fuel next root dist dists
  root_loop_enough zero more next root dist dists h = absurd (omega arith)
  root_loop_enough (suc fuel) more next root dist dists h =
      let e : suc fuel + more ≡ suc (fuel + more) = omega arith in
      rw e (elim (Bool-cases (has_key next dists)) [
        | inl seen ↦
            root_round_seen (fuel + more) next root dist dists seen
            ∙ sym (root_round_seen fuel next root dist dists seen)
        | inr new ↦ elim (Option-cases (lookup next infos)) [
          | inl end ↦
              root_round_end (fuel + more) next root dist dists end
              ∙ sym (root_round_end fuel next root dist dists end)
          | inr (info, found) ↦
              root_round_on (fuel + more) next root dist dists info new found
              ∙ root_loop_enough fuel more info.parent next (dist + 1) (insert next dist dists)
                  (omega (arith, root_round_less next dist dists info new found))
              ∙ sym (root_round_on fuel next root dist dists info new found)
        ]
      ])

  -- `root_and_dists` ends by itself: one round more than there are known keys gives the same as
  -- any greater number.
  pub root_and_dists_enough :
      (more dest : ℕ)
      → root_loop infos (length (keys infos) + 1 + more) dest dest 0 [] ≡ root_and_dists infos dest
  unfolding root_and_dists
  root_and_dists_enough more dest =
      root_loop_enough (length (keys infos) + 1) more dest dest 0 []
        (omega (arith, unseen-length (λ k. has_key {V = ℕ} k []) (keys infos)))

  module _ (fuel here : ℕ) (anc : List ℕ) where
    ancestry_round_end :
        lookup here infos ≡ none → ancestry_loop infos (suc fuel) here anc ≡ drop_last anc
    unfolding ancestry_loop
    ancestry_round_end end = rw (ancestry_loop, end) refl

    ancestry_round_seen :
        (info : Info)
        → lookup here infos ≡ some info
        → contains info.parent anc ≡ true
        → ancestry_loop infos (suc fuel) here anc ≡ anc
    unfolding ancestry_loop
    ancestry_round_seen info found seen = rw (ancestry_loop, found, seen) refl

    ancestry_round_on :
        (info : Info)
        → lookup here infos ≡ some info
        → contains info.parent anc ≡ false
        → ancestry_loop infos (suc fuel) here anc
          ≡ ancestry_loop infos fuel info.parent (anc ++ info.parent ∷ [])
    unfolding ancestry_loop
    ancestry_round_on info found new = rw (ancestry_loop, found, new) refl

  ancestry_round_less :
      (parent : ℕ) (anc : List ℕ) (info : Info)
      → contains parent anc ≡ false
      → lookup parent infos ≡ some info
      → unseen (λ k. contains k (anc ++ parent ∷ [])) (keys infos)
        < unseen (λ k. contains k anc) (keys infos)
  ancestry_round_less parent anc info new found =
      unseen-lt (λ k. contains k anc) (λ k. contains k (anc ++ parent ∷ [])) parent (keys infos)
        (λ k there. contains-append k anc (parent ∷ []) ∙ rw there refl) new
        (contains-append parent anc (parent ∷ []) ∙ unfold contains in ground arith)
        (contains-keys parent infos info found)

  ancestry_loop_enough :
      (fuel more here : ℕ) (anc : List ℕ)
      → (lookup here infos ≡ none) ⊎ (unseen (λ k. contains k anc) (keys infos) + 1 < fuel)
      → 0 < fuel
      → ancestry_loop infos (fuel + more) here anc ≡ ancestry_loop infos fuel here anc
  ancestry_loop_enough zero more here anc h k = absurd (omega arith)
  ancestry_loop_enough (suc fuel) more here anc h k =
      let e : suc fuel + more ≡ suc (fuel + more) = omega arith in
      rw e (elim (Option-cases (lookup here infos)) [
        | inl end ↦
            ancestry_round_end (fuel + more) here anc end
            ∙ sym (ancestry_round_end fuel here anc end)
        | inr (info, found) ↦
            let left : unseen (λ k. contains k anc) (keys infos) + 1 < suc fuel = elim h [
              | inl gone ↦ cc (gone, found)
              | inr less ↦ less
            ] in
            elim (Bool-cases (contains info.parent anc)) [
              | inl seen ↦
                  ancestry_round_seen (fuel + more) here anc info found seen
                  ∙ sym (ancestry_round_seen fuel here anc info found seen)
              | inr new ↦
                  let next : (lookup info.parent infos ≡ none)
                      ⊎ (unseen (λ k. contains k (anc ++ info.parent ∷ [])) (keys infos) + 1
                          < fuel) =
                    elim (Option-cases (lookup info.parent infos)) [
                      | inl gone ↦ inl gone
                      | inr (i, there) ↦
                          inr (omega (arith, left, ancestry_round_less info.parent anc i new there))
                    ] in
                  ancestry_round_on (fuel + more) here anc info found new
                  ∙ ancestry_loop_enough fuel more info.parent (anc ++ info.parent ∷ []) next
                      (omega (arith, left))
                  ∙ sym (ancestry_round_on fuel here anc info found new)
            ]
      ])

  -- `ancestry` ends by itself: two rounds more than there are known keys give the same as any
  -- greater number.
  pub ancestry_enough :
      (more key : ℕ)
      → reverse (ancestry_loop infos (length (keys infos) + 2 + more) key (key ∷ []))
        ≡ ancestry infos key
  unfolding ancestry
  ancestry_enough more key = ap reverse (
      ancestry_loop_enough (length (keys infos) + 2) more key (key ∷ [])
        (inr (omega (arith, unseen-length (λ k. contains k (key ∷ [])) (keys infos))))
        (omega arith))
