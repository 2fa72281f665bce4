-- ===== src/Links/Peers.antt =====
-- The keys of the live links: `peers`, `has_peer` and `links_to` agree.
use roots.Prelude.{ℕ, ◌≡◌, refl, inl, inr, true, ◌||◌, List, [], ◌∷◌, ◌++◌, arith, ◌==◌, Bool-cases}
use roots.Prelude.Sets.{contains, contains-append, distinct, distinct-append_one}
use roots.Links.{LinkEntry, LinkSet, peers_loop, any_to, peers, has_peer}

module _ {S : Type 0} where
  contains-peers_loop :
      (p : ℕ) (out : List ℕ) (es : List (LinkEntry S))
      → contains p (peers_loop out es) ≡ (contains p out || any_to p es)
  unfolding peers_loop any_to contains
  contains-peers_loop p out [] = ground arith
  contains-peers_loop p out (e ∷ es) = ground (
    arith,
    contains-append p out (e.peer ∷ []),
    contains_at,
    contains-peers_loop p out es,
    contains-peers_loop p (out ++ e.peer ∷ []) es,
  )
    where
      contains_at : contains e.peer out ≡ true → (e.peer == p) ≡ true → contains p out ≡ true
      contains_at h k = grind arith

  distinct-peers_loop :
      (out : List ℕ) (es : List (LinkEntry S))
      → distinct out ≡ true
      → distinct (peers_loop out es) ≡ true
  unfolding peers_loop
  distinct-peers_loop out [] h = h
  distinct-peers_loop out (e ∷ es) h = elim (Bool-cases (contains e.peer out)) [
    | inl there ↦ rw there (distinct-peers_loop out es h)
    | inr new ↦
        rw new (distinct-peers_loop (out ++ e.peer ∷ []) es (distinct-append_one out e.peer h new))
  ]

  -- `peers` lists each key that has a live link, and each once.
  pub peers_exact :
      (s : LinkSet S)
      → (distinct (peers s) ≡ true) × ((p : ℕ) → contains p (peers s) ≡ has_peer s p)
  unfolding peers has_peer
  peers_exact s = (
    distinct-peers_loop [] s.entries (unfold distinct in refl),
    λ p. unfold contains in contains-peers_loop p [] s.entries,
  )
