-- ===== src/Bloom/Invariant.antt =====
-- The filters that a router keeps are of full width, whatever it is sent, and what it advertises
-- covers its own key and what it heard from the others.
use roots.Prelude.{
  ℕ, inl, inr, Bool, true, false, not, ◌&&◌, ◌||◌, Option, none, some, List, [], ◌∷◌, map, ◌==◌,
  if◌then◌else◌, Bool-cases, Option-cases, List-cases,
}
use roots.Prelude.Map.{Map, lookup, insert}
use roots.Prelude.Sets.{keep, sort}
use roots.Error.{Result-cases}
use roots.Table.{Key, for_each}
use roots.Table
use roots.Links.{LinkSet, Streams, links_to}
use roots.Tree.State.{Info}
use roots.Bloom.Filter.{BloomFilter, empty, add, encode, decode_exact}
use roots.Bloom.Membership.{IsFilter, add-IsFilter, merge-IsFilter}
use roots.Bloom.Wide.{
  AllWide, insert-AllWide, empty-IsFilter, or_default-AllWide, decode_exact-IsFilter,
}
use roots.Bloom.Routing.{
  BloomState, xkey, merge_known, merge_all, bloom_add_peer, fix_peer, fix_peers, bloom_fix,
  bloom_for, was_set, parent_is, bloom_handle, advertise, advertise_all, bloom_maintenance, is_sent,
  tree_keys,
}

pub record Wide (s : BloomState) : Type 0 where
  pub wide_send : AllWide s.send
  pub wide_recv : AllWide s.recv

pub merge_known-IsFilter :
    (b : BloomFilter) (o : Option BloomFilter) → IsFilter b → IsFilter (merge_known b o)
unfolding merge_known
merge_known-IsFilter b none h = h
merge_known-IsFilter b (some f) h = merge-IsFilter b f h

pub merge_all-IsFilter :
    (b : BloomFilter) (recv : Map BloomFilter) (ks : List ℕ)
    → IsFilter b
    → IsFilter (merge_all b recv ks)
unfolding merge_all
merge_all-IsFilter b recv [] h = h
merge_all-IsFilter b recv (k ∷ ks) h =
    merge_all-IsFilter (merge_known b (lookup k recv)) recv ks
      (merge_known-IsFilter b (lookup k recv) h)

module _ (key_of : Key ℕ) where
  pub bloom_for-IsFilter :
      (pubkey : ℕ) (s : BloomState) (peer : ℕ) → IsFilter (bloom_for key_of pubkey s peer)
  unfolding bloom_for
  bloom_for-IsFilter pubkey s peer =
      let others =
        sort
          (map (λ e. e.0) (keep (λ e. e.1 && not (e.0 == peer)) (for_each 64 key_of s.on_tree))) in
      let own = add empty (xkey pubkey) in
      merge_known-IsFilter (merge_all own s.recv others) (lookup peer s.send)
        (merge_all-IsFilter own s.recv others (add-IsFilter empty (xkey pubkey) empty-IsFilter))

  pub add_peer-Wide : (s : BloomState) (peer : ℕ) → Wide s → Wide (bloom_add_peer key_of s peer)
  unfolding bloom_add_peer
  add_peer-Wide s peer h = record {
    wide_send = or_default-AllWide peer s.send h.wide_send;
    wide_recv = or_default-AllWide peer s.recv h.wide_recv;
  }

  module _ (pubkey self_parent : ℕ) (infos : Map Info) where
    fix_peer-Wide :
        (s : BloomState) (pk : ℕ) → Wide s → Wide (fix_peer key_of pubkey self_parent infos s pk)
    unfolding fix_peer
    fix_peer-Wide s pk h =
        let on = self_parent == pk || parent_is pubkey (lookup pk infos) in
        let was = was_set (Table.insert 64 key_of s.on_tree pk on).1 in
        record {
          wide_send = blanked (was && not on) s.send pk h.wide_send;
          wide_recv = h.wide_recv;
        }
      where
        blanked :
            (b : Bool) (m : Map BloomFilter) (pk : ℕ)
            → AllWide m
            → AllWide (if b then insert pk empty m else m)
        blanked true m pk w = insert-AllWide pk empty m w empty-IsFilter
        blanked false m pk w = w

    fix_peers-Wide :
        (s : BloomState) (pks : List ℕ)
        → Wide s
        → Wide (fix_peers key_of pubkey self_parent infos s pks)
    unfolding fix_peers
    fix_peers-Wide s [] h = h
    fix_peers-Wide s (pk ∷ pks) h =
        fix_peers-Wide (fix_peer key_of pubkey self_parent infos s pk) pks (fix_peer-Wide s pk h)

  pub fix-Wide :
      (pubkey : ℕ) (infos : Map Info) (s : BloomState)
      → Wide s
      → Wide (bloom_fix key_of pubkey infos s)
  unfolding bloom_fix
  fix-Wide pubkey infos s h = elim (Option-cases (lookup pubkey infos)) [
    | inl e ↦ rw (bloom_fix, e) h
    | inr (i, e) ↦
        rw (bloom_fix, e)
          (fix_peers-Wide pubkey i.parent infos s (map (λ e. e.0) (for_each 64 key_of s.on_tree)) h)
  ]

  pub handle-Wide :
      (s : BloomState) (from : ℕ) (payload : List ℕ)
      → Wide s
      → Wide (bloom_handle key_of s from payload).0
  unfolding bloom_handle
  handle-Wide s from payload h = elim (Result-cases (decode_exact payload)) [
    | inr (x, e) ↦ rw (bloom_handle, e) h
    | inl (b, e) ↦ elim (Option-cases (lookup from s.recv)) [
      | inl miss ↦ rw (bloom_handle, e, miss) h
      | inr (old, hit) ↦
          rw (bloom_handle, e, hit)
            (record {
              wide_send = h.wide_send;
              wide_recv =
                  insert-AllWide from b s.recv h.wide_recv (decode_exact-IsFilter payload b e);
            })
    ]
  ]

module _ {S : Type 0} (key_of : Key ℕ) (io_of : Streams S) (now pubkey : ℕ) where
  abbrev advertised : BloomState → ℕ → BloomState
  advertised s pk = record s { send = insert pk (bloom_for key_of pubkey s pk) s.send }

  advertised-Wide : (s : BloomState) (pk : ℕ) → Wide s → Wide (advertised s pk)
  advertised-Wide s pk h = record {
    wide_send =
        insert-AllWide pk (bloom_for key_of pubkey s pk) s.send h.wide_send
          (bloom_for-IsFilter key_of pubkey s pk);
    wide_recv = h.wide_recv;
  }

  advertise-Wide :
      (s : BloomState) (links : LinkSet S) (pk : ℕ)
      → Wide s
      → Wide (advertise key_of io_of now pubkey s links pk).0
  unfolding advertise
  advertise-Wide s links pk h =
      let b = bloom_for key_of pubkey s pk in
      let new = advertised-Wide s pk h in
      elim (Bool-cases (is_sent (lookup pk s.send) b)) [
        | inl e ↦ rw (advertise, e) h
        | inr e ↦ elim (Result-cases (encode b)) [
          | inr (x, f) ↦ rw (advertise, e, f) new
          | inl (bytes, f) ↦ elim (List-cases (links_to links pk)) [
            | inl none_left ↦
                rw (advertise, e, f, none_left)
                  (record { wide_send = new.wide_send; wide_recv = h.wide_recv })
            | inr (id, ids, some_left) ↦ rw (advertise, e, f, some_left) new
          ]
        ]
      ]

  advertise_all-Wide :
      (s : BloomState) (links : LinkSet S) (pks : List ℕ)
      → Wide s
      → Wide (advertise_all key_of io_of now pubkey s links pks).0
  unfolding advertise_all
  advertise_all-Wide s links [] h = h
  advertise_all-Wide s links (pk ∷ pks) h =
      let step = advertise key_of io_of now pubkey s links pk in
      let next = advertise-Wide s links pk h in
      elim (Result-cases step.2) [
        | inl (u, e) ↦ rw (advertise_all, e) (advertise_all-Wide step.0 step.1 pks next)
        | inr (x, e) ↦ rw (advertise_all, e) next
      ]

  pub maintenance-Wide :
      (s : BloomState) (links : LinkSet S) (infos : Map Info)
      → Wide s
      → Wide (bloom_maintenance key_of io_of now pubkey infos s links).0
  unfolding bloom_maintenance
  maintenance-Wide s links infos h =
      let s' = bloom_fix key_of pubkey infos s in
      advertise_all-Wide s' links (tree_keys key_of s') (fix-Wide key_of pubkey infos s h)
