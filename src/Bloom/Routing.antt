-- ===== src/Bloom/Routing.antt =====
-- src/bloom.rs: `BloomState`, the filters a router keeps of its peers, and the multicast over them.
-- Keys are numbers of 256 bits; `key_of` is how the fixed-capacity table hashes them. The router's
-- `dropped_no_link` is in the state here, and the links are passed through.
use roots.Prelude.{
  ℕ, Bool, true, false, not, ◌&&◌, Option, none, some, List, [], ◌∷◌, map, ◌==◌, ltb, ◌||◌,
  if◌then◌else◌,
}
use roots.Prelude.Map.{Map, lookup, insert}
use roots.Prelude.Sets.{keep, sort}
use roots.Prelude.Bytes.{be_bytes}
use roots.Prelude.Words.{add64}
use roots.Error.{Result, ok, err, ◌>>=◌}
use roots.Address.{subnet_for_key, key_for_subnet}
use roots.Table.{Table, Key, InsertResult, ok, table_full, get, for_each}
use roots.Table
use roots.Wire.Frame.{FrameType, bloom_filter}
use roots.Links.{LinkSet, Streams, links_to, write_peer, write_via, peer_of}
use roots.Tree.State.{Info, LinkState}
use roots.Bloom.Filter.{BloomFilter, empty, add, test, merge, encode, decode_exact}

pub record BloomState : Type 0 where
  pub send : Map BloomFilter
  pub recv : Map BloomFilter
  pub on_tree : Table ℕ Bool
  pub dropped_no_link : ℕ

-- `entry(key).or_default()`
unfoldable pub or_default : ℕ → Map BloomFilter → Map BloomFilter
or_default key m = elim (lookup key m) [ none ↦ insert key empty m | some f ↦ m ]

-- The bytes that stand for a key in the filters.
unfoldable pub xkey : ℕ → List ℕ
unfolding subnet_for_key key_for_subnet
xkey key = key_for_subnet (subnet_for_key (be_bytes 32 key))

-- `self.words == other.words`
unfoldable pub words_eq : List ℕ → List ℕ → Bool
words_eq [] [] = true
words_eq (a ∷ left) (b ∷ right) = a == b && words_eq left right
words_eq _ _ = false

-- `self.bloom.send.get(&pk) != Some(&b)`
unfoldable pub is_sent : Option BloomFilter → BloomFilter → Bool
unfolding words_eq
is_sent none b = false
is_sent (some f) b = words_eq f.words b.words

-- `.ok().flatten().unwrap_or(false)`
unfoldable pub was_set : InsertResult Bool → Bool
was_set (ok (some b)) = b
was_set _ = false

unfoldable pub parent_is : ℕ → Option Info → Bool
parent_is key none = false
parent_is key (some i) = i.parent == key

-- `if let Some(f) = map.get(&k) { b.merge(f); }`
unfoldable pub merge_known : BloomFilter → Option BloomFilter → BloomFilter
unfolding merge
merge_known b none = b
merge_known b (some f) = merge b f

unfoldable pub merge_all : BloomFilter → Map BloomFilter → List ℕ → BloomFilter
unfolding merge_known
merge_all b recv [] = b
merge_all b recv (k ∷ ks) = merge_all (merge_known b (lookup k recv)) recv ks

module _ (key_of : Key ℕ) where
  abbrev pub capacity : ℕ
  capacity = 64

  unfoldable pub bloom_add_peer : BloomState → ℕ → BloomState
  unfolding or_default
  bloom_add_peer s peer = record s {
    send = or_default peer s.send;
    recv = or_default peer s.recv;
    on_tree = elim (get capacity key_of s.on_tree peer) [
      | none ↦ (Table.insert capacity key_of s.on_tree peer false).0
      | some b ↦ s.on_tree
    ];
  }

  -- One round of the loop of `bloom_fix`.
  unfoldable pub fix_peer : ℕ → ℕ → Map Info → BloomState → ℕ → BloomState
  unfolding parent_is was_set
  fix_peer pubkey self_parent infos s pk =
      let on = self_parent == pk || parent_is pubkey (lookup pk infos) in
      let step = Table.insert capacity key_of s.on_tree pk on in
      record s {
        on_tree = step.0;
        send = if was_set step.1 && not on then insert pk empty s.send else s.send;
      }

  unfoldable pub fix_peers : ℕ → ℕ → Map Info → BloomState → List ℕ → BloomState
  unfolding fix_peer
  fix_peers pubkey self_parent infos s [] = s
  fix_peers pubkey self_parent infos s (pk ∷ pks) =
      fix_peers pubkey self_parent infos (fix_peer pubkey self_parent infos s pk) pks

  unfoldable pub bloom_fix : ℕ → Map Info → BloomState → BloomState
  unfolding fix_peers
  bloom_fix pubkey infos s = elim (lookup pubkey infos) [
    | none ↦ s
    | some i ↦
        fix_peers pubkey i.parent infos s (map (λ e. e.0) (for_each capacity key_of s.on_tree))
  ]

  -- The keys whose flag is set.
  unfoldable pub tree_keys : BloomState → List ℕ
  tree_keys s = map (λ e. e.0) (keep (λ e. e.1) (for_each capacity key_of s.on_tree))

  unfoldable pub bloom_for : ℕ → BloomState → ℕ → BloomFilter
  unfolding merge_all merge_known
  bloom_for pubkey s peer =
      let b = add empty (xkey pubkey) in
      let others = sort (
        map (λ e. e.0)
          (keep (λ e. e.1 && not (e.0 == peer)) (for_each capacity key_of s.on_tree))) in
      merge_known (merge_all b s.recv others) (lookup peer s.send)

  unfoldable pub bloom_handle : BloomState → ℕ → List ℕ → BloomState × Result (Unit {0})
  bloom_handle s from payload = elim (decode_exact payload) [
    | err x ↦ (s, err x)
    | ok b ↦ (
      elim (lookup from s.recv) [ none ↦ s | some old ↦ record s { recv = insert from b s.recv } ],
      ok tt,
    )
  ]

-- `(l.prio, l.order)` of the first link is above that of the second.
unfoldable pub worse : LinkState → LinkState → Bool
worse a b = ltb b.prio a.prio || (a.prio == b.prio && ltb b.order a.order)

-- `min_by_key`: the first among the least. A link without a state is the panic of the index, `none`.
unfoldable pub best_from : Map LinkState → ℕ → LinkState → List ℕ → Option ℕ
unfolding worse
best_from states best at [] = some best
best_from states best at (id ∷ ids) = elim (lookup id states) [
  | none ↦ none
  | some l ↦ best_from states (if worse at l then id else best) (if worse at l then l else at) ids
]

module _ {S : Type 0} where
  -- `some none`: the key has no link.
  unfoldable pub best_link : LinkSet S → Map LinkState → ℕ → Option (Option ℕ)
  unfolding best_from
  best_link links states key = elim (links_to links key) [
    | [] ↦ some none
    | id ∷ ids ↦ elim (lookup id states) [
      | none ↦ none
      | some l ↦ elim (best_from states id l ids) [ none ↦ none | some best ↦ some (some best) ]
    ]
  ]

module _ {S : Type 0} (key_of : Key ℕ) (io_of : Streams S) (now : ℕ) where
  -- Where the loop of a function that writes stands.
  abbrev pub Step : Type 0
  Step = BloomState × LinkSet S × Result (Unit {0})

  -- `Router::write_via`
  unfoldable pub write_via_link : BloomState → LinkSet S → ℕ → FrameType → List ℕ → Step
  write_via_link s links next ftype buf = elim (peer_of links next) [
    | none ↦ (record s { dropped_no_link = add64 s.dropped_no_link 1 }, links, ok tt)
    | some p ↦
        let step = write_via io_of links now next ftype buf in (s, step.0, step.1 >>= λ took. ok tt)
  ]

  -- The filter of one peer, sent where it differs from the last; an error of the encoding is a panic.
  unfoldable pub advertise : ℕ → BloomState → LinkSet S → ℕ → Step
  unfolding is_sent
  advertise pubkey s links pk =
      let b = bloom_for key_of pubkey s pk in
      let s' = record s { send = insert pk b s.send } in
      if is_sent (lookup pk s.send) b then (s, links, ok tt) else elim (encode b) [
        | err x ↦ (s', links, err x)
        | ok bytes ↦ elim (links_to links pk) [
          | [] ↦ (record s' { dropped_no_link = add64 s'.dropped_no_link 1 }, links, ok tt)
          | id ∷ ids ↦
              let step = write_peer io_of links now pk bloom_filter bytes in (s', step.0, step.1)
        ]
      ]

  unfoldable pub advertise_all : ℕ → BloomState → LinkSet S → List ℕ → Step
  unfolding advertise
  advertise_all pubkey s links [] = (s, links, ok tt)
  advertise_all pubkey s links (pk ∷ pks) =
      let step = advertise pubkey s links pk in
      elim step.2 [
        | ok u ↦ advertise_all pubkey step.0 step.1 pks
        | err x ↦ (step.0, step.1, err x)
      ]

  unfoldable pub bloom_maintenance : ℕ → Map Info → BloomState → LinkSet S → Step
  unfolding advertise_all
  bloom_maintenance pubkey infos s links =
      let s' = bloom_fix key_of pubkey infos s in
      advertise_all pubkey s' links (tree_keys key_of s')

  -- `self.bloom.recv.get(&k).map(|r| r.test(&x)).unwrap_or(false)`
  unfoldable pub interested : Option BloomFilter → List ℕ → Bool
  interested none x = false
  interested (some r) x = test r x

  unfoldable pub forward_all :
      Map LinkState
      → ℕ
      → List ℕ
      → FrameType
      → List ℕ
      → BloomState
      → LinkSet S
      → List ℕ
      → Option Step
  unfolding interested write_via_link
  forward_all states from_key x ftype payload s links [] = some (s, links, ok tt)
  forward_all states from_key x ftype payload s links (k ∷ ks) =
      let skip = forward_all states from_key x ftype payload s links ks in
      if k == from_key || not (interested (lookup k s.recv) x)
      then skip
      else elim (best_link links states k) [
        | none ↦ none
        | some none ↦ skip
        | some (some id) ↦
            let step = write_via_link s links id ftype payload in
            elim step.2 [
              | ok u ↦ forward_all states from_key x ftype payload step.0 step.1 ks
              | err e ↦ some (step.0, step.1, err e)
            ]
      ]

  -- `none` is the panic of `best_link`.
  unfoldable pub multicast :
      Map LinkState → ℕ → ℕ → FrameType → List ℕ → BloomState → LinkSet S → Option Step
  unfolding forward_all
  multicast states from_key to_key ftype payload s links =
      forward_all states from_key (xkey to_key) ftype payload s links (sort (tree_keys key_of s))
