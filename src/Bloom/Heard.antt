-- ===== src/Bloom/Heard.antt =====
-- The filters that a router keeps of its peers are what the peers sent.
use roots.Prelude.{
  ℕ, ◌≡◌, ◌∙◌, ap, sym, refl, inl, inr, true, Option, none, some, List, [], ◌∷◌, map, ◌==◌, ==_iff,
  if◌then◌else◌, Bool-cases, Option-cases, List-cases,
}
use roots.Prelude.Map.{Map, lookup, lookup-insert}
use roots.Error.{Result, ok, err, Result-cases}
use roots.Table.{Key, for_each}
use roots.Links.{LinkSet, Streams, links_to}
use roots.Tree.State.{Info}
use roots.Bloom.Filter.{BloomFilter, empty, encode, decode_exact}
use roots.Bloom.Routing.{
  BloomState, or_default, bloom_add_peer, fix_peer, fix_peers, bloom_fix, bloom_for, bloom_handle,
  advertise, advertise_all, bloom_maintenance, is_sent, tree_keys,
}
use roots.Bloom.Coverage.{Runs, starts, adds, fixes, hears, maintains, no_blooms}

-- An added peer has the empty filter, if it had none.
unfoldable or_empty : Option BloomFilter → BloomFilter
or_empty none = empty
or_empty (some f) = f

-- What a payload makes of the filter of its sender: a well-formed one replaces it, if there is one.
unfoldable update : Result BloomFilter → Option BloomFilter → Option BloomFilter
update (ok b) (some old) = some b
update (err x) (some old) = some old
update r none = none

-- The filter of another key, or of this one.
at_key : (k peer : ℕ) (m : Map BloomFilter) → (peer == k) ≡ true → lookup k m ≡ lookup peer m
at_key k peer m e = ap (λ x. lookup x m) (sym ((==_iff peer k).0 e))

lookup-or_default :
    (k peer : ℕ) (m : Map BloomFilter)
    → lookup k (or_default peer m)
      ≡ (if peer == k then some (or_empty (lookup k m)) else lookup k m)
unfolding or_default or_empty
lookup-or_default k peer m = elim (Option-cases (lookup peer m)) [
  | inl miss ↦ elim (Bool-cases (peer == k)) [
    | inl e ↦ rw (or_default, miss, lookup-insert peer k empty m, at_key k peer m e, miss, e) refl
    | inr e ↦ rw (or_default, miss, lookup-insert peer k empty m, e) refl
  ]
  | inr (f, hit) ↦ elim (Bool-cases (peer == k)) [
    | inl e ↦ rw (or_default, hit, at_key k peer m e, hit, e) refl
    | inr e ↦ rw (or_default, hit, e) refl
  ]
]

lookup-heard :
    (key_of : Key ℕ) (s : BloomState) (k from : ℕ) (payload : List ℕ)
    → lookup k (bloom_handle key_of s from payload).0.recv
      ≡ (if from == k then update (decode_exact payload) (lookup k s.recv) else lookup k s.recv)
unfolding bloom_handle update
lookup-heard key_of s k from payload = elim (Option-cases (lookup from s.recv)) [
  | inl miss ↦ elim (Bool-cases (from == k)) [
    | inl e ↦ elim (Result-cases (decode_exact payload)) [
      | inl (b, f) ↦ rw (bloom_handle, f, miss, at_key k from s.recv e, miss, e) refl
      | inr (x, f) ↦ rw (bloom_handle, f, at_key k from s.recv e, miss, e) refl
    ]
    | inr e ↦ elim (Result-cases (decode_exact payload)) [
      | inl (b, f) ↦ rw (bloom_handle, f, miss, e) refl
      | inr (x, f) ↦ rw (bloom_handle, f, e) refl
    ]
  ]
  | inr (old, hit) ↦ elim (Bool-cases (from == k)) [
    | inl e ↦ elim (Result-cases (decode_exact payload)) [
      | inl (b, f) ↦
          rw (bloom_handle, f, hit, lookup-insert from k b s.recv, at_key k from s.recv e, hit, e)
            refl
      | inr (x, f) ↦ rw (bloom_handle, f, at_key k from s.recv e, hit, e) refl
    ]
    | inr e ↦ elim (Result-cases (decode_exact payload)) [
      | inl (b, f) ↦ rw (bloom_handle, f, hit, lookup-insert from k b s.recv, e) refl
      | inr (x, f) ↦ rw (bloom_handle, f, e) refl
    ]
  ]
]

module _ (key_of : Key ℕ) (pubkey : ℕ) where
  recv-fix_peers :
      (self_parent : ℕ) (infos : Map Info) (s : BloomState) (pks : List ℕ)
      → (fix_peers key_of pubkey self_parent infos s pks).recv ≡ s.recv
  unfolding fix_peers fix_peer
  recv-fix_peers self_parent infos s [] = refl
  recv-fix_peers self_parent infos s (pk ∷ pks) =
      recv-fix_peers self_parent infos (fix_peer key_of pubkey self_parent infos s pk) pks

  recv-bloom_fix :
      (infos : Map Info) (s : BloomState) → (bloom_fix key_of pubkey infos s).recv ≡ s.recv
  unfolding bloom_fix
  recv-bloom_fix infos s = elim (Option-cases (lookup pubkey infos)) [
    | inl e ↦ rw (bloom_fix, e) refl
    | inr (i, e) ↦
        rw (bloom_fix, e)
          (recv-fix_peers i.parent infos s (map (λ e. e.0) (for_each 64 key_of s.on_tree)))
  ]

module _ {S : Type 0} (key_of : Key ℕ) (io_of : Streams S) (now pubkey : ℕ) where
  recv-advertise :
      (s : BloomState) (links : LinkSet S) (pk : ℕ)
      → (advertise key_of io_of now pubkey s links pk).0.recv ≡ s.recv
  unfolding advertise
  recv-advertise s links pk =
      let b = bloom_for key_of pubkey s pk in
      elim (Bool-cases (is_sent (lookup pk s.send) b)) [
        | inl e ↦ rw (advertise, e) refl
        | inr e ↦ elim (Result-cases (encode b)) [
          | inr (x, f) ↦ rw (advertise, e, f) refl
          | inl (bytes, f) ↦ elim (List-cases (links_to links pk)) [
            | inl none_left ↦ rw (advertise, e, f, none_left) refl
            | inr (id, ids, some_left) ↦ rw (advertise, e, f, some_left) refl
          ]
        ]
      ]

  recv-advertise_all :
      (s : BloomState) (links : LinkSet S) (pks : List ℕ)
      → (advertise_all key_of io_of now pubkey s links pks).0.recv ≡ s.recv
  unfolding advertise_all
  recv-advertise_all s links [] = refl
  recv-advertise_all s links (pk ∷ pks) =
      let step = advertise key_of io_of now pubkey s links pk in
      let same = recv-advertise s links pk in
      elim (Result-cases step.2) [
        | inl (u, e) ↦ rw (advertise_all, e) (recv-advertise_all step.0 step.1 pks ∙ same)
        | inr (x, e) ↦ rw (advertise_all, e) same
      ]

  recv-bloom_maintenance :
      (infos : Map Info) (s : BloomState) (links : LinkSet S)
      → (bloom_maintenance key_of io_of now pubkey infos s links).0.recv ≡ s.recv
  unfolding bloom_maintenance
  recv-bloom_maintenance infos s links =
      let s' = bloom_fix key_of pubkey infos s in
      recv-advertise_all s' links (tree_keys key_of s') ∙ recv-bloom_fix key_of pubkey infos s

module _ {S : Type 0} (key_of : Key ℕ) (io_of : Streams S) (pubkey : ℕ) where
  -- What a peer's history says of its filter: none before the router is told of the peer, then the
  -- empty one, then the last well-formed one that the peer sent.
  unfoldable pub last_heard : ℕ → (s : BloomState) → Runs key_of io_of pubkey s → Option BloomFilter
  unfolding or_empty update
  last_heard k _ (starts t) = none
  last_heard k _ (adds s peer r) =
      let before = last_heard k s r in if peer == k then some (or_empty before) else before
  last_heard k _ (fixes s infos r) = last_heard k s r
  last_heard k _ (hears s from payload r) =
      let before = last_heard k s r in
      if from == k then update (decode_exact payload) before else before
  last_heard k _ (maintains s infos links now r) = last_heard k s r

  -- In every state that a router's filters reach, and for every key, the filter kept as received is
  -- the one of its history: none unless the router was told of the peer, else the last well-formed
  -- one that the peer sent since, and the empty one before that, whatever is sent under other keys,
  -- whatever malformed payloads come and whatever maintenance is run.
  pub lookup-last_heard :
      (k : ℕ) (s : BloomState) (r : Runs key_of io_of pubkey s) → lookup k s.recv ≡ last_heard k s r
  unfolding last_heard no_blooms lookup bloom_add_peer
  lookup-last_heard k _ (starts t) = refl
  lookup-last_heard k _ (adds s peer r) =
      lookup-or_default k peer s.recv
      ∙ ap (λ o. if peer == k then some (or_empty o) else o) (lookup-last_heard k s r)
  lookup-last_heard k _ (fixes s infos r) =
      ap (lookup k) (recv-bloom_fix key_of pubkey infos s) ∙ lookup-last_heard k s r
  lookup-last_heard k _ (hears s from payload r) =
      lookup-heard key_of s k from payload
      ∙ ap (λ o. if from == k then update (decode_exact payload) o else o) (lookup-last_heard k s r)
  lookup-last_heard k _ (maintains s infos links now r) =
      ap (lookup k) (recv-bloom_maintenance key_of io_of now pubkey infos s links)
      ∙ lookup-last_heard k s r
