-- ===== src/Tree/Messages.antt =====
-- The requests and responses of the tree: `new_req`, `send_req`, `handle_request`, `handle_response`,
-- `use_response`, `become_root`, `send_all_reqs`, `send_announces`.
pub mod Exchange
use roots.Prelude.{
  ℕ, ◌+◌, ◌-◌, ◌*◌, ◌/◌, ◌≡◌, Bool, true, false, not, ◌&&◌, Option, none, some, List, [], ◌∷◌, ◌++◌,
  ◌==◌, min, if◌then◌else◌,
}
use roots.Prelude.Map.{Map, lookup, insert, keys}
use roots.Prelude.Sets.{contains, set_insert, sort}
use roots.Prelude.Words.{add64}
use roots.Error.{Error, Result, ok, err}
use roots.Crypto.{Ed25519}
use roots.Wire.Frame.{FrameType, sig_req, sig_res, announce}
use roots.Wire.Signed.{
  SigReq, SigRes, Announce, encode_req, encode_res, encode_announce, seal, check_res,
  check_announce, res_bytes_for_sig,
}
use roots.Links.{Streams, LinkSet, links_to, has_peer, peers, write, write_peer}
use roots.Tree.State.{
  PeerState, LinkState, Info, TreeState, info_announce, update, tree_refresh, req_eq,
}
use roots.Tree.Walks.{ancestry}

-- `UNKNOWN_LATENCY` of src/router.rs
abbrev pub unknown_latency : ℕ
unknown_latency = 4294967295

next_seq : Option Info → ℕ
next_seq none = 1
next_seq (some i) = add64 i.res.req.seq 1

-- `nonce` is what `rand::random()` gives.
unfoldable pub new_req : ℕ → TreeState → ℕ → SigReq
unfolding next_seq
new_req pubkey t nonce = record { seq = next_seq (lookup pubkey t.infos); nonce = nonce }

-- `if let Some(l) = map.get_mut(&k) { .. }`
unfoldable pub modify : {V : Type 0} → ℕ → (V → V) → Map V → Map V
modify k f m = elim (lookup k m) [ none ↦ m | some v ↦ insert k (f v) m ]

-- `for id in &targets { if let Some(l) = map.get_mut(id) { .. } }`
unfoldable pub modify_all : {V : Type 0} → List ℕ → (V → V) → Map V → Map V
unfolding modify
modify_all [] f m = m
modify_all (k ∷ ks) f m = modify_all ks f (modify k f m)

stamp : Result (Unit {0}) → List ℕ → ℕ → TreeState → TreeState
stamp (ok u) targets now t = record t {
  links = modify_all targets (λ l. record l { sent_at = some now }) t.links;
}
stamp (err x) targets now t = t

or_insert : {V : Type 0} → ℕ → V → Map V → Map V
or_insert k v m = elim (lookup k m) [ none ↦ insert k v m | some old ↦ m ]

-- The port of a peer, 0 for a key that is none.
port_of : Option PeerState → ℕ
port_of none = 0
port_of (some p) = p.port

-- `p.req == res.req` for the open request
answers : Option PeerState → SigRes → Bool
answers none res = false
answers (some p) res = req_eq p.open_req res.req

-- The eased lag after a round trip.
unfoldable pub ease : ℕ → ℕ → ℕ
ease lag rtt = if lag == unknown_latency then rtt * 2 else lag * 7 / 8 + min rtt (lag * 2) / 8

-- `if let (Some(l), Some(rtt)) = (link, rtt) && !l.responded { .. }`
answered : Option ℕ → LinkState → LinkState
unfolding ease
answered none l = l
answered (some rtt) l =
    if not l.responded then record l { responded = true; lag = ease l.lag rtt } else l

-- The time since the request went out, if the link has one.
round_trip : ℕ → Option LinkState → Option ℕ
round_trip now none = none
round_trip now (some l) = elim l.sent_at [ none ↦ none | some at ↦ some (now - at) ]

module _ (c : Ed25519) (seed : ℕ) where
  open c use {public_key, sign}

  -- What `handle_request` sends back.
  unfoldable pub response_to : TreeState → ℕ → SigReq → SigRes
  unfolding port_of
  response_to t peer req = seal c req (port_of (lookup peer t.peers)) peer seed (public_key seed)

  unfoldable pub handle_response : TreeState → ℕ → ℕ → ℕ → SigRes → TreeState
  unfolding answers or_insert answered round_trip modify
  handle_response t now conn peer res =
      if not (check_res c res (public_key seed) peer)
      then t
      else let rtt = round_trip now (lookup conn t.links) in
        let t1 = record t { links = modify conn (λ l. record l { srrt = some now }) t.links } in
        if not (answers (lookup peer t1.peers) res) then t1 else record t1 {
          responses = or_insert peer res t1.responses;
          links = modify conn (answered rtt) t1.links;
        }

  -- The announce that `use_response` makes of a response.
  unfoldable pub own_announce : ℕ → SigRes → Announce
  own_announce peer res =
      info_announce
        (record {
          parent = peer;
          res = res;
          sig = sign seed (res_bytes_for_sig res (public_key seed) peer);
        })
        (public_key seed)

  unfoldable pub use_response : ℕ → TreeState → ℕ → SigRes → TreeState × Bool
  unfolding own_announce update
  use_response now t peer res =
      let ann = own_announce peer res in
      if check_announce c ann then update (public_key seed) now t ann else (t, false)

  -- The announce of `become_root`.
  unfoldable pub root_announce : TreeState → ℕ → Announce
  root_announce t nonce =
      let pubkey = public_key seed in
      let res = seal c (new_req pubkey t nonce) 0 pubkey seed pubkey in
      record { key = pubkey; parent = pubkey; res = res; sig = res.psig }

  unfoldable pub become_root : ℕ → TreeState → ℕ → TreeState
  unfolding root_announce update
  become_root now t nonce = record (update (public_key seed) now t (root_announce t nonce)).0 {
    self_refresh_at = some (now + tree_refresh);
  }

-- `for k in anc { if !sent.contains(k) { sent.insert(*k); to_send.push(*k); } }`
unsent : List ℕ → List ℕ → List ℕ → List ℕ × List ℕ
unsent [] told to_send = (told, to_send)
unsent (k ∷ ks) told to_send = elim (contains k told) [
  | true ↦ unsent ks told to_send
  | false ↦ unsent ks (set_insert k told) (to_send ++ k ∷ [])
]

module _ {S : Type 0} (io_of : Streams S) where
  -- A state, the links and the result of a function that sends.
  abbrev pub Sent : Type 0
  Sent = TreeState × LinkSet S × Result (Unit {0})

  unfoldable pub handle_request :
      Ed25519 → ℕ → TreeState → LinkSet S → ℕ → ℕ → ℕ → SigReq → LinkSet S × Result (Unit {0})
  unfolding response_to write
  handle_request c seed t links now conn peer req =
      write io_of links now conn sig_res (encode_res (response_to c seed t peer req) [])

  -- `nonce` is the one drawn for this key.
  unfoldable pub send_req : ℕ → TreeState → LinkSet S → ℕ → ℕ → ℕ → Sent
  unfolding new_req modify_all stamp write_peer
  send_req pubkey t links now nonce peer =
      let req = new_req pubkey t nonce in
      let targets = links_to links peer in
      let t1 = record t {
        peers = modify peer (λ p. record p { open_req = req }) t.peers;
        links = modify_all targets (λ l. record l { responded = false }) t.links;
      } in
      let step = write_peer io_of links now peer sig_req (encode_req req []) in
      (stamp step.1 targets now t1, step.0, step.1)

  unfoldable pub send_reqs : ℕ → TreeState → LinkSet S → ℕ → (ℕ → ℕ) → List ℕ → Sent
  unfolding send_req
  send_reqs pubkey t links now nonce [] = (t, links, ok tt)
  send_reqs pubkey t links now nonce (k ∷ ks) =
      let step = send_req pubkey t links now (nonce k) k in
      elim step.2 [
        | ok u ↦ send_reqs pubkey step.0 step.1 now nonce ks
        | err x ↦ (step.0, step.1, err x)
      ]

  unfoldable pub send_all_reqs : ℕ → TreeState → LinkSet S → ℕ → (ℕ → ℕ) → Sent
  unfolding send_reqs
  send_all_reqs pubkey t links now nonce =
      send_reqs pubkey (record t { responses = [] }) links now nonce (sort (peers links))

  -- `for k in to_send { .. }`
  unfoldable pub send_infos : TreeState → LinkSet S → ℕ → ℕ → List ℕ → Sent
  unfolding write_peer has_peer info_announce
  send_infos t links now peer [] = (t, links, ok tt)
  send_infos t links now peer (k ∷ ks) = elim (lookup k t.infos) [
    | none ↦ send_infos t links now peer ks
    | some info ↦ elim (has_peer links peer) [
      | false ↦ send_infos t links now peer ks
      | true ↦
          let step =
            write_peer io_of links now peer announce (encode_announce (info_announce info k) []) in
          elim step.1 [
            | err x ↦ (t, step.0, err x)
            | ok u ↦
                send_infos (record t { announces_sent = add64 t.announces_sent 1 }) step.0 now peer
                  ks
          ]
    ]
  ]

  -- `for peer_key in keys { .. }`
  unfoldable pub announce_to : List ℕ → TreeState → LinkSet S → ℕ → List ℕ → Sent
  unfolding unsent send_infos ancestry
  announce_to self_anc t links now [] = (t, links, ok tt)
  announce_to self_anc t links now (peer ∷ rest) =
      let told : List ℕ = elim (lookup peer t.sent) [ none ↦ [] | some known ↦ known ] in
      let news = unsent (self_anc ++ ancestry t.infos peer) told [] in
      let step = send_infos (record t { sent = insert peer news.0 t.sent }) links now peer news.1 in
      elim step.2 [
        | ok u ↦ announce_to self_anc step.0 step.1 now rest
        | err x ↦ (step.0, step.1, err x)
      ]

  unfoldable pub send_announces : ℕ → TreeState → LinkSet S → ℕ → Sent
  unfolding announce_to
  send_announces pubkey t links now =
      announce_to (ancestry t.infos pubkey) t links now (sort (keys t.sent))
