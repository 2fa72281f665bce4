-- ===== src/Proto.antt =====
-- src/proto.rs: the node protocol inside a session, its requests and the answers to them.
-- `send` is `proto_send`, and `self_info` the bytes of the text of `DEBUG_GETSELF_RES`.
pub mod Answers
use roots.Prelude.{ℕ, ◌+◌, List, [], ◌∷◌, ◌++◌, length, ltb, ◌==◌, ◌||◌, if◌then◌else◌}
use roots.Prelude.Map.{keys}
use roots.Prelude.Sets.{sort}
use roots.Prelude.Bytes.{be_bytes}
use roots.Error.{length_error, Result, ok, err}
use roots.Tree.State.{TreeState}

abbrev pub proto_dummy : ℕ
proto_dummy = 0

abbrev pub proto_nodeinfo_req : ℕ
proto_nodeinfo_req = 1

abbrev pub proto_nodeinfo_res : ℕ
proto_nodeinfo_res = 2

abbrev pub proto_debug : ℕ
proto_debug = 255

abbrev pub debug_dummy : ℕ
debug_dummy = 0

abbrev pub debug_getself_req : ℕ
debug_getself_req = 1

abbrev pub debug_getself_res : ℕ
debug_getself_res = 2

abbrev pub debug_getpeers_req : ℕ
debug_getpeers_req = 3

abbrev pub debug_getpeers_res : ℕ
debug_getpeers_res = 4

abbrev pub debug_gettree_req : ℕ
debug_gettree_req = 5

abbrev pub debug_gettree_res : ℕ
debug_gettree_res = 6

abbrev pub nodeinfo_max : ℕ
nodeinfo_max = 16384

-- `NODEINFO_DEFAULT`, the two bytes of an empty object.
abbrev pub nodeinfo_default : List ℕ
nodeinfo_default = 123 ∷ 125 ∷ []

abbrev pub proto_response_max : ℕ
proto_response_max = 65471

pub record ProtoState : Type 0 where
  pub nodeinfo : List ℕ

-- The parts of a router that answer requests, with the rest of it.
pub record Node (N : Type 0) : Type 0 where
  pub pubkey : ℕ
  pub tree : TreeState
  pub proto : ProtoState
  pub proto_inbox : List (ℕ × List ℕ)
  pub rest : N

-- The loop of `concat_keys`.
unfoldable pub concat_loop : List ℕ → List ℕ → List ℕ
concat_loop out [] = out
concat_loop out (k ∷ rest) =
    let more = concat_loop (out ++ be_bytes 32 k) rest in
    if ltb proto_response_max (length out + 32 + 2) then out else more

unfoldable pub concat_keys : ℕ → ℕ → List ℕ → List ℕ
unfolding concat_loop
concat_keys dispatch subtype ks = concat_loop (dispatch ∷ subtype ∷ []) ks

module _ {N : Type 0} where
  unfoldable pub set_nodeinfo : List ℕ → Node N → Node N × Result (Unit {0})
  set_nodeinfo json h =
      if ltb nodeinfo_max (length json)
      then (h, err length_error)
      else (record h { proto = record { nodeinfo = json } }, ok tt)

  module _ (send : Node N → ℕ → List ℕ → Node N × Result (Unit {0})) where
    unfoldable pub request_nodeinfo : Node N → ℕ → Node N × Result (Unit {0})
    request_nodeinfo h dest = send h dest (proto_nodeinfo_req ∷ [])

    unfoldable pub request_debug : Node N → ℕ → ℕ → Node N × Result (Unit {0})
    request_debug h dest what = send h dest (proto_debug ∷ what ∷ [])

    module _ (self_info : ℕ → ℕ → List ℕ) where
      unfoldable pub handle_debug_bytes : Node N → ℕ → List ℕ → Node N × Result (Unit {0})
      unfolding concat_keys
      handle_debug_bytes h from [] = (h, ok tt)
      handle_debug_bytes h from (kind ∷ payload) =
          if kind == debug_getself_req
          then send h from
              (proto_debug ∷ debug_getself_res ∷ self_info h.pubkey (length h.tree.infos))
          else if kind == debug_getpeers_req
          then send h from (concat_keys proto_debug debug_getpeers_res (sort (keys h.tree.peers)))
          else if kind == debug_gettree_req
          then send h from (concat_keys proto_debug debug_gettree_res (sort (keys h.tree.infos)))
          else if kind == debug_getself_res
              || kind == debug_getpeers_res
              || kind == debug_gettree_res
          then (
            record h { proto_inbox = h.proto_inbox ++ (from, proto_debug ∷ kind ∷ payload) ∷ [] },
            ok tt,
          )
          else (h, ok tt)

      unfoldable pub handle_proto_bytes : Node N → ℕ → List ℕ → Node N × Result (Unit {0})
      unfolding handle_debug_bytes
      handle_proto_bytes h from [] = (h, ok tt)
      handle_proto_bytes h from (kind ∷ payload) =
          if kind == proto_nodeinfo_req
          then send h from (proto_nodeinfo_res ∷ h.proto.nodeinfo)
          else if kind == proto_nodeinfo_res
          then (record h { proto_inbox = h.proto_inbox ++ (from, kind ∷ payload) ∷ [] }, ok tt)
          else if kind == proto_debug
          then handle_debug_bytes h from payload
          else (h, ok tt)
