-- ===== src/Tree/Messages/Exchange.antt =====
-- A request, its response and what comes of it.
use roots.Prelude.{
  ℕ, ◌+◌, ◌<◌, ◌^◌, ◌≡◌, refl, ap, ◌∙◌, true, Option, none, some, arith, ◌==◌, ==_refl,
}
use roots.Prelude.Map.{Map, lookup, lookup-insert}
use roots.Crypto.{Ed25519}
use roots.Wire.Signed.{SigRes, Announce, check_res, check_announce, seal}
use roots.Wire.Signed.Honest.{check_res-seal}
use roots.Tree.State.{PeerState, Info, TreeState, info_of, req_eq, supersedes, is_news, update}
use roots.Tree.State.Adopt.{best_news, update_infos}
use roots.Tree.Messages.{
  answers, or_insert, response_to, handle_response, new_req, next_seq, root_announce, become_root,
}

module _ (c : Ed25519) where
  open c use {public_key}

  response_kept :
      (seed : ℕ) (t : TreeState) (now conn peer : ℕ) (res : SigRes)
      → check_res c res (public_key seed) peer ≡ true
      → answers (lookup peer t.peers) res ≡ true
      → (handle_response c seed t now conn peer res).responses ≡ or_insert peer res t.responses
  unfolding handle_response
  response_kept seed t now conn peer res good match = rw (handle_response, good, match) refl

  or_insert_fresh :
      (k : ℕ) (v : SigRes) (m : Map SigRes)
      → lookup k m ≡ none
      → lookup k (or_insert k v m) ≡ some v
  unfolding or_insert
  or_insert_fresh k v m fresh = rw (or_insert, fresh) (lookup-insert k k v m ∙ rw (==_refl k) refl)

  -- A node's response to a peer's request carries a signature that the peer accepts; if the peer has
  -- the request open with this node and no response yet, it keeps this one.
  pub request_answered :
      (asker node : ℕ) (theirs ours : TreeState) (p : PeerState) (now conn : ℕ)
      → lookup (public_key node) ours.peers ≡ some p
      → lookup (public_key node) ours.responses ≡ none
      → let res = response_to c node theirs (public_key asker) p.open_req in
        (check_res c res (public_key asker) (public_key node) ≡ true)
        × (lookup
              (public_key node)
              (handle_response c asker ours now conn (public_key node) res).responses
            ≡ some res)
  request_answered asker node theirs ours p now conn known fresh =
      let res : SigRes = response_to c node theirs (public_key asker) p.open_req in
      let good : check_res c res (public_key asker) (public_key node) ≡ true =
        unfold response_to in check_res-seal c p.open_req _ (public_key asker) node in
      let match : answers (lookup (public_key node) ours.peers) res ≡ true =
        rw known (unfold answers response_to seal req_eq in ground arith) in
      (
        good,
        ap (lookup (public_key node))
              (response_kept asker ours now conn (public_key node) res good match)
            ∙ or_insert_fresh (public_key node) res ours.responses fresh,
      )

  own_parent :
      (key : ℕ) (res : SigRes)
      → check_res c res key key ≡ true
      → check_announce c (record { key = key; parent = key; res = res; sig = res.psig }) ≡ true
  unfolding check_announce check_res
  own_parent key res good = rw (==_refl key, good) (ground arith)

  -- The announce of a node that makes itself the root passes `check`.
  pub root_announce_checked :
      (seed nonce : ℕ) (t : TreeState) → check_announce c (root_announce c seed t nonce) ≡ true
  unfolding root_announce
  root_announce_checked seed nonce t =
      own_parent (public_key seed)
        (seal c (new_req (public_key seed) t nonce) 0 (public_key seed) seed (public_key seed))
        (check_res-seal c (new_req (public_key seed) t nonce) 0 (public_key seed) seed)

  own_news :
      (ann : Announce) (o : Option Info)
      → ann.res.req.seq ≡ next_seq o
      → ((known : Info) → o ≡ some known → known.res.req.seq + 1 < 2 ^ 64)
      → is_news ann o ≡ true
  unfolding is_news next_seq supersedes
  own_news ann none e room = refl
  own_news ann (some known) e room = ground (arith, room known refl, e)

  -- When a node whose own known seq is not the last u64 becomes root, what it knows of itself is
  -- its root announce, in which it is its own parent.
  pub become_root_own :
      (seed now nonce : ℕ) (t : TreeState)
      → ((known : Info)
          → lookup (public_key seed) t.infos ≡ some known
          → known.res.req.seq + 1 < 2 ^ 64)
      → lookup (public_key seed) (become_root c seed now t nonce).infos
        ≡ some (info_of (root_announce c seed t nonce))
  become_root_own seed now nonce t room =
      let ann : Announce = root_announce c seed t nonce in
      let here : (ann.key == public_key seed) ≡ true =
        unfold root_announce in ==_refl (public_key seed) in
      let news : is_news ann (lookup (public_key seed) t.infos) ≡ true =
        own_news ann (lookup (public_key seed) t.infos) (unfold root_announce seal new_req in refl)
          room in
      let tables : (become_root c seed now t nonce).infos
          ≡ (update (public_key seed) now t ann).0.infos =
        unfold become_root in refl in
      ap (lookup (public_key seed)) tables
      ∙ update_infos (public_key seed) now t ann (public_key seed)
      ∙ rw here (ap some (best_news ann (lookup (public_key seed) t.infos) news))
