-- ===== src/Session/Handlers.antt =====
-- src/session.rs: the sessions of a router and what it does with session messages, with
-- `next_init_seq` of src/router.rs. How a payload is sent through the network, and the node protocol,
-- are parameters. `draw k` is the key that is drawn as the k-th of a call.
use roots.Prelude.{
  ℕ, ◌+◌, Bool, true, false, ◌||◌, Option, none, some, List, [], ◌∷◌, ◌++◌, min, max, ◌==◌,
  if◌then◌else◌,
}
use roots.Prelude.Map.{Map, lookup, insert, remove}
use roots.Prelude.Words.{max64}
use roots.Error.{Result, ok, err}
use roots.Crypto.{Ed25519}
use roots.Tree.State.{seconds}
use roots.Session.Boxes.{Boxes, ed_to_curve_priv}
use roots.Session.Init.{
  SessionInit, encrypt_msg, decrypt_msg, session_type_init, session_type_ack, session_type_traffic,
}
use roots.Session.Keys.{
  Session, KeyPair, key_pair, for_init, adopt_buffered, handle_init, handle_ack, make_init, encrypt,
  decrypt,
}

abbrev pub packet_type_traffic : ℕ
packet_type_traffic = 1

abbrev pub packet_type_proto : ℕ
packet_type_proto = 2

abbrev pub session_timeout : ℕ
session_timeout = seconds 60

pub record SessionBuf : Type 0 where
  pub init : SessionInit
  pub send : KeyPair
  pub next_pair : KeyPair
  pub payload : Option (ℕ × List ℕ)
  pub deadline : ℕ

pub record SessionState : Type 0 where
  pub sessions : Map (Session × ℕ)
  pub bufs : Map SessionBuf
  pub init_seq : ℕ
  pub resend : List (ℕ × List ℕ)

-- A router, as far as its sessions need it, with the rest of it.
pub record Host (N : Type 0) : Type 0 where
  pub sess : SessionState
  pub inbox : List (ℕ × List ℕ)
  pub rest : N

module _ {N : Type 0} where
  -- The number for the next init, which is noted.
  unfoldable pub next_init_seq : ℕ → Host N → ℕ
  next_init_seq unix_now h = max (unix_now + 1) (min (h.sess.init_seq + 1) max64)

  unfoldable pub note_init_seq : ℕ → Host N → Host N
  note_init_seq seq h = record h { sess = record h.sess { init_seq = seq } }

  unfoldable pub put_session : ℕ → Session → ℕ → Host N → Host N
  put_session key s active h = record h {
    sess = record h.sess { sessions = insert key (s, active) h.sess.sessions };
  }

-- What a handler returns: the router after it, and its error.
abbrev pub Done : Type 0 → Type 0
Done N = Host N × Result (Unit {0})

module _ {N : Type 0} (c : Ed25519) (b : Boxes) (seed now unix_now : ℕ) where
  module _ (net_send : Host N → ℕ → List ℕ → Done N) where
    -- An init or ack of this node, sealed for the key; an error of the sealing is a panic.
    unfoldable pub send_init : ℕ → ℕ → SessionInit → Host N → ℕ → Done N
    send_init eph kind i h dest = elim (encrypt_msg c b eph i kind seed dest) [
      | err x ↦ (h, err x)
      | ok enc ↦ net_send h dest enc
    ]

    unfoldable pub session_send_inner : ℕ → Host N → ℕ → ℕ → List ℕ → Done N
    unfolding put_session
    session_send_inner fresh h dest kind msg = elim (lookup dest h.sess.sessions) [
      | none ↦ (h, ok tt)
      | some (s, active) ↦
          let sealed = encrypt b fresh s (kind ∷ msg) in
          let step = net_send (put_session dest sealed.0 now h) dest sealed.1 in
          elim step.1 [
            | ok u ↦ (step.0, ok tt)
            | err x ↦ (
              record step.0 {
                sess = record step.0.sess { resend = step.0.sess.resend ++ (dest, msg) ∷ [] };
              },
              err x,
            )
          ]
    ]

    -- `bufs.entry(dest).or_insert_with(..)`
    unfoldable pub buf_or_new : (ℕ → ℕ) → ℕ → Option SessionBuf → SessionBuf
    buf_or_new draw seq (some buf) = buf
    buf_or_new draw seq none = record {
      init = record {
        current = b.box_public (draw 0);
        next = b.box_public (draw 1);
        key_seq = 0;
        seq = seq;
      };
      send = key_pair b (draw 0);
      next_pair = key_pair b (draw 1);
      payload = none;
      deadline = now + session_timeout;
    }

    unfoldable pub session_send_kind : (ℕ → ℕ) → Host N → ℕ → ℕ → List ℕ → Done N
    unfolding session_send_inner buf_or_new send_init next_init_seq note_init_seq
    session_send_kind draw h dest kind msg = elim (lookup dest h.sess.sessions) [
      | some s ↦ session_send_inner (draw 0) h dest kind msg
      | none ↦
          let seq = next_init_seq unix_now h in
          let h1 = note_init_seq seq h in
          let buf = record (buf_or_new draw seq (lookup dest h1.sess.bufs)) {
            payload = some (kind, msg);
            deadline = now + session_timeout;
          } in
          let h2 = record h1 { sess = record h1.sess { bufs = insert dest buf h1.sess.bufs } } in
          send_init (draw 2) session_type_init buf.init h2 dest
    ]

    unfoldable pub session_send : (ℕ → ℕ) → Host N → ℕ → List ℕ → Done N
    unfolding session_send_kind
    session_send draw h dest msg = session_send_kind draw h dest packet_type_traffic msg

    -- `proto_send` of src/proto.rs.
    unfoldable pub proto_send : (ℕ → ℕ) → Host N → ℕ → List ℕ → Done N
    unfolding session_send_kind
    proto_send draw h dest payload = session_send_kind draw h dest packet_type_proto payload

    -- The ack that an init is answered with, if it is accepted.
    unfoldable pub send_ack : ℕ → Host N → ℕ → Option SessionInit → Done N
    unfolding send_init
    send_ack eph h from none = (h, ok tt)
    send_ack eph h from (some ack) = send_init eph session_type_ack ack h from

    -- The payload that waited for the session.
    unfoldable pub send_buffered : ℕ → Host N → ℕ → Option SessionBuf → Done N
    unfolding session_send_inner
    send_buffered fresh h from none = (h, ok tt)
    send_buffered fresh h from (some buf) = elim buf.payload [
      | none ↦ (h, ok tt)
      | some (kind, msg) ↦ session_send_inner fresh h from kind msg
    ]

    -- The keys of the buffer, where this node sent an init first.
    unfoldable pub take_over : Option SessionBuf → Session → Session
    take_over none s = s
    take_over (some buf) s = adopt_buffered b buf.send buf.next_pair s

    -- The first init or ack of a peer, acks included, opens a session.
    unfoldable pub open_session : (ℕ → ℕ) → Host N → ℕ → SessionInit → Done N
    unfolding take_over send_ack send_buffered next_init_seq note_init_seq put_session
    open_session draw h from i =
        let buffered = lookup from h.sess.bufs in
        let s = take_over buffered (for_init b i (draw 0) (draw 1) (draw 2)) in
        let h1 = record h { sess = record h.sess { bufs = remove from h.sess.bufs } } in
        let seq = next_init_seq unix_now h1 in
        let answer = handle_init b (draw 3) i seq s in
        let step =
          send_ack (draw 4) (put_session from answer.0 now (note_init_seq seq h1)) from answer.1 in
        elim step.1 [ err x ↦ (step.0, err x) | ok u ↦ send_buffered (draw 5) step.0 from buffered ]

    -- An init or ack that was opened.
    unfoldable pub handle_session_init : (ℕ → ℕ) → Bool → Host N → ℕ → SessionInit → Done N
    unfolding open_session send_ack put_session
    handle_session_init draw is_ack h from i = elim (lookup from h.sess.sessions) [
      | none ↦ open_session draw h from i
      | some (s, active) ↦ elim is_ack [
        | true ↦ (put_session from (handle_ack b (draw 0) i s) now h, ok tt)
        | false ↦
            let seq = next_init_seq unix_now h in
            let answer = handle_init b (draw 0) i seq s in
            send_ack (draw 1) (put_session from answer.0 now (note_init_seq seq h)) from answer.1
      ]
    ]

    module _ (handle_proto : Host N → ℕ → List ℕ → Done N) where
      -- A payload by its leading byte.
      unfoldable pub deliver : Host N → ℕ → List ℕ → Done N
      deliver h from [] = (h, ok tt)
      deliver h from (kind ∷ msg) =
          if kind == packet_type_traffic
          then (record h { inbox = h.inbox ++ (from, msg) ∷ [] }, ok tt)
          else if kind == packet_type_proto
          then handle_proto h from msg
          else (h, ok tt)

      unfoldable pub handle_session_traffic : (ℕ → ℕ) → Host N → ℕ → List ℕ → Done N
      unfolding deliver send_init put_session next_init_seq note_init_seq
      handle_session_traffic draw h from bytes =
          let seq = next_init_seq unix_now h in
          let h1 = note_init_seq seq h in
          elim (lookup from h.sess.sessions) [
            | some (s, active) ↦
                let opened = decrypt b now (draw 0) s bytes in
                elim opened.1 [
                  | some payload ↦ deliver (put_session from opened.0 now h1) from payload
                  | none ↦
                      send_init (draw 1) session_type_init (make_init opened.0 seq)
                        (put_session from opened.0 active h1) from
                ]
            | none ↦
                let again = next_init_seq unix_now h1 in
                send_init (draw 2) session_type_init
                  (record {
                    current = b.box_public (draw 0);
                    next = b.box_public (draw 1);
                    key_seq = 0;
                    seq = again;
                  })
                  (note_init_seq again h1) from
          ]

      unfoldable pub handle_session_bytes : (ℕ → ℕ) → Host N → ℕ → List ℕ → Done N
      unfolding handle_session_init handle_session_traffic
      handle_session_bytes draw h from [] = (h, ok tt)
      handle_session_bytes draw h from (kind ∷ rest) =
          if kind == session_type_init || kind == session_type_ack
          then elim (decrypt_msg c b (ed_to_curve_priv b seed) from (kind ∷ rest)) [
            | none ↦ (h, ok tt)
            | some i ↦ handle_session_init draw (kind == session_type_ack) h from i
          ]
          else if kind == session_type_traffic
          then handle_session_traffic draw h from (kind ∷ rest)
          else (h, ok tt)
