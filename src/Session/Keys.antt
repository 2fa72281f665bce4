-- ===== src/Session/Keys.antt =====
-- src/session.rs: `Session`, the keys and counters of one end of a session.
use roots.Prelude.{
  ℕ, ◌-◌, ◌*◌, Bool, true, not, ◌&&◌, ◌||◌, Option, none, some, List, [], ◌∷◌, ◌++◌, length, take,
  drop, ◌==◌, ltb, leb, if◌then◌else◌,
}
use roots.Prelude.Bytes.{be_bytes, of_be}
use roots.Prelude.Words.{add64, sub64}
use roots.Wire.Uvarint.{append_uvarint, read_uvarint}
use roots.Session.Boxes.{Boxes, salsa_box, box_seal, box_open}
use roots.Session.Init.{SessionInit, starts_with, session_type_traffic}

abbrev pub session_traffic_min : ℕ
session_traffic_min = 52

-- `fresh_box()` drew this key.
pub record KeyPair : Type 0 where
  pub public : ℕ
  pub secret : ℕ

pub record Session : Type 0 where
  pub seq : ℕ
  pub remote_key_seq : ℕ
  pub current : ℕ
  pub next : ℕ
  pub local_key_seq : ℕ
  pub recv : KeyPair
  pub recv_shared : ℕ
  pub recv_nonce : ℕ
  pub send : KeyPair
  pub send_shared : ℕ
  pub send_nonce : ℕ
  pub next_pair : KeyPair
  pub next_send_shared : ℕ
  pub next_send_nonce : ℕ
  pub next_recv_shared : ℕ
  pub next_recv_nonce : ℕ
  pub rotated_at : Option ℕ

-- Which of the three secrets opens a message.
pub data Case : Type 0 where
  current_keys next_send next_recv : Case

-- `rotated_at.map(|t| t.elapsed() > Duration::from_secs(60)).unwrap_or(true)`
unfoldable pub is_due : ℕ → Option ℕ → Bool
is_due now none = true
is_due now (some t) = ltb (60 * 1000000000) (now - t)

-- The keys after the swaps of `recv` with `send` and of `send` with `next`, and a fresh pair.
unfoldable pub swap_keys : KeyPair → Session → Session
swap_keys fresh s =
    let s1 = record s { recv = s.send; send = s.recv } in
    let s2 = record s1 { send = s1.next_pair; next_pair = s1.send } in
    record s2 { next_pair = fresh; local_key_seq = add64 s2.local_key_seq 1 }

unfoldable pub make_init : Session → ℕ → SessionInit
make_init s seq = record {
  current = s.send.public;
  next = s.next_pair.public;
  key_seq = s.local_key_seq;
  seq = seq;
}

-- The key sequences that a message names, and whose nonce guard it passes.
unfoldable pub case_of : Session → ℕ → ℕ → ℕ → Option Case
case_of s rks lks nonce =
    let from_current = rks == s.remote_key_seq in
    let from_next = rks == add64 s.remote_key_seq 1 in
    let to_recv = add64 lks 1 == s.local_key_seq in
    let to_send = lks == s.local_key_seq in
    if from_current && to_recv
    then (if not (ltb s.recv_nonce nonce) then none else some current_keys)
    else if from_next && to_send
    then (if not (ltb s.next_send_nonce nonce) then none else some next_send)
    else if from_next && to_recv
    then (if not (ltb s.next_recv_nonce nonce) then none else some next_recv)
    else none

unfoldable pub shared_of : Session → Case → ℕ
shared_of s current_keys = s.recv_shared
shared_of s next_send = s.next_send_shared
shared_of s next_recv = s.next_recv_shared

-- The three numbers behind the type of a message, and the body behind them.
unfoldable pub read_header : List ℕ → Option (ℕ × ℕ × ℕ × List ℕ)
read_header bytes = elim (read_uvarint bytes) [
  | none ↦ none
  | some (rks, n) ↦ elim (read_uvarint (drop n bytes)) [
    | none ↦ none
    | some (lks, n') ↦ elim (read_uvarint (drop n' (drop n bytes))) [
      | none ↦ none
      | some (nonce, n'') ↦ some (rks, lks, nonce, drop n'' (drop n' (drop n bytes)))
    ]
  ]
]

module _ (b : Boxes) where
  abbrev pub key_pair : ℕ → KeyPair
  key_pair secret = record { public = b.box_public secret; secret = secret }

  -- `fix_shared`, with the four secrets of `shared4`
  unfoldable pub fix_shared : ℕ → ℕ → Session → Session
  fix_shared recv_nonce send_nonce s = record s {
    recv_shared = salsa_box b s.current s.recv.secret;
    send_shared = salsa_box b s.current s.send.secret;
    next_send_shared = salsa_box b s.next s.send.secret;
    next_recv_shared = salsa_box b s.next s.recv.secret;
    next_send_nonce = 0;
    next_recv_nonce = 0;
    recv_nonce = recv_nonce;
    send_nonce = send_nonce;
  }

  -- The three pairs are those that are drawn.
  unfoldable pub for_init : SessionInit → ℕ → ℕ → ℕ → Session
  for_init i recv send next = record {
    seq = sub64 i.seq 1;
    remote_key_seq = 0;
    current = i.current;
    next = i.next;
    local_key_seq = 0;
    recv = key_pair recv;
    recv_shared = salsa_box b i.current recv;
    recv_nonce = 0;
    send = key_pair send;
    send_shared = salsa_box b i.current send;
    send_nonce = 0;
    next_pair = key_pair next;
    next_send_shared = salsa_box b i.next send;
    next_send_nonce = 0;
    next_recv_shared = salsa_box b i.next recv;
    next_recv_nonce = 0;
    rotated_at = none;
  }

  unfoldable pub adopt_buffered : KeyPair → KeyPair → Session → Session
  unfolding fix_shared
  adopt_buffered send next s = fix_shared 0 0 (record s { send = send; next_pair = next })

  unfoldable pub apply_update : ℕ → SessionInit → Session → Session
  unfolding swap_keys fix_shared
  apply_update fresh i s =
      let s1 = record s {
        current = i.current;
        next = i.next;
        seq = i.seq;
        remote_key_seq = i.key_seq;
      } in
      fix_shared 0 s.send_nonce (swap_keys (key_pair fresh) s1)

  unfoldable pub handle_init : ℕ → SessionInit → ℕ → Session → Session × Option SessionInit
  unfolding apply_update make_init
  handle_init fresh i ack_seq s =
      let s' = apply_update fresh i s in
      if leb i.seq s.seq then (s, none) else (s', some (make_init s' ack_seq))

  unfoldable pub handle_ack : ℕ → SessionInit → Session → Session
  unfolding apply_update
  handle_ack fresh ack s = if leb ack.seq s.seq then s else apply_update fresh ack s

  -- The send nonce of the next message; where it wraps, the keys are changed first.
  unfoldable pub count_send : ℕ → Session → Session
  unfolding swap_keys fix_shared
  count_send fresh s =
      let s1 = record s { send_nonce = add64 s.send_nonce 1 } in
      if s1.send_nonce == 0 then fix_shared 0 0 (swap_keys (key_pair fresh) s1) else s1

  unfoldable pub seal_traffic : Session → List ℕ → List ℕ
  seal_traffic s msg =
      let header =
        append_uvarint
          (append_uvarint (append_uvarint (session_type_traffic ∷ []) s.local_key_seq)
            s.remote_key_seq)
          s.send_nonce in
      header ++ box_seal b s.send_shared s.send_nonce (be_bytes 32 s.next_pair.public ++ msg)

  unfoldable pub encrypt : ℕ → Session → List ℕ → Session × List ℕ
  unfolding count_send seal_traffic
  encrypt fresh s msg = let s' = count_send fresh s in (s', seal_traffic s' msg)

  unfoldable pub maybe_rotate : ℕ → ℕ → ℕ → ℕ → Session → Session
  unfolding swap_keys fix_shared is_due
  maybe_rotate now fresh inner_key nonce s =
      let s1 = record s {
        current = s.next;
        next = inner_key;
        remote_key_seq = add64 s.remote_key_seq 1;
      } in
      let s2 = fix_shared nonce 0 (swap_keys (key_pair fresh) s1) in
      if not (is_due now s.rotated_at) then s else record s2 { rotated_at = some now }

  -- What an opened message does to the session.
  unfoldable pub note_nonce : ℕ → ℕ → ℕ → ℕ → Session → Case → Session
  unfolding maybe_rotate
  note_nonce now fresh inner_key nonce s current_keys = record s { recv_nonce = nonce }
  note_nonce now fresh inner_key nonce s next_send =
      maybe_rotate now fresh inner_key nonce (record s { next_send_nonce = nonce })
  note_nonce now fresh inner_key nonce s next_recv =
      maybe_rotate now fresh inner_key nonce (record s { next_recv_nonce = nonce })

  unfoldable pub open_body : ℕ → ℕ → Session → ℕ → List ℕ → Case → Session × Option (List ℕ)
  unfolding shared_of note_nonce
  open_body now fresh s nonce body which = elim (box_open b (shared_of s which) nonce body) [
    | none ↦ (s, none)
    | some opened ↦
        if ltb (length opened) 32
        then (s, none)
        else (note_nonce now fresh (of_be (take 32 opened)) nonce s which, some (drop 32 opened))
  ]

  unfoldable pub decrypt : ℕ → ℕ → Session → List ℕ → Session × Option (List ℕ)
  unfolding read_header case_of open_body
  decrypt now fresh s msg =
      if ltb (length msg) session_traffic_min || not (starts_with session_type_traffic msg)
      then (s, none)
      else elim (read_header (drop 1 msg)) [
        | none ↦ (s, none)
        | some (rks, lks, nonce, body) ↦ elim (case_of s rks lks nonce) [
          | none ↦ (s, none)
          | some which ↦ open_body now fresh s nonce body which
        ]
      ]
