-- ===== src/Examples/Session.antt =====
-- Sessions at work, with a toy cipher.
use roots.Prelude.{
  ℕ, ◌≡◌, inl, refl, sym, ap, ◌∙◌, Option, Bool, true, false, none, some, List, [], ◌∷◌, arith,
}
use roots.Prelude.Bytes.{be_bytes, of_be}
use roots.Error.{ok, ◌>>=◌}
use roots.Wire.Uvarint.{append_uvarint, read_uvarint}
use roots.Crypto.{toy}
use roots.Session.Boxes.{toy_boxes, ed_to_curve_priv, SameCurve, salsa_box, box_seal, box_open}
use roots.Session.Init.{starts_with, SessionInit, IsInit, encrypt_msg, decrypt_msg}
use roots.Session.Keys.{
  Session, for_init, handle_init, handle_ack, make_init, encrypt, decrypt, read_header,
}
use roots.Session.RoundTrip.{decrypt_msg-encrypt_msg}
use roots.Session.Sequence.{stays, handle_init-Steps}
use roots.Session.Sequence
use roots.Session.Replay.{AreAligned, After, at_once, encrypts, decrypts, decrypt-After}
use roots.Session.Stream.{Linked, exchange, arrivals, exchange-Linked}
use roots.Session.Opening.{Draws, opening, opening-exchange}

abbrev hello : SessionInit
hello = record { current = 11; next = 12; key_seq = 0; seq = 100 }

hello-IsInit : IsInit hello
hello-IsInit = record {
  current_key = omega arith;
  next_key = omega arith;
  key_seq_u64 = omega arith;
  seq_u64 = omega arith;
}

toy-SameCurve : SameCurve toy_boxes toy
unfolding ed_to_curve_priv of_be
toy-SameCurve seed = refl

decrypt_msg-encrypt_msg_example :
    (encrypt_msg toy toy_boxes 77 hello 1 9 (toy.public_key 8) >>= λ bytes.
    ok (decrypt_msg toy toy_boxes (ed_to_curve_priv toy_boxes 8) (toy.public_key 9) bytes))
    ≡ ok (some hello)
decrypt_msg-encrypt_msg_example =
    decrypt_msg-encrypt_msg toy toy_boxes toy-SameCurve 77 9 8 1 hello hello-IsInit (inl refl)

abbrev begun : Session
begun = for_init toy_boxes hello 21 22 23

-- The init comes again after a message was sent.
abbrev sent_once : Session
sent_once = (encrypt toy_boxes 25 (handle_init toy_boxes 24 hello 5 begun).0 (1 ∷ [])).0

handle_init-Steps_example :
    (handle_init toy_boxes 26 hello 6 sent_once ≡ (sent_once, none))
    × (handle_ack toy_boxes 26 hello sent_once ≡ sent_once)
handle_init-Steps_example =
    handle_init-Steps toy_boxes begun sent_once 24 26 hello hello 5 6 (omega arith)
      (Sequence.encrypts (handle_init toy_boxes 24 hello 5 begun).0 25 (1 ∷ []) stays)

-- Two ends with one secret.
abbrev sender : Session
sender = record begun { local_key_seq = 1; remote_key_seq = 1; send_shared = 40; send_nonce = 7 }

abbrev receiver : Session
receiver = record begun { local_key_seq = 2; remote_key_seq = 1; recv_shared = 40; recv_nonce = 3 }

linked : Linked sender receiver
linked = record {
  in_step = refl;
  acked = refl;
  one_secret = refl;
  behind = omega arith;
  local_u64 = omega arith;
  remote_u64 = omega arith;
}

-- The second of three messages is lost.
abbrev messages : List (Bool × List ℕ)
messages = (true, 1 ∷ 5 ∷ []) ∷ (false, 1 ∷ 6 ∷ []) ∷ (true, 1 ∷ 7 ∷ []) ∷ []

exchange-Linked_example :
    exchange toy_boxes 31 32 0 messages sender receiver ≡ some (1 ∷ 5 ∷ []) ∷ some (1 ∷ 7 ∷ []) ∷ []
unfolding arrivals
exchange-Linked_example =
    exchange-Linked toy_boxes 31 32 0 messages sender receiver linked (omega arith)

abbrev packet : List ℕ
packet = (encrypt toy_boxes 33 sender (1 ∷ 5 ∷ [])).1

abbrev after : Session
after = (decrypt toy_boxes 0 34 receiver packet).0

packet_opened : (decrypt toy_boxes 0 34 receiver packet).1 ≡ some (1 ∷ 5 ∷ [])
unfolding decrypt encrypt append_uvarint box_seal be_bytes starts_with read_uvarint box_open
packet_opened = refl

abbrev next_packet : List ℕ
next_packet = (encrypt toy_boxes 36 (encrypt toy_boxes 33 sender (1 ∷ 5 ∷ [])).0 (1 ∷ 6 ∷ [])).1

abbrev lks_of : Option (ℕ × ℕ × ℕ × List ℕ) → ℕ
lks_of (some h) = h.1
lks_of none = 0

packets-AreAligned : AreAligned packet next_packet
unfolding encrypt append_uvarint box_seal be_bytes read_header read_uvarint
packets-AreAligned rks lks lks' nonce nonce' body body' e f = sym (ap lks_of f) ∙ ap lks_of e

-- The receiver sends a payload and then gets the next packet.
abbrev much_later : Session
much_later = (decrypt toy_boxes 20 37 (encrypt toy_boxes 38 after (1 ∷ [])).0 next_packet).0

meanwhile : After toy_boxes packet after 2 much_later
unfolding decrypt encrypt append_uvarint box_seal be_bytes starts_with read_uvarint box_open
    for_init
meanwhile =
    decrypts 1 (encrypt toy_boxes 38 after (1 ∷ [])).0 20 37 next_packet
      (λ opened. packets-AreAligned) (encrypts 0 after 38 (1 ∷ []) (omega arith) at_once)

next_packet_opened :
    (decrypt toy_boxes 20 37 (encrypt toy_boxes 38 after (1 ∷ [])).0 next_packet).1
    ≡ some (1 ∷ 6 ∷ [])
unfolding decrypt encrypt append_uvarint box_seal be_bytes starts_with read_uvarint box_open
    for_init
next_packet_opened = refl

decrypt-After_example : decrypt toy_boxes 50 35 much_later packet ≡ (much_later, none)
decrypt-After_example =
    decrypt-After toy_boxes receiver much_later packet (1 ∷ 5 ∷ []) 0 34 50 35 2 packet_opened
      meanwhile (omega arith)

-- A peer that has changed its keys, and a session that takes its message in under the next keys,
-- less than a minute after its own keys were rotated.
abbrev ahead : Session
ahead = record begun {
  local_key_seq = 2;
  remote_key_seq = 2;
  send = record { public = 51; secret = 51 };
  send_shared = 73;
  send_nonce = 4;
}

abbrev not_due : Session
not_due = record begun {
  next = 51;
  local_key_seq = 2;
  remote_key_seq = 1;
  next_send_shared = 73;
  rotated_at = some 0;
}

abbrev early_packet : List ℕ
early_packet = (encrypt toy_boxes 61 ahead (1 ∷ 5 ∷ [])).1

early_packet_opened : (decrypt toy_boxes 10 62 not_due early_packet).1 ≡ some (1 ∷ 5 ∷ [])
unfolding decrypt encrypt append_uvarint box_seal be_bytes starts_with read_uvarint box_open
    for_init
early_packet_opened = refl

-- An init of the peer makes those keys the current ones and sets the nonces back.
early_packet_again :
    let taken = (decrypt toy_boxes 10 62 not_due early_packet).0 in
    let updated = (handle_init toy_boxes 63 (make_init ahead 200) 7 taken).0 in
    (decrypt toy_boxes 20 64 updated early_packet).1 ≡ some (1 ∷ 5 ∷ [])
unfolding decrypt encrypt append_uvarint box_seal be_bytes starts_with read_uvarint box_open
    for_init handle_init make_init salsa_box
early_packet_again = refl

abbrev draws : Draws
draws = record {
  buffered_send = 101;
  buffered_next = 102;
  opener_start = (103, 104, 105);
  opener_update = 106;
  answerer_start = (107, 108, 109);
  answerer_update = 110;
  answerer_later = 111;
}

opening-exchange_example :
    (a : Session) × (z : Session) × (opening toy_boxes draws 1000 900 1001 ≡ some (a, z))
    × (exchange toy_boxes 31 32 0 messages a z ≡ arrivals messages)
opening-exchange_example =
    opening-exchange toy_boxes draws 1000 900 1001 31 32 0 messages (omega arith) (omega arith)
      (omega arith) (omega arith) (omega arith) (omega arith)
