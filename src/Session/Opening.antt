-- ===== src/Session/Opening.antt =====
-- The opening of a session: an init, the ack that answers it, and the ack of that.
use roots.Prelude.{ℕ, ◌^◌, ◌≤◌, ◌<◌, ◌≡◌, refl, Bool, Option, none, some, List, arith, length}
use roots.Wire.Fields.{IsU64}
use roots.Prelude.Words.{sub64}
use roots.Session.Boxes.{Boxes, salsa_box}
use roots.Session.Init.{SessionInit}
use roots.Session.Keys.{
  Session, for_init, adopt_buffered, handle_init, handle_ack, apply_update, make_init, swap_keys,
  fix_shared, key_pair,
}
use roots.Session.Sequence.{init_accepted, ack_accepted}
use roots.Session.Stream.{Linked, exchange, arrivals, exchange-Linked}

-- The keys that both ends draw: `send` and `next` of the opener's buffer, the three that a session
-- begins with, and one for each update.
pub record Draws : Type 0 where
  pub buffered_send : ℕ
  pub buffered_next : ℕ
  pub opener_start : ℕ × ℕ × ℕ
  pub opener_update : ℕ
  pub answerer_start : ℕ × ℕ × ℕ
  pub answerer_update : ℕ
  pub answerer_later : ℕ

module _ (b : Boxes) (d : Draws) (seq ack_seq back_seq : ℕ) where
  -- The init of a `SessionBuf`
  abbrev opener_init : SessionInit
  opener_init = record {
    current = b.box_public d.buffered_send;
    next = b.box_public d.buffered_next;
    key_seq = 0;
    seq = seq;
  }

  abbrev start : ℕ × ℕ × ℕ → SessionInit → Session
  start draws i = for_init b i draws.0 draws.1 draws.2

  -- A session that takes over the keys of the buffer.
  abbrev resume : SessionInit → Session
  resume ack =
      adopt_buffered b (key_pair b d.buffered_send) (key_pair b d.buffered_next)
        (start d.opener_start ack)

  -- The opener's session and the answerer's after the three messages.
  unfoldable pub opening : Option (Session × Session)
  opening =
      let answer =
        handle_init b d.answerer_update opener_init ack_seq (start d.answerer_start opener_init) in
      elim answer.1 [
        | none ↦ none
        | some ack ↦
            let back = handle_init b d.opener_update ack back_seq (resume ack) in
            elim back.1 [
              | none ↦ none
              | some ack' ↦ some (back.0, handle_ack b d.answerer_later ack' answer.0)
            ]
      ]

  abbrev answerer : Session
  answerer = apply_update b d.answerer_update opener_init (start d.answerer_start opener_init)

  abbrev first_ack : SessionInit
  first_ack = make_init answerer ack_seq

  abbrev opener : Session
  opener = apply_update b d.opener_update first_ack (resume first_ack)

  abbrev last_ack : SessionInit
  last_ack = make_init opener back_seq

  seq-resume : (resume first_ack).seq ≡ sub64 ack_seq 1
  unfolding adopt_buffered fix_shared for_init make_init
  seq-resume = refl

  seq-start : (start d.answerer_start opener_init).seq ≡ sub64 seq 1
  unfolding for_init
  seq-start = refl

  seq-last_ack : last_ack.seq ≡ back_seq
  unfolding make_init
  seq-last_ack = refl

  seq-first_ack : first_ack.seq ≡ ack_seq
  unfolding make_init
  seq-first_ack = refl

  seq-answerer : answerer.seq ≡ seq
  unfolding apply_update swap_keys fix_shared
  seq-answerer = refl

  module _ (first : 1 ≤ seq) (fits : IsU64 seq) (answers : 1 ≤ ack_seq) (fits' : IsU64 ack_seq)
      (rises : seq < back_seq) where
    opening-sessions : opening ≡ some (opener, apply_update b d.answerer_later last_ack answerer)
    unfolding opening
    opening-sessions =
        let first_step =
          init_accepted b d.answerer_update opener_init (start d.answerer_start opener_init) ack_seq
            (omega (arith, seq-start)) in
        let second_step =
          init_accepted b d.opener_update first_ack (resume first_ack) back_seq
            (omega (arith, seq-resume, seq-first_ack)) in
        let third_step =
          ack_accepted b d.answerer_later last_ack answerer
            (omega (arith, seq-last_ack, seq-answerer)) in
        rw (opening, first_step, second_step, second_step, first_step, third_step) refl

  agreed : (x y : ℕ) → salsa_box b (b.box_public x) y ≡ salsa_box b (b.box_public y) x
  unfolding salsa_box
  agreed x y = b.precompute_comm x y

  Linked-opening : Linked opener (apply_update b d.answerer_later last_ack answerer)
  unfolding apply_update swap_keys fix_shared adopt_buffered for_init make_init
  Linked-opening = record {
    in_step = refl;
    acked = refl;
    one_secret = agreed d.buffered_next d.answerer_start.2;
    behind = omega arith;
    local_u64 = omega arith;
    remote_u64 = omega arith;
  }

  fresh_nonce : opener.send_nonce ≡ 0
  unfolding apply_update swap_keys fix_shared adopt_buffered for_init make_init
  fresh_nonce = refl

  -- An init with a sequence number from 1 on, answered by an ack with a number from 1 on, answered
  -- by an ack with a number above the init's, leaves both ends with a session; and of what the
  -- opener then encrypts, below 2 ^ 64 messages, the answerer decrypts exactly what arrives, each
  -- message to what it was, whatever keys are drawn.
  pub opening-exchange :
      (fresh fresh' now : ℕ) (msgs : List (Bool × List ℕ))
      → 1 ≤ seq
      → IsU64 seq
      → 1 ≤ ack_seq
      → IsU64 ack_seq
      → seq < back_seq
      → length msgs < 2 ^ 64
      → (a : Session) × (z : Session) × (opening ≡ some (a, z))
        × (exchange b fresh fresh' now msgs a z ≡ arrivals msgs)
  opening-exchange fresh fresh' now msgs first fits answers fits' rises room = (
    opener,
    apply_update b d.answerer_later last_ack answerer,
    opening-sessions first fits answers fits' rises,
    exchange-Linked b fresh fresh' now msgs opener
        (apply_update b d.answerer_later last_ack answerer) Linked-opening
        (omega (arith, fresh_nonce)),
  )
