-- ===== src/Session/Stream.antt =====
-- A stream of messages from one session to the session it is linked with.
use roots.Prelude.{
  ℕ, ◌+◌, ◌^◌, ◌≤◌, ◌<◌, ◌≡◌, refl, ap, ◌∙◌, Bool, true, false, Option, some, List, [], ◌∷◌, arith,
  length, ◌==◌, if◌then◌else◌,
}
use roots.Prelude.Words.{add64}
use roots.Wire.Fields.{IsU64}
use roots.Session.Boxes.{Boxes}
use roots.Session.Keys.{
  Session, shared_of, current_keys, encrypt, count_send, seal_traffic, decrypt, case_of, note_nonce,
}
use roots.Session.Delivery.{seal_traffic-header, decrypt-header}

-- What `a` encrypts, `z` decrypts with its current keys.
pub record Linked (a z : Session) : Type 0 where
  pub in_step : a.local_key_seq ≡ z.remote_key_seq
  pub acked : add64 a.remote_key_seq 1 ≡ z.local_key_seq
  pub one_secret : z.recv_shared ≡ a.send_shared
  pub behind : z.recv_nonce ≤ a.send_nonce
  pub local_u64 : IsU64 a.local_key_seq
  pub remote_u64 : IsU64 a.remote_key_seq

-- Each message is encrypted by `a`; those that arrive are decrypted by `z`.
unfoldable pub exchange :
    Boxes → ℕ → ℕ → ℕ → List (Bool × List ℕ) → Session → Session → List (Option (List ℕ))
exchange b fresh fresh' now [] a z = []
exchange b fresh fresh' now ((true, msg) ∷ rest) a z =
    let sent = encrypt b fresh a msg in
    let got = decrypt b now fresh' z sent.1 in got.1 ∷ exchange b fresh fresh' now rest sent.0 got.0
exchange b fresh fresh' now ((false, msg) ∷ rest) a z =
    exchange b fresh fresh' now rest (encrypt b fresh a msg).0 z

-- The messages that arrive, in order.
unfoldable pub arrivals : List (Bool × List ℕ) → List (Option (List ℕ))
arrivals [] = []
arrivals ((true, msg) ∷ rest) = some msg ∷ arrivals rest
arrivals ((false, msg) ∷ rest) = arrivals rest

else_branch {ℓ} : {A : Type ℓ} (t : Bool) (x y : A) → t ≡ false → (if t then x else y) ≡ y
else_branch t x y e = rw e refl

module _ (b : Boxes) where
  abbrev sends : Session → Session
  sends a = record a { send_nonce = a.send_nonce + 1 }

  count_send-plain :
      (fresh : ℕ) (a : Session) → a.send_nonce + 1 < 2 ^ 64 → count_send b fresh a ≡ sends a
  unfolding count_send
  count_send-plain fresh a h =
      else_branch (add64 a.send_nonce 1 == 0) _ (record a { send_nonce = add64 a.send_nonce 1 })
        (ground arith)
      ∙ (λ i. record a { send_nonce = plain i })
    where
      plain : add64 a.send_nonce 1 ≡ a.send_nonce + 1
      plain = omega arith

  encrypt-plain :
      (fresh : ℕ) (a : Session) (msg : List ℕ)
      → a.send_nonce + 1 < 2 ^ 64
      → encrypt b fresh a msg ≡ (sends a, seal_traffic b (sends a) msg)
  unfolding encrypt
  encrypt-plain fresh a msg h = ap (λ s. (s, seal_traffic b s msg)) (count_send-plain fresh a h)

  module _ (a z : Session) (link : Linked a z) (room : a.send_nonce + 1 < 2 ^ 64) where
    case_of-Linked :
        case_of z a.local_key_seq a.remote_key_seq (a.send_nonce + 1) ≡ some current_keys
    unfolding case_of
    case_of-Linked = ground (arith, link.in_step, link.acked, link.behind)

    decrypt-Linked :
        (now fresh : ℕ) (msg : List ℕ)
        → decrypt b now fresh z (seal_traffic b (sends a) msg)
          ≡ (record z { recv_nonce = a.send_nonce + 1 }, some msg)
    unfolding note_nonce shared_of
    decrypt-Linked now fresh msg =
        ap (decrypt b now fresh z) (seal_traffic-header b (sends a) msg)
        ∙ decrypt-header b now fresh z a.local_key_seq a.remote_key_seq (a.send_nonce + 1)
            a.send_shared a.next_pair.public msg current_keys link.local_u64 link.remote_u64 room
            case_of-Linked link.one_secret

    Linked-sent : Linked (sends a) z
    Linked-sent = record {
      in_step = link.in_step;
      acked = link.acked;
      one_secret = link.one_secret;
      behind = omega (arith, link.behind);
      local_u64 = link.local_u64;
      remote_u64 = link.remote_u64;
    }

    Linked-got : Linked (sends a) (record z { recv_nonce = a.send_nonce + 1 })
    Linked-got = record {
      in_step = link.in_step;
      acked = link.acked;
      one_secret = link.one_secret;
      behind = omega arith;
      local_u64 = link.local_u64;
      remote_u64 = link.remote_u64;
    }

  -- Of two linked sessions, whatever the one encrypts and whichever of the messages are lost on the
  -- way, the other decrypts exactly those that arrive, each to what it was, as long as the sender's
  -- nonces do not run out.
  pub exchange-Linked :
      (fresh fresh' now : ℕ) (msgs : List (Bool × List ℕ)) (a z : Session)
      → Linked a z
      → a.send_nonce + length msgs < 2 ^ 64
      → exchange b fresh fresh' now msgs a z ≡ arrivals msgs
  unfolding exchange arrivals
  exchange-Linked fresh fresh' now [] a z link room = refl
  exchange-Linked fresh fresh' now ((true, msg) ∷ rest) a z link room =
      let here : a.send_nonce + 1 < 2 ^ 64 = omega arith in
      let z' = record z { recv_nonce = a.send_nonce + 1 } in
      let sent = encrypt-plain fresh a msg here in
      let got =
        ap (decrypt b now fresh' z) (ap (λ r. r.1) sent)
        ∙ decrypt-Linked a z link here now fresh' msg in
      (λ i. (got i).1 ∷ exchange b fresh fresh' now rest (sent i).0 (got i).0)
      ∙ ap (◌∷◌ (some msg)) (
          exchange-Linked fresh fresh' now rest (sends a) z' (Linked-got a z link here)
            (omega arith))
  exchange-Linked fresh fresh' now ((false, msg) ∷ rest) a z link room =
      let here : a.send_nonce + 1 < 2 ^ 64 = omega arith in
      ap (λ r. exchange b fresh fresh' now rest r.0 z) (encrypt-plain fresh a msg here)
      ∙ exchange-Linked fresh fresh' now rest (sends a) z (Linked-sent a z link here) (omega arith)
