-- ===== src/Session/Replay.antt =====
-- A message that a session has decrypted is refused from then on.
use roots.Prelude.{
  ℕ, zero, suc, ◌+◌, ◌-◌, ◌^◌, ◌<◌, ◌≡◌, ◌≢◌, refl, sym, ap, subst, ◌∙◌, ◌⊎◌, inl, inr, Option,
  none, some, List, arith, length, ltb, drop, take, Bool-cases, not, ◌||◌, Option-cases,
}
use roots.Prelude.Bytes.{of_be}
use roots.Session.Init.{starts_with}
use roots.Session.Boxes.{Boxes, box_open}
use roots.Session.Keys.{
  Session, Case, encrypt, decrypt, read_header, case_of, open_body, note_nonce, shared_of,
}
use roots.Session.Sequence.{decrypt-cases}
use roots.Session.Spent.{
  Spent, case_of-Spent, Guards, case_of-Guards, note_nonce-Spent, note_nonce-keeps,
  count_send-keeps, Spent-kept,
}

-- If both messages name the same key sequence of their sender, they name the same one of the
-- receiver.
abbrev pub AreAligned : List ℕ → List ℕ → Type 0
AreAligned left right =
    (rks lks lks' nonce nonce' : ℕ) (body body' : List ℕ)
    → read_header (drop 1 left) ≡ some (rks, lks, nonce, body)
    → read_header (drop 1 right) ≡ some (rks, lks', nonce', body')
    → lks' ≡ lks

module _ (b : Boxes) where
  -- What is done with a session `s` after a message, in a number of turns: payloads are sealed, as
  -- long as the send nonce does not wrap, and messages of any kind and order are received, of
  -- which those that are opened are aligned with the message.
  pub data After (msg : List ℕ) (s : Session) : ℕ → Session → Type 0 where
    at_once : After msg s zero s
    encrypts :
        (turns : ℕ) (t : Session) (fresh : ℕ) (payload : List ℕ)
        → t.send_nonce + 1 < 2 ^ 64
        → After msg s turns t
        → After msg s (suc turns) (encrypt b fresh t payload).0
    decrypts :
        (turns : ℕ) (t : Session) (now fresh : ℕ) (other : List ℕ)
        → ((decrypt b now fresh t other).1 ≢ none → AreAligned msg other)
        → After msg s turns t
        → After msg s (suc turns) (decrypt b now fresh t other).0

  decrypt_unknown :
      (now fresh : ℕ) (s : Session) (msg : List ℕ) (rks lks nonce : ℕ) (body : List ℕ)
      → read_header (drop 1 msg) ≡ some (rks, lks, nonce, body)
      → case_of s rks lks nonce ≡ none
      → decrypt b now fresh s msg ≡ (s, none)
  unfolding decrypt
  decrypt_unknown now fresh s msg rks lks nonce body h g =
      elim (Bool-cases (ltb (length msg) 52 || not (starts_with 3 msg))) [
        | inl e ↦ rw (decrypt, e) refl
        | inr e ↦ rw (decrypt, e, h, g) refl
      ]

  -- What `decrypt` did with a message: one that is not opened changes nothing, and one that is has
  -- passed the guards of a case.
  pub data Outcome (now fresh : ℕ) (t : Session) (msg : List ℕ) : Type 0 where
    shut : decrypt b now fresh t msg ≡ (t, none) → Outcome now fresh t msg
    opened :
        (rks lks nonce key : ℕ) (body : List ℕ) (which : Case)
        → read_header (drop 1 msg) ≡ some (rks, lks, nonce, body)
        → Guards t rks lks nonce which
        → (decrypt b now fresh t msg).1 ≢ none
        → (decrypt b now fresh t msg).0 ≡ note_nonce b now fresh key nonce t which
        → Outcome now fresh t msg

  open_body_outcome :
      (now fresh : ℕ) (t : Session) (nonce : ℕ) (body : List ℕ) (which : Case)
      → (open_body b now fresh t nonce body which ≡ (t, none))
        ⊎ ((key : ℕ) × (payload : List ℕ) × (open_body b now fresh t nonce body which
              ≡ (note_nonce b now fresh key nonce t which, some payload)))
  unfolding open_body
  open_body_outcome now fresh t nonce body which =
      elim (Option-cases (box_open b (shared_of t which) nonce body)) [
        | inl e ↦ inl (rw (open_body, e) refl)
        | inr (bytes, e) ↦ elim (Bool-cases (ltb (length bytes) 32)) [
          | inl f ↦ inl (rw (open_body, e, f) refl)
          | inr f ↦ inr (of_be (take 32 bytes), drop 32 bytes, rw (open_body, e, f) refl)
        ]
      ]

  pub decrypt_outcome : (now fresh : ℕ) (t : Session) (msg : List ℕ) → Outcome now fresh t msg
  decrypt_outcome now fresh t msg = elim (decrypt-cases b now fresh t msg) [
    | inl e ↦ shut e
    | inr (rks, lks, nonce, body, which, f, g, e) ↦
        elim (open_body_outcome now fresh t nonce body which) [
          | inl h ↦ shut (e ∙ h)
          | inr (key, payload, h) ↦
              opened rks lks nonce key body which f (case_of-Guards t rks lks nonce which g)
                (λ n. some_none (sym (ap (λ (r : Session × Option (List ℕ)). r.1) (e ∙ h)) ∙ n))
                (ap (λ (r : Session × Option (List ℕ)). r.0) (e ∙ h))
        ]
  ]
    where
      some_none : {x : List ℕ} → some x ≡ none → ⊥
      some_none e = cc

  module _ (msg : List ℕ) (rks lks nonce : ℕ) (body : List ℕ)
      (header : read_header (drop 1 msg) ≡ some (rks, lks, nonce, body)) where
    After-Spent :
        {s t : Session} {turns : ℕ}
        → Spent rks lks nonce s 0
        → After msg s turns t
        → Spent rks lks nonce t turns
    unfolding encrypt
    After-Spent start at_once = start
    After-Spent start (encrypts turns t fresh payload room steps) =
        count_send-keeps rks lks nonce b fresh t turns room (After-Spent start steps)
    After-Spent start (decrypts turns t now fresh other aligned steps) =
        elim (decrypt_outcome now fresh t other) [
          | shut e ↦
              subst (λ u. Spent rks lks nonce u (suc turns))
                (sym (ap (λ (r : Session × Option (List ℕ)). r.0) e))
                (Spent-kept rks lks nonce t t turns refl refl (omega arith) (omega arith)
                  (omega arith) (After-Spent start steps))
          | opened rks' lks' nonce' key body' which f g o e ↦
              subst (λ u. Spent rks lks nonce u (suc turns)) (sym e)
                (note_nonce-keeps rks lks nonce b now fresh key t turns rks' lks' nonce' which g
                  (λ same.
                    aligned o rks lks lks' nonce nonce' body body' header
                      (f ∙ ap (λ r. some (r, lks', nonce', body')) (sym same)))
                  (After-Spent start steps))
        ]

  -- A message that a session has decrypted is refused when it comes again, and leaves the session as
  -- it was: at whatever time, and whatever payloads the session sealed and messages it received in
  -- between, in whatever order and whether or not its keys were rotated. It handled no init or ack
  -- in between, its send nonce did not wrap, those messages number fewer than 2^64 - 1, and those of
  -- them that it opened are aligned with the first: under the same key sequence of the sender they
  -- name the same one of the receiver.
  pub decrypt-After :
      (s t : Session) (msg payload : List ℕ) (now fresh later fresh' turns : ℕ)
      → (decrypt b now fresh s msg).1 ≡ some payload
      → After msg (decrypt b now fresh s msg).0 turns t
      → turns < 2 ^ 64 - 1
      → decrypt b later fresh' t msg ≡ (t, none)
  decrypt-After s t msg payload now fresh later fresh' turns once steps few =
      elim (decrypt_outcome now fresh s msg) [
        | shut e ↦ absurd (none_some (sym (ap (λ (r : Session × Option (List ℕ)). r.1) e) ∙ once))
        | opened rks lks nonce key body which f g o e ↦
            decrypt_unknown later fresh' t msg rks lks nonce body f (
              case_of-Spent rks lks nonce t turns few (
                After-Spent msg rks lks nonce body f
                  (subst (λ u. Spent rks lks nonce u 0) (sym e)
                    (note_nonce-Spent b now fresh key s rks lks nonce which g))
                  steps))
      ]
    where
      none_some : {x : List ℕ} → none ≡ some x → ⊥
      none_some e = cc
