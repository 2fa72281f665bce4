-- ===== src/Session/Aligned.antt =====
-- The key sequences in the messages of an honest sender.
use roots.Prelude.{
  ℕ, zero, suc, ◌^◌, ◌≤◌, ◌<◌, ◌≡◌, refl, sym, ap, subst, ◌∙◌, inl, inr, Bool, true, false, Option,
  some, List, ◌++◌, arith, drop, Bool-cases, not, ◌==◌, leb, if◌then◌else◌,
}
use roots.Prelude.Words.{add64}
use roots.Wire.Fields.{IsU64}
use roots.Prelude.Bytes.{be_bytes}
use roots.Session.Boxes.{Boxes, box_seal}
use roots.Session.Init.{SessionInit}
use roots.Session.Keys.{
  Session, handle_init, handle_ack, apply_update, Case, current_keys, next_send, next_recv, is_due,
  encrypt, count_send, seal_traffic, decrypt, read_header, maybe_rotate, note_nonce, swap_keys,
  fix_shared,
}
use roots.Session.Delivery.{seal_traffic-header, read_header-header}
use roots.Session.Replay.{AreAligned, shut, opened, decrypt_outcome}

-- Two moments of a session: its own key sequence has gone on by some steps, or neither has changed.
pub data Moved (s t : Session) (turns : ℕ) : Type 0 where
  rests : t.local_key_seq ≡ s.local_key_seq → t.remote_key_seq ≡ s.remote_key_seq → Moved s t turns
  steps :
      (by : ℕ) → t.local_key_seq ≡ add64 s.local_key_seq by → 1 ≤ by → by ≤ turns → Moved s t turns

Moved-rests :
    (s t u : Session) (turns : ℕ)
    → u.local_key_seq ≡ t.local_key_seq
    → u.remote_key_seq ≡ t.remote_key_seq
    → Moved s t turns
    → Moved s u (suc turns)
Moved-rests s t u turns l r (rests e f) = rests (l ∙ e) (r ∙ f)
Moved-rests s t u turns l r (steps by e f g) = steps by (l ∙ e) f (omega arith)

Moved-steps :
    (s t u : Session) (turns : ℕ)
    → u.local_key_seq ≡ add64 t.local_key_seq 1
    → Moved s t turns
    → Moved s u (suc turns)
Moved-steps s t u turns l (rests e f) =
    steps 1 (l ∙ ap (λ k. add64 k 1) e) (omega arith) (omega arith)
Moved-steps s t u turns l (steps by e f g) =
    steps (suc by) (omega arith) (omega arith) (omega arith)

Moved-if :
    (s u v : Session) (c : Bool) (turns : ℕ)
    → Moved s u turns
    → Moved s v turns
    → Moved s (if c then u else v) turns
Moved-if s u v true turns m n = m
Moved-if s u v false turns m n = n

module _ (b : Boxes) (s : Session) where
  count_send-Moved :
      (fresh turns : ℕ) (t : Session) → Moved s t turns → Moved s (count_send b fresh t) (suc turns)
  unfolding count_send swap_keys fix_shared
  count_send-Moved fresh turns t m =
      Moved-if s _ _ (add64 t.send_nonce 1 == 0) (suc turns) (Moved-steps s t _ turns refl m)
        (Moved-rests s t _ turns refl refl m)

  handle_init-Moved :
      (fresh turns : ℕ) (i : SessionInit) (ack_seq : ℕ) (t : Session)
      → Moved s t turns
      → Moved s (handle_init b fresh i ack_seq t).0 (suc turns)
  unfolding handle_init apply_update swap_keys fix_shared
  handle_init-Moved fresh turns i ack_seq t m = elim (Bool-cases (leb i.seq t.seq)) [
    | inl e ↦ rw (handle_init, e) (Moved-rests s t t turns refl refl m)
    | inr e ↦ rw (handle_init, e) (Moved-steps s t (apply_update b fresh i t) turns refl m)
  ]

  handle_ack-Moved :
      (fresh turns : ℕ) (i : SessionInit) (t : Session)
      → Moved s t turns
      → Moved s (handle_ack b fresh i t) (suc turns)
  unfolding handle_ack apply_update swap_keys fix_shared
  handle_ack-Moved fresh turns i t m =
      Moved-if s _ _ (leb i.seq t.seq) (suc turns) (Moved-rests s t t turns refl refl m)
        (Moved-steps s t (apply_update b fresh i t) turns refl m)

  maybe_rotate-Moved :
      (now fresh key nonce turns : ℕ) (t : Session)
      → Moved s t turns
      → Moved s (maybe_rotate b now fresh key nonce t) (suc turns)
  unfolding maybe_rotate swap_keys fix_shared
  maybe_rotate-Moved now fresh key nonce turns t m =
      Moved-if s _ _ (not (is_due now t.rotated_at)) (suc turns)
        (Moved-rests s t t turns refl refl m) (Moved-steps s t _ turns refl m)

  note_nonce-Moved :
      (now fresh key nonce turns : ℕ) (t : Session) (which : Case)
      → Moved s t turns
      → Moved s (note_nonce b now fresh key nonce t which) (suc turns)
  unfolding note_nonce
  note_nonce-Moved now fresh key nonce turns t current_keys m =
      Moved-rests s t (record t { recv_nonce = nonce }) turns refl refl m
  note_nonce-Moved now fresh key nonce turns t next_send m =
      maybe_rotate-Moved now fresh key nonce turns (record t { next_send_nonce = nonce }) (again m)
    where
      again : Moved s t turns → Moved s (record t { next_send_nonce = nonce }) turns
      again (rests e f) = rests e f
      again (steps by e f g) = steps by e f g
  note_nonce-Moved now fresh key nonce turns t next_recv m =
      maybe_rotate-Moved now fresh key nonce turns (record t { next_recv_nonce = nonce }) (again m)
    where
      again : Moved s t turns → Moved s (record t { next_recv_nonce = nonce }) turns
      again (rests e f) = rests e f
      again (steps by e f g) = steps by e f g

  decrypt-Moved :
      (now fresh turns : ℕ) (t : Session) (msg : List ℕ)
      → Moved s t turns
      → Moved s (decrypt b now fresh t msg).0 (suc turns)
  decrypt-Moved now fresh turns t msg m = elim (decrypt_outcome b now fresh t msg) [
    | shut e ↦
        subst (λ u. Moved s u (suc turns)) (sym (ap (λ (r : Session × Option (List ℕ)). r.0) e))
          (Moved-rests s t t turns refl refl m)
    | opened rks lks nonce key body which f g o e ↦
        subst (λ u. Moved s u (suc turns)) (sym e)
          (note_nonce-Moved now fresh key nonce turns t which m)
  ]

-- What is done with a session in a number of turns.
pub data Turns (b : Boxes) (s : Session) : ℕ → Session → Type 0 where
  at_first : Turns b s zero s
  inits :
      (turns : ℕ) (t : Session) (fresh : ℕ) (i : SessionInit) (ack_seq : ℕ)
      → Turns b s turns t
      → Turns b s (suc turns) (handle_init b fresh i ack_seq t).0
  acks :
      (turns : ℕ) (t : Session) (fresh : ℕ) (i : SessionInit)
      → Turns b s turns t
      → Turns b s (suc turns) (handle_ack b fresh i t)
  sends :
      (turns : ℕ) (t : Session) (fresh : ℕ) (msg : List ℕ)
      → Turns b s turns t
      → Turns b s (suc turns) (encrypt b fresh t msg).0
  receives :
      (turns : ℕ) (t : Session) (now fresh : ℕ) (msg : List ℕ)
      → Turns b s turns t
      → Turns b s (suc turns) (decrypt b now fresh t msg).0

Turns-Moved : (b : Boxes) {s t : Session} {turns : ℕ} → Turns b s turns t → Moved s t turns
unfolding encrypt
Turns-Moved b at_first = rests refl refl
Turns-Moved b {s} (inits turns t fresh i ack_seq h) =
    handle_init-Moved b s fresh turns i ack_seq t (Turns-Moved b h)
Turns-Moved b {s} (acks turns t fresh i h) = handle_ack-Moved b s fresh turns i t (Turns-Moved b h)
Turns-Moved b {s} (sends turns t fresh msg h) = count_send-Moved b s fresh turns t (Turns-Moved b h)
Turns-Moved b {s} (receives turns t now fresh msg h) =
    decrypt-Moved b s now fresh turns t msg (Turns-Moved b h)

-- The fields of a session that its messages carry fit 64 bits.
pub record Fits (s : Session) : Type 0 where
  pub local_u64 : IsU64 s.local_key_seq
  pub remote_u64 : IsU64 s.remote_key_seq
  pub nonce_u64 : IsU64 s.send_nonce

-- Fewer than 2^64 turns apart, an own key sequence that is the same is of the same remote one.
same_remote :
    (s t : Session) (turns : ℕ)
    → turns < 2 ^ 64
    → IsU64 s.local_key_seq
    → Moved s t turns
    → t.local_key_seq ≡ s.local_key_seq
    → t.remote_key_seq ≡ s.remote_key_seq
same_remote s t turns few fits (rests e f) same = f
same_remote s t turns few fits (steps by e f g) same = absurd (omega arith)

-- What is read at the front of a message is what its sender wrote there.
named :
    (b : Boxes) (s : Session) (msg : List ℕ) (l r n : ℕ) (body : List ℕ)
    → Fits s
    → read_header (drop 1 (seal_traffic b s msg)) ≡ some (l, r, n, body)
    → (l ≡ s.local_key_seq) × (r ≡ s.remote_key_seq)
named b s msg l r n body u e =
    let sealed = box_seal b s.send_shared s.send_nonce (be_bytes 32 s.next_pair.public ++ msg) in
    let h =
      read_header-header s.local_key_seq s.remote_key_seq s.send_nonce sealed u.local_u64
        u.remote_u64 u.nonce_u64 in
    let both = sym e ∙ ap (λ bytes. read_header (drop 1 bytes)) (seal_traffic-header b s msg) ∙ h in
    (cc both, cc both)

-- The messages that a session seals, fewer than 2^64 turns apart, are aligned, whatever inits, acks
-- and messages it handles and whatever payloads it seals in between.
pub seal_traffic-AreAligned :
    (b : Boxes) (s t : Session) (turns : ℕ) (left right : List ℕ)
    → Fits s
    → Fits t
    → turns < 2 ^ 64
    → Turns b s turns t
    → AreAligned (seal_traffic b s left) (seal_traffic b t right)
seal_traffic-AreAligned b s t turns left right u v few moves rks lks lks' n n' body body' e f =
    let at = named b s left rks lks n body u e in
    let later = named b t right rks lks' n' body' v f in
    later.1
    ∙ same_remote s t turns few u.local_u64 (Turns-Moved b moves) (sym later.0 ∙ at.0)
    ∙ sym at.1
