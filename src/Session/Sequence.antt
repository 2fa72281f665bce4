-- ===== src/Session/Sequence.antt =====
-- The sequence numbers of inits and acks: what was handled once is refused from then on.
use roots.Prelude.{
  ℕ, ◌≤◌, ◌<◌, ◌≡◌, refl, ap, ◌∙◌, ◌⊎◌, inl, inr, Bool, true, false, not, ◌||◌, Option, none, some,
  List, arith, length, ltb, ltb→lt, ltb→le, le→leb, lt→leb, if◌then◌else◌, Bool-cases, Option-cases,
  drop, take, ◌==◌,
}
use roots.Prelude.Bytes.{of_be}
use roots.Prelude.Words.{add64}
use roots.Session.Boxes.{Boxes, box_open}
use roots.Session.Init.{SessionInit, starts_with}
use roots.Session.Keys.{
  Session, KeyPair, Case, current_keys, next_send, next_recv, handle_init, handle_ack, apply_update,
  make_init, adopt_buffered, encrypt, count_send, decrypt, read_header, case_of, open_body,
  note_nonce, maybe_rotate, swap_keys, fix_shared, key_pair, is_due, shared_of,
}

leb_cases : (a b : ℕ) → (a ≤ b) ⊎ (b < a)
leb_cases a b = elim (Bool-cases (ltb b a)) [
  | inl e ↦ inr (ltb→lt b a e)
  | inr e ↦ inl (ltb→le b a e)
]

seq_if : (t : Bool) (x y : Session) (n : ℕ) → x.seq ≡ n → y.seq ≡ n → (if t then x else y).seq ≡ n
seq_if true x y n h k = h
seq_if false x y n h k = k

module _ (b : Boxes) where
  -- What is done with a session.
  pub data Steps (s : Session) : Session → Type 0 where
    stays : Steps s s
    inits :
        (s' : Session) (fresh : ℕ) (i : SessionInit) (ack_seq : ℕ)
        → Steps s s'
        → Steps s (handle_init b fresh i ack_seq s').0
    acks :
        (s' : Session) (fresh : ℕ) (i : SessionInit)
        → Steps s s'
        → Steps s (handle_ack b fresh i s')
    adopts :
        (s' : Session) (send next : KeyPair) → Steps s s' → Steps s (adopt_buffered b send next s')
    encrypts :
        (s' : Session) (fresh : ℕ) (msg : List ℕ) → Steps s s' → Steps s (encrypt b fresh s' msg).0
    decrypts :
        (s' : Session) (now fresh : ℕ) (msg : List ℕ)
        → Steps s s'
        → Steps s (decrypt b now fresh s' msg).0

  module _ (fresh : ℕ) (i : SessionInit) (s : Session) where
    init_refused : (n : ℕ) → i.seq ≤ s.seq → handle_init b fresh i n s ≡ (s, none)
    unfolding handle_init
    init_refused n h = rw (handle_init, le→leb i.seq s.seq h) refl

    pub init_accepted :
        (n : ℕ)
        → s.seq < i.seq
        → handle_init b fresh i n s
          ≡ (apply_update b fresh i s, some (make_init (apply_update b fresh i s) n))
    unfolding handle_init
    init_accepted n h = rw (handle_init, lt→leb i.seq s.seq h) refl

    ack_refused : i.seq ≤ s.seq → handle_ack b fresh i s ≡ s
    unfolding handle_ack
    ack_refused h = rw (handle_ack, le→leb i.seq s.seq h) refl

    pub ack_accepted : s.seq < i.seq → handle_ack b fresh i s ≡ apply_update b fresh i s
    unfolding handle_ack
    ack_accepted h = rw (handle_ack, lt→leb i.seq s.seq h) refl

    seq-apply_update : (apply_update b fresh i s).seq ≡ i.seq
    unfolding apply_update fix_shared swap_keys
    seq-apply_update = refl

  -- The session's number after an init is the larger of the two.
  seq-handle_init :
      (fresh : ℕ) (i : SessionInit) (n : ℕ) (s : Session)
      → (s.seq ≤ (handle_init b fresh i n s).0.seq) × (i.seq ≤ (handle_init b fresh i n s).0.seq)
  seq-handle_init fresh i n s = elim (leb_cases i.seq s.seq) [
    | inl h ↦
        let e = ap (λ (r : Session × Option SessionInit). r.0.seq) (init_refused fresh i s n h) in
        (omega (arith, e), omega (arith, e))
    | inr h ↦
        let e = ap (λ (r : Session × Option SessionInit). r.0.seq) (init_accepted fresh i s n h) in
        let e' = seq-apply_update fresh i s in (omega (arith, e, e'), omega (arith, e, e'))
  ]

  seq-handle_ack :
      (fresh : ℕ) (i : SessionInit) (s : Session) → s.seq ≤ (handle_ack b fresh i s).seq
  seq-handle_ack fresh i s = elim (leb_cases i.seq s.seq) [
    | inl h ↦ omega (arith, ap (λ (r : Session). r.seq) (ack_refused fresh i s h))
    | inr h ↦
        omega (
          arith,
          ap (λ (r : Session). r.seq) (ack_accepted fresh i s h),
          seq-apply_update fresh i s,
        )
  ]

  seq-count_send : (fresh : ℕ) (s : Session) → (count_send b fresh s).seq ≡ s.seq
  unfolding count_send swap_keys fix_shared
  seq-count_send fresh s =
      let s1 = record s { send_nonce = add64 s.send_nonce 1 } in
      seq_if (s1.send_nonce == 0) (fix_shared b 0 0 (swap_keys (key_pair b fresh) s1)) s1 s.seq refl
        refl

  seq-encrypt : (fresh : ℕ) (s : Session) (msg : List ℕ) → (encrypt b fresh s msg).0.seq ≡ s.seq
  unfolding encrypt
  seq-encrypt fresh s msg = seq-count_send fresh s

  seq-adopt_buffered :
      (send next : KeyPair) (s : Session) → (adopt_buffered b send next s).seq ≡ s.seq
  unfolding adopt_buffered fix_shared
  seq-adopt_buffered send next s = refl

  seq-maybe_rotate :
      (now fresh key nonce : ℕ) (s : Session) → (maybe_rotate b now fresh key nonce s).seq ≡ s.seq
  unfolding maybe_rotate swap_keys fix_shared
  seq-maybe_rotate now fresh key nonce s =
      seq_if (not (is_due now s.rotated_at)) s _ s.seq refl refl

  seq-note_nonce :
      (now fresh key nonce : ℕ) (s : Session) (which : Case)
      → (note_nonce b now fresh key nonce s which).seq ≡ s.seq
  unfolding note_nonce
  seq-note_nonce now fresh key nonce s current_keys = refl
  seq-note_nonce now fresh key nonce s next_send =
      seq-maybe_rotate now fresh key nonce (record s { next_send_nonce = nonce })
  seq-note_nonce now fresh key nonce s next_recv =
      seq-maybe_rotate now fresh key nonce (record s { next_recv_nonce = nonce })

  seq-open_body :
      (now fresh : ℕ) (s : Session) (nonce : ℕ) (body : List ℕ) (which : Case)
      → (open_body b now fresh s nonce body which).0.seq ≡ s.seq
  unfolding open_body
  seq-open_body now fresh s nonce body which =
      elim (Option-cases (box_open b (shared_of s which) nonce body)) [
        | inl e ↦ rw (open_body, e) refl
        | inr (opened, e) ↦ elim (Bool-cases (ltb (length opened) 32)) [
          | inl f ↦ rw (open_body, e, f) refl
          | inr f ↦
              rw (open_body, e, f) (seq-note_nonce now fresh (of_be (take 32 opened)) nonce s which)
        ]
      ]

  -- Past its checks, a message is opened; else nothing changes.
  pub decrypt-cases :
      (now fresh : ℕ) (s : Session) (msg : List ℕ)
      → (decrypt b now fresh s msg ≡ (s, none))
        ⊎ ((rks lks nonce : ℕ) × (body : List ℕ) × (which : Case) × (read_header (drop 1 msg)
              ≡ some (rks, lks, nonce, body))
            × (case_of s rks lks nonce ≡ some which)
            × (decrypt b now fresh s msg ≡ open_body b now fresh s nonce body which))
  unfolding decrypt
  decrypt-cases now fresh s msg =
      elim (Bool-cases (ltb (length msg) 52 || not (starts_with 3 msg))) [
        | inl e ↦ inl (rw (decrypt, e) refl)
        | inr e ↦ elim (Option-cases (read_header (drop 1 msg))) [
          | inl f ↦ inl (rw (decrypt, e, f) refl)
          | inr ((rks, lks, nonce, body), f) ↦ elim (Option-cases (case_of s rks lks nonce)) [
            | inl g ↦ inl (rw (decrypt, e, f, g) refl)
            | inr (which, g) ↦ inr (rks, lks, nonce, body, which, f, g, rw (decrypt, e, f, g) refl)
          ]
        ]
      ]

  seq-decrypt :
      (now fresh : ℕ) (s : Session) (msg : List ℕ) → (decrypt b now fresh s msg).0.seq ≡ s.seq
  seq-decrypt now fresh s msg = elim (decrypt-cases now fresh s msg) [
    | inl e ↦ ap (λ (r : Session × Option (List ℕ)). r.0.seq) e
    | inr (rks, lks, nonce, body, which, f, g, e) ↦
        ap (λ (r : Session × Option (List ℕ)). r.0.seq) e
        ∙ seq-open_body now fresh s nonce body which
  ]

  seq-Steps : {s s' : Session} → Steps s s' → s.seq ≤ s'.seq
  seq-Steps stays = omega arith
  seq-Steps (inits s' fresh i n h) = omega (arith, seq-Steps h, (seq-handle_init fresh i n s').0)
  seq-Steps (acks s' fresh i h) = omega (arith, seq-Steps h, seq-handle_ack fresh i s')
  seq-Steps (adopts s' send next h) = omega (arith, seq-Steps h, seq-adopt_buffered send next s')
  seq-Steps (encrypts s' fresh msg h) = omega (arith, seq-Steps h, seq-encrypt fresh s' msg)
  seq-Steps (decrypts s' now fresh msg h) = omega (arith, seq-Steps h, seq-decrypt now fresh s' msg)

  -- Once a session has handled an init, accepted or not, then whatever inits and acks it handles and
  -- whatever it encrypts and decrypts, the same init is refused and so is an ack of its number or a
  -- lower one: neither changes the session, and no ack is sent.
  pub handle_init-Steps :
      (s s' : Session) (fresh fresh' : ℕ) (i late : SessionInit) (n n' : ℕ)
      → late.seq ≤ i.seq
      → Steps (handle_init b fresh i n s).0 s'
      → (handle_init b fresh' late n' s' ≡ (s', none)) × (handle_ack b fresh' late s' ≡ s')
  handle_init-Steps s s' fresh fresh' i late n n' old steps =
      let low : late.seq ≤ s'.seq =
        omega (arith, (seq-handle_init fresh i n s).1, seq-Steps steps) in
      (init_refused fresh' late s' n' low, ack_refused fresh' late s' low)
