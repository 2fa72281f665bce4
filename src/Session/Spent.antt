-- ===== src/Session/Spent.antt =====
-- A message that a session has decrypted, in all that the session sends and receives after it.
use roots.Prelude.{
  ℕ, suc, ◌+◌, ◌-◌, ◌^◌, ◌≤◌, ◌<◌, ◌≡◌, refl, sym, ap, subst, ◌∙◌, inl, inr, none, some, true,
  false, arith, Bool-cases, ◌==◌,
}
use roots.Prelude.Words.{add64}
use roots.Session.Boxes.{Boxes}
use roots.Session.Keys.{
  Session, Case, current_keys, next_send, next_recv, count_send, case_of, note_nonce, maybe_rotate,
  swap_keys, fix_shared, is_due,
}

module _ (b : Boxes) (now fresh key nonce : ℕ) (s : Session) where
  kept : is_due now s.rotated_at ≡ false → maybe_rotate b now fresh key nonce s ≡ s
  unfolding maybe_rotate
  kept e = rw (maybe_rotate, e) refl

  rotated :
      is_due now s.rotated_at ≡ true
      → ((maybe_rotate b now fresh key nonce s).remote_key_seq ≡ add64 s.remote_key_seq 1)
        × ((maybe_rotate b now fresh key nonce s).local_key_seq ≡ add64 s.local_key_seq 1)
        × ((maybe_rotate b now fresh key nonce s).recv_nonce ≡ nonce)
  unfolding maybe_rotate swap_keys fix_shared
  rotated e = rw (maybe_rotate, e) (refl, refl, refl)

-- Why a message with this header is refused, `turns` at most after it was decrypted.
pub data Spent (rks lks nonce : ℕ) (t : Session) (turns : ℕ) : Type 0 where
  used_current :
      rks ≡ t.remote_key_seq
      → add64 lks 1 ≡ t.local_key_seq
      → nonce ≤ t.recv_nonce
      → Spent rks lks nonce t turns
  used_next_send :
      rks ≡ add64 t.remote_key_seq 1
      → lks ≡ t.local_key_seq
      → nonce ≤ t.next_send_nonce
      → Spent rks lks nonce t turns
  used_next_recv :
      rks ≡ add64 t.remote_key_seq 1
      → add64 lks 1 ≡ t.local_key_seq
      → nonce ≤ t.next_recv_nonce
      → Spent rks lks nonce t turns
  -- Its keys were the next ones and became the current ones, under another number of ours.
  skipped :
      rks ≡ t.remote_key_seq → add64 (add64 lks 1) 1 ≡ t.local_key_seq → Spent rks lks nonce t turns
  -- The remote keys have gone on since.
  passed :
      (by : ℕ) → t.remote_key_seq ≡ add64 rks by → 1 ≤ by → by ≤ turns → Spent rks lks nonce t turns

pub case_of-Spent :
    (rks lks nonce : ℕ) (t : Session) (turns : ℕ)
    → turns < 2 ^ 64 - 1
    → Spent rks lks nonce t turns
    → case_of t rks lks nonce ≡ none
unfolding case_of
case_of-Spent rks lks nonce t turns few (used_current e f g) = ground arith
case_of-Spent rks lks nonce t turns few (used_next_send e f g) = ground arith
case_of-Spent rks lks nonce t turns few (used_next_recv e f g) = ground arith
case_of-Spent rks lks nonce t turns few (skipped e f) = ground arith
case_of-Spent rks lks nonce t turns few (passed by e f g) = ground arith

-- What the guards of a case say.
pub Guards : Session → ℕ → ℕ → ℕ → Case → Type 0
Guards t rks lks nonce current_keys =
    (rks ≡ t.remote_key_seq) × (add64 lks 1 ≡ t.local_key_seq) × (t.recv_nonce < nonce)
Guards t rks lks nonce next_send =
    (rks ≡ add64 t.remote_key_seq 1) × (lks ≡ t.local_key_seq) × (t.next_send_nonce < nonce)
Guards t rks lks nonce next_recv =
    (rks ≡ add64 t.remote_key_seq 1) × (add64 lks 1 ≡ t.local_key_seq) × (t.next_recv_nonce < nonce)

pub case_of-Guards :
    (t : Session) (rks lks nonce : ℕ) (which : Case)
    → case_of t rks lks nonce ≡ some which
    → Guards t rks lks nonce which
unfolding case_of Guards
case_of-Guards t rks lks nonce current_keys h = (ground arith, ground arith, ground arith)
case_of-Guards t rks lks nonce next_send h = (ground arith, ground arith, ground arith)
case_of-Guards t rks lks nonce next_recv h = (ground arith, ground arith, ground arith)

-- A session that has taken a message in notes its nonce, and the message is spent.
pub note_nonce-Spent :
    (b : Boxes) (now fresh key : ℕ) (t : Session) (rks lks nonce : ℕ) (which : Case)
    → Guards t rks lks nonce which
    → Spent rks lks nonce (note_nonce b now fresh key nonce t which) 0
unfolding note_nonce Guards
note_nonce-Spent b now fresh key t rks lks nonce current_keys g =
    used_current g.0 g.1 (omega (arith, g.2))
note_nonce-Spent b now fresh key t rks lks nonce next_send g =
    let t1 = record t { next_send_nonce = nonce } in
    elim (Bool-cases (is_due now t.rotated_at)) [
      | inl due ↦
          let r = rotated b now fresh key nonce t1 due in
          used_current (g.0 ∙ sym r.0) (ap (λ n. add64 n 1) g.1 ∙ sym r.1) (omega (arith, r.2))
      | inr early ↦
          subst (λ u. Spent rks lks nonce u 0) (sym (kept b now fresh key nonce t1 early))
            (used_next_send g.0 g.1 (omega (arith, g.2)))
    ]
note_nonce-Spent b now fresh key t rks lks nonce next_recv g =
    let t1 = record t { next_recv_nonce = nonce } in
    elim (Bool-cases (is_due now t.rotated_at)) [
      | inl due ↦
          let r = rotated b now fresh key nonce t1 due in
          skipped (g.0 ∙ sym r.0) (ap (λ n. add64 n 1) g.1 ∙ sym r.1)
      | inr early ↦
          subst (λ u. Spent rks lks nonce u 0) (sym (kept b now fresh key nonce t1 early))
            (used_next_recv g.0 g.1 (omega (arith, g.2)))
    ]

module _ (rks lks nonce : ℕ) where
  -- A nonce that has grown.
  pub Spent-kept :
      (t u : Session) (turns : ℕ)
      → u.remote_key_seq ≡ t.remote_key_seq
      → u.local_key_seq ≡ t.local_key_seq
      → t.recv_nonce ≤ u.recv_nonce
      → t.next_send_nonce ≤ u.next_send_nonce
      → t.next_recv_nonce ≤ u.next_recv_nonce
      → Spent rks lks nonce t turns
      → Spent rks lks nonce u (suc turns)
  Spent-kept t u turns r l a c d (used_current e f g) =
      used_current (e ∙ sym r) (f ∙ sym l) (omega arith)
  Spent-kept t u turns r l a c d (used_next_send e f g) =
      used_next_send (e ∙ sym (ap (λ n. add64 n 1) r)) (f ∙ sym l) (omega arith)
  Spent-kept t u turns r l a c d (used_next_recv e f g) =
      used_next_recv (e ∙ sym (ap (λ n. add64 n 1) r)) (f ∙ sym l) (omega arith)
  Spent-kept t u turns r l a c d (skipped e f) = skipped (e ∙ sym r) (f ∙ sym l)
  Spent-kept t u turns r l a c d (passed by e f g) = passed by (r ∙ e) f (omega arith)

  -- A rotation by a message that, if it is of the same remote keys, is so of the same local ones.
  Spent-rotated :
      (t u : Session) (turns lks' nonce' : ℕ)
      → u.remote_key_seq ≡ add64 t.remote_key_seq 1
      → u.local_key_seq ≡ add64 t.local_key_seq 1
      → u.recv_nonce ≡ nonce'
      → (rks ≡ add64 t.remote_key_seq 1 → lks' ≡ lks)
      → (lks' ≡ t.local_key_seq → t.next_send_nonce ≤ nonce')
      → Spent rks lks nonce t turns
      → Spent rks lks nonce u (suc turns)
  Spent-rotated t u turns lks' nonce' r l n same grown (used_current e f g) =
      passed 1 (r ∙ ap (λ k. add64 k 1) (sym e)) (omega arith) (omega arith)
  Spent-rotated t u turns lks' nonce' r l n same grown (used_next_send e f g) =
      used_current (e ∙ sym r) (ap (λ k. add64 k 1) f ∙ sym l) (omega (arith, grown (same e ∙ f)))
  Spent-rotated t u turns lks' nonce' r l n same grown (used_next_recv e f g) =
      skipped (e ∙ sym r) (ap (λ k. add64 k 1) f ∙ sym l)
  Spent-rotated t u turns lks' nonce' r l n same grown (skipped e f) =
      passed 1 (r ∙ ap (λ k. add64 k 1) (sym e)) (omega arith) (omega arith)
  Spent-rotated t u turns lks' nonce' r l n same grown (passed by e f g) =
      passed (suc by) (omega arith) (omega arith) (omega arith)

  -- What a message does that passed the guards of its case.
  pub note_nonce-keeps :
      (b : Boxes) (now fresh key : ℕ) (t : Session) (turns rks' lks' nonce' : ℕ) (which : Case)
      → Guards t rks' lks' nonce' which
      → (rks ≡ rks' → lks' ≡ lks)
      → Spent rks lks nonce t turns
      → Spent rks lks nonce (note_nonce b now fresh key nonce' t which) (suc turns)
  unfolding note_nonce Guards
  note_nonce-keeps b now fresh key t turns rks' lks' nonce' current_keys g same old =
      Spent-kept t (record t { recv_nonce = nonce' }) turns refl refl (omega (arith, g.2))
        (omega arith) (omega arith) old
  note_nonce-keeps b now fresh key t turns rks' lks' nonce' next_send g same old =
      let t1 = record t { next_send_nonce = nonce' } in
      elim (Bool-cases (is_due now t.rotated_at)) [
        | inl due ↦
            let r = rotated b now fresh key nonce' t1 due in
            Spent-rotated t (maybe_rotate b now fresh key nonce' t1) turns lks' nonce' r.0 r.1 r.2
              (λ e. same (e ∙ sym g.0)) (λ e. omega (arith, g.2)) old
        | inr early ↦
            subst (λ u. Spent rks lks nonce u (suc turns))
              (sym (kept b now fresh key nonce' t1 early))
              (Spent-kept t t1 turns refl refl (omega arith) (omega (arith, g.2)) (omega arith) old)
      ]
  note_nonce-keeps b now fresh key t turns rks' lks' nonce' next_recv g same old =
      let t1 = record t { next_recv_nonce = nonce' } in
      elim (Bool-cases (is_due now t.rotated_at)) [
        | inl due ↦
            let r = rotated b now fresh key nonce' t1 due in
            Spent-rotated t (maybe_rotate b now fresh key nonce' t1) turns lks' nonce' r.0 r.1 r.2
              (λ e. same (e ∙ sym g.0)) (λ e. absurd (omega (arith, g.1))) old
        | inr early ↦
            subst (λ u. Spent rks lks nonce u (suc turns))
              (sym (kept b now fresh key nonce' t1 early))
              (Spent-kept t t1 turns refl refl (omega arith) (omega arith) (omega (arith, g.2)) old)
      ]

  pub count_send-keeps :
      (b : Boxes) (fresh : ℕ) (t : Session) (turns : ℕ)
      → t.send_nonce + 1 < 2 ^ 64
      → Spent rks lks nonce t turns
      → Spent rks lks nonce (count_send b fresh t) (suc turns)
  unfolding count_send
  count_send-keeps b fresh t turns room old =
      let t1 = record t { send_nonce = add64 t.send_nonce 1 } in
      let e : (add64 t.send_nonce 1 == 0) ≡ false = ground arith in
      rw e (Spent-kept t t1 turns refl refl (omega arith) (omega arith) (omega arith) old)
