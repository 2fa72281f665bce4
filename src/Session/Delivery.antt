-- ===== src/Session/Delivery.antt =====
-- Two linked sessions: what one encrypts the other decrypts, over a network that may lose messages.
use roots.Prelude.{
  ℕ, ◌+◌, ◌≤◌, ◌≡◌, refl, ap, ◌∙◌, some, List, [], ◌∷◌, ◌++◌, arith, length, take, le→ltb,
  append_assoc, length-append, drop-append,
}
use roots.Prelude.Bytes.{be_bytes, of_be, length-be_bytes}
use roots.Wire.Fields.{IsU64, drop-be_bytes}
use roots.Wire.Uvarint.{append_uvarint}
use roots.Wire.Uvarint.Equations.{uvarint, append_uvarint-append}
use roots.Wire.Uvarint.RoundTrip.{read_uvarint-uvarint}
use roots.Wire.Uvarint.Bounds.{read_uvarint_bounds}
use roots.Session.Boxes.{Boxes, box_seal, open-seal, length-seal}
use roots.Session.Init.{starts_with}
use roots.Session.Keys.{
  Session, Case, seal_traffic, decrypt, read_header, case_of, open_body, note_nonce, shared_of,
}

-- The message on the wire.
abbrev pub header : ℕ → ℕ → ℕ → List ℕ → List ℕ
header l r n body = uvarint l ++ (uvarint r ++ (uvarint n ++ body))

uvarint-pos : (v : ℕ) → IsU64 v → 1 ≤ length (uvarint v)
uvarint-pos v h =
    (read_uvarint_bounds (uvarint v ++ []) v (length (uvarint v)) (read_uvarint-uvarint v [] h)).1

pub read_header-header :
    (l r n : ℕ) (body : List ℕ)
    → IsU64 l
    → IsU64 r
    → IsU64 n
    → read_header (header l r n body) ≡ some (l, r, n, body)
unfolding read_header
read_header-header l r n body hl hr hn =
    let third = uvarint n ++ body in
    let second = uvarint r ++ third in
    let past1 = drop-append (uvarint l) second (length (uvarint l)) refl in
    let past2 = drop-append (uvarint r) third (length (uvarint r)) refl in
    let past3 = drop-append (uvarint n) body (length (uvarint n)) refl in
    rw
      (
        read_header,
        read_uvarint-uvarint l second hl,
        past1,
        read_uvarint-uvarint r third hr,
        past1,
        past2,
        read_uvarint-uvarint n body hn,
        past1,
        past2,
        past3,
      )
      refl

pub seal_traffic-header :
    (b : Boxes) (s : Session) (msg : List ℕ)
    → seal_traffic b s msg
      ≡ 3
        ∷ header s.local_key_seq s.remote_key_seq s.send_nonce
            (box_seal b s.send_shared s.send_nonce (be_bytes 32 s.next_pair.public ++ msg))
unfolding seal_traffic
seal_traffic-header b s msg =
    let body = box_seal b s.send_shared s.send_nonce (be_bytes 32 s.next_pair.public ++ msg) in
    ap (λ (xs : List ℕ). xs ++ body) (three s.local_key_seq s.remote_key_seq s.send_nonce)
    ∙ ap (◌∷◌ 3) (
        append_assoc (uvarint s.local_key_seq ++ uvarint s.remote_key_seq) (uvarint s.send_nonce)
          body
        ∙ append_assoc (uvarint s.local_key_seq) (uvarint s.remote_key_seq)
            (uvarint s.send_nonce ++ body))
  where
    three :
        (l r n : ℕ)
        → append_uvarint (append_uvarint (append_uvarint (3 ∷ []) l) r) n
          ≡ 3 ∷ ((uvarint l ++ uvarint r) ++ uvarint n)
    three l r n =
        append_uvarint-append (append_uvarint (append_uvarint (3 ∷ []) l) r) n
        ∙ ap (λ (xs : List ℕ). xs ++ uvarint n)
            (append_uvarint-append (append_uvarint (3 ∷ []) l) r
              ∙ ap (λ (xs : List ℕ). xs ++ uvarint r) (append_uvarint-append (3 ∷ []) l))

length-header :
    (l r n : ℕ) (body : List ℕ)
    → IsU64 l
    → IsU64 r
    → IsU64 n
    → 3 + length body ≤ length (header l r n body)
length-header l r n body hl hr hn = omega (
  arith,
  uvarint-pos l hl,
  uvarint-pos r hr,
  uvarint-pos n hn,
  length-append (uvarint l) (uvarint r ++ (uvarint n ++ body)),
  length-append (uvarint r) (uvarint n ++ body),
  length-append (uvarint n) body,
)

module _ (b : Boxes) where
  -- A message of the other end whose keys and nonce the session expects.
  pub decrypt-header :
      (now fresh : ℕ) (s : Session) (l r n shared : ℕ) (key : ℕ) (msg : List ℕ) (which : Case)
      → IsU64 l
      → IsU64 r
      → IsU64 n
      → case_of s l r n ≡ some which
      → shared_of s which ≡ shared
      → let body = box_seal b shared n (be_bytes 32 key ++ msg) in
        decrypt b now fresh s (3 ∷ header l r n body)
        ≡ (note_nonce b now fresh (of_be (take 32 (be_bytes 32 key ++ msg))) n s which, some msg)
  unfolding decrypt open_body starts_with
  decrypt-header now fresh s l r n shared key msg which hl hr hn g e =
      let inner = be_bytes 32 key ++ msg in
      let body = box_seal b shared n inner in
      rw
        (
          decrypt,
          le→ltb (length (3 ∷ header l r n body)) 52 (
              long key msg l r n (box_seal b shared n inner) hl hr hn
                (length-seal b shared n inner)),
          read_header-header l r n body hl hr hn,
          g,
          open_body,
          e,
          open-seal b shared n inner,
          le→ltb (length inner) 32 (inner_long key msg),
          drop-be_bytes 32 key msg,
        )
        refl
    where
      inner_long : (key : ℕ) (msg : List ℕ) → 32 ≤ length (be_bytes 32 key ++ msg)
      inner_long key msg =
          omega (arith, length-append (be_bytes 32 key) msg, length-be_bytes 32 key)

      long :
          (key : ℕ) (msg : List ℕ) (l r n : ℕ) (body : List ℕ)
          → IsU64 l
          → IsU64 r
          → IsU64 n
          → length body ≡ 16 + length (be_bytes 32 key ++ msg)
          → 52 ≤ length (3 ∷ header l r n body)
      long key msg l r n body hl hr hn h =
          omega (arith, inner_long key msg, length-header l r n body hl hr hn, h)
