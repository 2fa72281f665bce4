-- ===== src/Session/RoundTrip.antt =====
-- A session message is opened by the one it is sealed for.
use roots.Prelude.{
  ℕ, ◌+◌, ◌^◌, ◌<◌, ◌≡◌, ◌⊎◌, inl, inr, refl, sym, ap, ◌∙◌, true, false, not, ◌&&◌, some, List, [],
  ◌∷◌, ◌++◌, arith, length, take, drop, ◌==◌, length-append, drop-drop, append-nil,
}
use roots.Prelude.Bytes.{be_bytes, of_be, length-be_bytes}
use roots.Error.{ok, ◌>>=◌}
use roots.Crypto.{Ed25519}
use roots.Wire.Fields.{IsKey, drop-be_bytes, of_be-field}
use roots.Session.Boxes.{
  Boxes, ed_to_curve_pub, ed_to_curve_priv, salsa_box, box_seal, box_open, open-seal, length-seal,
  SameCurve,
}
use roots.Session.Init.{
  SessionInit, IsInit, init_fields, sig_bytes, read_init, encrypt_msg, check_payload, starts_with,
  decrypt_msg, session_type_init, session_type_ack,
}

length-init_fields : (i : SessionInit) → length (init_fields i) ≡ 80
unfolding init_fields
length-init_fields i = omega (
  arith,
  length-append (be_bytes 32 i.current)
      (be_bytes 32 i.next ++ (be_bytes 8 i.key_seq ++ be_bytes 8 i.seq)),
  length-append (be_bytes 32 i.next) (be_bytes 8 i.key_seq ++ be_bytes 8 i.seq),
  length-append (be_bytes 8 i.key_seq) (be_bytes 8 i.seq),
  length-be_bytes 32 i.current,
  length-be_bytes 32 i.next,
  length-be_bytes 8 i.key_seq,
  length-be_bytes 8 i.seq,
)

-- A list that ends in a number is that number's bytes.
of_be-last : (n v : ℕ) → v < 256 ^ n → of_be (take n (be_bytes n v)) ≡ v
of_be-last n v h =
    ap (λ (xs : List ℕ). of_be (take n xs)) (sym (append-nil (be_bytes n v))) ∙ of_be-field n v [] h

-- Behind a field of `n` bytes, `k` bytes on.
drop_field : (n k v : ℕ) (rest : List ℕ) → drop (n + k) (be_bytes n v ++ rest) ≡ drop k rest
drop_field n k v rest =
    sym (drop-drop n k (be_bytes n v ++ rest)) ∙ ap (drop k) (drop-be_bytes n v rest)

module _ (sig : ℕ) (i : SessionInit) where
  abbrev tail2 : List ℕ
  tail2 = be_bytes 8 i.key_seq ++ be_bytes 8 i.seq

  abbrev tail1 : List ℕ
  tail1 = be_bytes 32 i.next ++ tail2

  abbrev fields : List ℕ
  fields = be_bytes 32 i.current ++ tail1

  read_init-fields : IsInit i → read_init (be_bytes 64 sig ++ init_fields i) ≡ i
  unfolding read_init init_fields
  read_init-fields h = λ j. record {
    current =
        (ap (λ (xs : List ℕ). of_be (take 32 xs)) (drop-be_bytes 64 sig fields)
            ∙ of_be-field 32 i.current tail1 h.current_key)
          j;
    next =
        (ap (λ (xs : List ℕ). of_be (take 32 xs))
              (drop_field 64 32 sig fields ∙ drop-be_bytes 32 i.current tail1)
            ∙ of_be-field 32 i.next tail2 h.next_key)
          j;
    key_seq =
        (ap (λ (xs : List ℕ). of_be (take 8 xs))
              (drop_field 64 64 sig fields
                ∙ drop_field 32 32 i.current tail1
                ∙ drop-be_bytes 32 i.next tail2)
            ∙ of_be-field 8 i.key_seq (be_bytes 8 i.seq) h.key_seq_u64)
          j;
    seq =
        (ap (λ (xs : List ℕ). of_be (take 8 xs))
              (drop_field 64 72 sig fields
                ∙ drop_field 32 40 i.current tail1
                ∙ drop_field 32 8 i.next tail2
                ∙ drop-be_bytes 8 i.key_seq (be_bytes 8 i.seq))
            ∙ of_be-last 8 i.seq h.seq_u64)
          j;
  }

  length-payload : length (be_bytes 64 sig ++ init_fields i) ≡ 144
  length-payload = omega (
    arith,
    length-append (be_bytes 64 sig) (init_fields i),
    length-be_bytes 64 sig,
    length-init_fields i,
  )

module _ (c : Ed25519) (b : Boxes) where
  signed :
      (seed eph_pub : ℕ) (i : SessionInit)
      → c.verify
          (c.public_key seed)
          (be_bytes 32 eph_pub ++ init_fields i)
          (c.sign seed (sig_bytes i eph_pub))
        ≡ true
  unfolding sig_bytes
  signed seed eph_pub i = c.verify-sign seed (be_bytes 32 eph_pub ++ init_fields i)

  check_payload-verified :
      (from eph_pub : ℕ) (payload : List ℕ)
      → length payload ≡ 144
      → c.verify from (be_bytes 32 eph_pub ++ drop 64 payload) (of_be (take 64 payload)) ≡ true
      → check_payload c from eph_pub payload ≡ some (read_init payload)
  unfolding check_payload
  check_payload-verified from eph_pub payload h v = rw (h, v) refl

  -- A payload whose signature is the sender's.
  check_payload-signed :
      (seed eph_pub : ℕ) (i : SessionInit)
      → IsInit i
      → check_payload c
          (c.public_key seed)
          eph_pub
          (be_bytes 64 (c.sign seed (sig_bytes i eph_pub)) ++ init_fields i)
        ≡ some i
  check_payload-signed seed eph_pub i h =
      let sig = c.sign seed (sig_bytes i eph_pub) in
      check_payload-verified (c.public_key seed) eph_pub (be_bytes 64 sig ++ init_fields i)
        (length-payload sig i)
        ((λ k.
            c.verify (c.public_key seed)
              (be_bytes 32 eph_pub ++ drop-be_bytes 64 sig (init_fields i) k)
              (of_be-field 64 sig (init_fields i) (c.sign-lt seed (sig_bytes i eph_pub)) k))
          ∙ signed seed eph_pub i)
      ∙ ap some (read_init-fields sig i h)

  module _ (t eph : ℕ) (sealed : List ℕ) where
    abbrev message : List ℕ
    message = t ∷ (be_bytes 32 eph ++ sealed)

    length-message : length message ≡ 33 + length sealed
    length-message = omega (arith, length-append (be_bytes 32 eph) sealed, length-be_bytes 32 eph)

    decrypt_msg-message :
        (our_priv from : ℕ) (payload : List ℕ)
        → (t ≡ session_type_init) ⊎ (t ≡ session_type_ack)
        → length sealed ≡ 160
        → IsKey eph
        → box_open b (salsa_box b eph our_priv) 0 sealed ≡ some payload
        → decrypt_msg c b our_priv from message ≡ check_payload c from eph payload
    unfolding decrypt_msg starts_with
    decrypt_msg-message our_priv from payload kind size fits opens =
        rw
          (
            decrypt_msg,
            kind_ok kind,
            whole (length message) (length sealed) length-message size,
            of_be-field 32 eph sealed fits,
            drop-be_bytes 32 eph sealed,
            opens,
          )
          (ap (λ (e : ℕ). check_payload c from e payload) (of_be-field 32 eph sealed fits))
      where
        kind_ok :
            (t ≡ session_type_init) ⊎ (t ≡ session_type_ack)
            → (not (t == 1) && not (t == 2)) ≡ false
        kind_ok (inl e) = ground arith
        kind_ok (inr e) = ground arith

        whole : (m n : ℕ) → m ≡ 33 + n → n ≡ 160 → (m == 193) ≡ true
        whole m n e f = ground arith

  -- What is sealed for a key is opened with the secret key of it.
  open_sealed :
      (dest eph : ℕ) (payload : List ℕ)
      → box_open b
          (salsa_box b (b.box_public eph) dest)
          0
          (box_seal b (salsa_box b (b.box_public dest) eph) 0 payload)
        ≡ some payload
  unfolding salsa_box
  open_sealed dest eph payload =
      ap (λ (k : ℕ). box_open b k 0 (box_seal b (b.precompute (b.box_public dest) eph) 0 payload))
        (b.precompute_comm eph dest)
      ∙ open-seal b (b.precompute (b.box_public dest) eph) 0 payload

  module _ (curve : SameCurve b c) (eph seed dest t : ℕ) (i : SessionInit) where
    sealed_init : List ℕ
    sealed_init =
        box_seal b (salsa_box b (b.box_public (ed_to_curve_priv b dest)) eph) 0
          (be_bytes 64 (c.sign seed (sig_bytes i (b.box_public eph))) ++ init_fields i)

    sealed-length : length sealed_init ≡ 160
    unfolding sealed_init
    sealed-length =
        let payload = be_bytes 64 (c.sign seed (sig_bytes i (b.box_public eph))) ++ init_fields i in
        omega (
          arith,
          length-seal b (salsa_box b (b.box_public (ed_to_curve_priv b dest)) eph) 0 payload,
          length-payload (c.sign seed (sig_bytes i (b.box_public eph))) i,
        )

    encrypt_msg-message :
        encrypt_msg c b eph i t seed (c.public_key dest)
        ≡ ok (message t (b.box_public eph) sealed_init)
    unfolding encrypt_msg ed_to_curve_pub sealed_init
    encrypt_msg-message = rw (ed_to_curve_pub, curve dest) refl

    -- An init or ack that is encrypted to the public key of a seed, for any ephemeral key, is
    -- decrypted with the box key of that seed to the init it was, given that the fields of the
    -- init are in range; the sender is known by its public key.
    pub decrypt_msg-encrypt_msg :
        IsInit i
        → (t ≡ session_type_init) ⊎ (t ≡ session_type_ack)
        → (encrypt_msg c b eph i t seed (c.public_key dest) >>= λ bytes.
            ok (decrypt_msg c b (ed_to_curve_priv b dest) (c.public_key seed) bytes))
          ≡ ok (some i)
    unfolding sealed_init
    decrypt_msg-encrypt_msg h kind =
        ap
          (λ r.
            r >>= λ bytes. ok (decrypt_msg c b (ed_to_curve_priv b dest) (c.public_key seed) bytes))
          encrypt_msg-message
        ∙ ap ok (
            decrypt_msg-message t (b.box_public eph) sealed_init (ed_to_curve_priv b dest)
              (c.public_key seed)
              (be_bytes 64 (c.sign seed (sig_bytes i (b.box_public eph))) ++ init_fields i) kind
              sealed-length (b.box_public-lt eph) (open_sealed (ed_to_curve_priv b dest) eph _)
            ∙ check_payload-signed seed (b.box_public eph) i h)
