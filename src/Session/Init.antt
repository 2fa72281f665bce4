-- ===== src/Session/Init.antt =====
-- src/session.rs: `SessionInit`, the message that opens a session or acknowledges one.
use roots.Prelude.{
  ℕ, ◌+◌, Bool, false, not, ◌&&◌, Option, none, some, List, [], ◌∷◌, ◌++◌, length, take, drop, ◌==◌,
  if◌then◌else◌,
}
use roots.Prelude.Bytes.{be_bytes, of_be}
use roots.Error.{Result, ok, ◌>>=◌}
use roots.Crypto.{Ed25519}
use roots.Wire.Fields.{IsKey, IsU64}
use roots.Session.Boxes.{Boxes, ed_to_curve_pub, salsa_box, box_seal, box_open}

abbrev pub session_type_init : ℕ
session_type_init = 1

abbrev pub session_type_ack : ℕ
session_type_ack = 2

abbrev pub session_type_traffic : ℕ
session_type_traffic = 3

abbrev pub session_init_size : ℕ
session_init_size = 193

pub record SessionInit : Type 0 where
  pub current : ℕ
  pub next : ℕ
  pub key_seq : ℕ
  pub seq : ℕ

-- The fields as their types bound them.
pub record IsInit (i : SessionInit) : Type 0 where
  pub current_key : IsKey i.current
  pub next_key : IsKey i.next
  pub key_seq_u64 : IsU64 i.key_seq
  pub seq_u64 : IsU64 i.seq

-- What the signature and the box both cover.
unfoldable pub init_fields : SessionInit → List ℕ
init_fields i =
    be_bytes 32 i.current ++ (be_bytes 32 i.next ++ (be_bytes 8 i.key_seq ++ be_bytes 8 i.seq))

unfoldable pub sig_bytes : SessionInit → ℕ → List ℕ
unfolding init_fields
sig_bytes i eph_pub = be_bytes 32 eph_pub ++ init_fields i

-- The fields of a payload, behind the signature.
unfoldable pub read_init : List ℕ → SessionInit
read_init payload = record {
  current = of_be (take 32 (drop 64 payload));
  next = of_be (take 32 (drop 96 payload));
  key_seq = of_be (take 8 (drop 128 payload));
  seq = of_be (take 8 (drop 136 payload));
}

-- `data[0] == t`
unfoldable pub starts_with : ℕ → List ℕ → Bool
starts_with t [] = false
starts_with t (x ∷ xs) = x == t

module _ (b : Boxes) where
  unfoldable pub unsealed_plaintext : ℕ → List ℕ → Option (List ℕ)
  unsealed_plaintext our_box_priv bytes =
      if not (length bytes == session_init_size)
      then none
      else box_open b (salsa_box b (of_be (take 32 (drop 1 bytes))) our_box_priv) 0 (drop 33 bytes)

module _ (c : Ed25519) where
  -- The opened payload of a message with this ephemeral key.
  unfoldable pub check_payload : ℕ → ℕ → List ℕ → Option SessionInit
  unfolding read_init
  check_payload from_ed eph_pub payload =
      let sig = of_be (take 64 payload) in
      let sig_msg = be_bytes 32 eph_pub ++ drop 64 payload in
      if not (length payload == (64 + 32 + 32 + 8 + 8))
      then none
      else if not (c.verify from_ed sig_msg sig)
      then none
      else some (read_init payload)

module _ (c : Ed25519) (b : Boxes) where
  -- `eph_priv` is the key that is generated; an error is the panic for a destination that is no key.
  unfoldable pub encrypt_msg : ℕ → SessionInit → ℕ → ℕ → ℕ → Result (List ℕ)
  unfolding sig_bytes init_fields
  encrypt_msg eph_priv i msg_type from_ed dest_ed = do
    dest_box ← ed_to_curve_pub b dest_ed
    let eph_pub = b.box_public eph_priv
    let shared = salsa_box b dest_box eph_priv
    let sig = c.sign from_ed (sig_bytes i eph_pub)
    let sealed = box_seal b shared 0 (be_bytes 64 sig ++ init_fields i)
    ok (msg_type ∷ (be_bytes 32 eph_pub ++ sealed))

  unfoldable pub decrypt_msg : ℕ → ℕ → List ℕ → Option SessionInit
  unfolding check_payload starts_with
  decrypt_msg our_box_priv from_ed bytes =
      let eph_pub = of_be (take 32 (drop 1 bytes)) in
      if not (length bytes == session_init_size)
      then none
      else if not (starts_with session_type_init bytes) && not (starts_with session_type_ack bytes)
      then none
      else elim (box_open b (salsa_box b eph_pub our_box_priv) 0 (drop 33 bytes)) [
        | none ↦ none
        | some payload ↦ check_payload c from_ed eph_pub payload
      ]
