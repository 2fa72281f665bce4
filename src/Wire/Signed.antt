-- ===== src/Wire/Signed.antt =====
-- The signed tree messages of src/tree.rs: `SigReq`, `SigRes` and `Announce`. Keys and signatures are
-- the numbers that their bytes spell.
pub mod RoundTrip
pub mod Honest
use roots.Prelude.{
  ℕ, ◌+◌, ◌*◌, Bool, ◌&&◌, ◌||◌, not, List, [], ◌∷◌, ◌++◌, ltb, leb, ◌==◌, if◌then◌else◌, length,
  take, drop, false,
}
use roots.Prelude.Bytes.{be_bytes, of_be}
use roots.Error.{Result, ok, err, ok_or, guard, length_error, ◌>>=◌, ◌>>◌}
use roots.Crypto.{Ed25519}
use roots.Wire.Fields.{key_len, sig_len}
use roots.Wire.Uvarint.{append_uvarint, read_uvarint}

pub record SigReq : Type 0 where
  pub seq : ℕ
  pub nonce : ℕ

pub record SigRes : Type 0 where
  pub req : SigReq
  pub port : ℕ
  pub psig : ℕ

pub record Announce : Type 0 where
  pub key : ℕ
  pub parent : ℕ
  pub res : SigRes
  pub sig : ℕ

unfoldable pub encode_req : SigReq → List ℕ → List ℕ
encode_req r out = append_uvarint (append_uvarint out r.seq) r.nonce

unfoldable pub decode_req : List ℕ → Result (SigReq × ℕ)
decode_req buf = do
  (seq, n) ← ok_or (read_uvarint buf) length_error
  (nonce, m) ← ok_or (read_uvarint (drop n buf)) length_error
  ok (record { seq = seq; nonce = nonce }, n + m)

unfoldable pub req_bytes_for_sig : SigReq → ℕ → ℕ → List ℕ
req_bytes_for_sig r node parent = encode_req r (be_bytes key_len node ++ be_bytes key_len parent)

unfoldable pub res_bytes_for_sig : SigRes → ℕ → ℕ → List ℕ
res_bytes_for_sig r node parent = append_uvarint (req_bytes_for_sig r.req node parent) r.port

unfoldable pub encode_res : SigRes → List ℕ → List ℕ
encode_res r out = append_uvarint (encode_req r.req out) r.port ++ be_bytes sig_len r.psig

unfoldable pub decode_res : List ℕ → Result (SigRes × ℕ)
decode_res buf = do
  (req, n) ← decode_req buf
  let rest = drop n buf
  (port, m) ← ok_or (read_uvarint rest) length_error
  let rest' = drop m rest
  guard (leb sig_len (length rest')) length_error
  ok (record { req = req; port = port; psig = of_be (take sig_len rest') }, n + m + sig_len)

unfoldable pub encode_announce : Announce → List ℕ → List ℕ
encode_announce a out =
    encode_res a.res ((out ++ be_bytes key_len a.key) ++ be_bytes key_len a.parent)
    ++ be_bytes sig_len a.sig

unfoldable pub decode_announce : List ℕ → Result Announce
decode_announce buf = do
  guard (leb (2 * key_len) (length buf)) length_error
  (res, n) ← decode_res (drop (2 * key_len) buf)
  let rest = drop (2 * key_len + n) buf
  guard (length rest == sig_len) length_error
  ok (record {
    key = of_be (take key_len buf);
    parent = of_be (take key_len (drop key_len buf));
    res = res;
    sig = of_be (take sig_len rest);
  })

module _ (c : Ed25519) where
  open c use {public_key, sign, verify}

  unfoldable pub seal : SigReq → ℕ → ℕ → ℕ → ℕ → SigRes
  seal req port node parent parent_key =
      let res : SigRes = record { req = req; port = port; psig = 0 } in
      record res { psig = sign parent (res_bytes_for_sig res node parent_key) }

  unfoldable pub check_res : SigRes → ℕ → ℕ → Bool
  check_res r node parent = verify parent (res_bytes_for_sig r node parent) r.psig

  unfoldable pub check_announce : Announce → Bool
  unfolding check_res
  check_announce a =
      if a.res.port == 0 && not (a.key == a.parent)
      then false
      else verify a.key (res_bytes_for_sig a.res a.key a.parent) a.sig
        && check_res a.res a.key a.parent
