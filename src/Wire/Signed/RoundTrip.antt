-- ===== src/Wire/Signed/RoundTrip.antt =====
-- What is encoded is decoded, and whatever follows a request or a response is left.
use roots.Prelude.{
  ℕ, ◌≡◌, refl, sym, ap, ◌∙◌, List, [], ◌++◌, append_assoc, append-nil, arith, length, take,
  drop-append, length-append, leb, le→leb, ==_iff, ◌==◌, true,
}
use roots.Prelude.Bytes.{be_bytes, of_be, length-be_bytes}
use roots.Error.{ok}
use roots.Wire.Fields.{
  IsU64, IsKey, IsSig, read-field, drop-field, of_be-field, two_keys, length-two_keys,
  drop-two_keys, drop_past_keys, first_key, second_key,
}
use roots.Wire.Uvarint.{append_uvarint}
use roots.Wire.Uvarint.Equations.{uvarint, append_uvarint-append}
use roots.Wire.Signed.{
  SigReq, SigRes, Announce, encode_req, decode_req, encode_res, decode_res, encode_announce,
  decode_announce,
}

abbrev pub IsReq : SigReq → Type 0
IsReq r = IsU64 r.seq × IsU64 r.nonce

abbrev pub IsRes : SigRes → Type 0
IsRes r = IsReq r.req × IsU64 r.port × IsSig r.psig

pub req_bytes : SigReq → List ℕ
req_bytes r = uvarint r.seq ++ uvarint r.nonce

pub encode_req-append : (r : SigReq) (out : List ℕ) → encode_req r out ≡ out ++ req_bytes r
unfolding encode_req req_bytes
encode_req-append r out =
    rw (append_uvarint-append (append_uvarint out r.seq) r.nonce, append_uvarint-append out r.seq)
      (append_assoc out (uvarint r.seq) (uvarint r.nonce))

pub decode_req-req_bytes :
    (r : SigReq) (rest : List ℕ)
    → IsReq r
    → decode_req (req_bytes r ++ rest) ≡ ok (r, length (req_bytes r))
unfolding decode_req req_bytes
decode_req-req_bytes r rest h =
    rw
      (
        append_assoc (uvarint r.seq) (uvarint r.nonce) rest,
        read-field r.seq (uvarint r.nonce ++ rest) h.0,
        drop-field r.seq (uvarint r.nonce ++ rest) h.0,
        read-field r.nonce rest h.1,
        length-append (uvarint r.seq) (uvarint r.nonce),
      )
      refl

pub res_bytes : SigRes → List ℕ
res_bytes r = req_bytes r.req ++ (uvarint r.port ++ be_bytes 64 r.psig)

pub encode_res-append : (r : SigRes) (out : List ℕ) → encode_res r out ≡ out ++ res_bytes r
unfolding encode_res res_bytes
encode_res-append r out =
    rw (append_uvarint-append (encode_req r.req out) r.port, encode_req-append r.req out)
      (simp append_assoc)

pub decode_res-res_bytes :
    (r : SigRes) (rest : List ℕ)
    → IsRes r
    → decode_res (res_bytes r ++ rest) ≡ ok (r, length (res_bytes r))
unfolding decode_res res_bytes
decode_res-res_bytes r rest h =
    let sig : List ℕ = be_bytes 64 r.psig in
    let long : leb 64 (length (sig ++ rest)) ≡ true =
      le→leb 64 (length (sig ++ rest))
        (omega (arith, length-append sig rest, length-be_bytes 64 r.psig)) in
    rw
      (
        append_assoc (req_bytes r.req) (uvarint r.port ++ sig) rest,
        append_assoc (uvarint r.port) sig rest,
        decode_req-req_bytes r.req (uvarint r.port ++ (sig ++ rest)) h.0,
        drop-append (req_bytes r.req) (uvarint r.port ++ (sig ++ rest)) (length (req_bytes r.req))
            refl,
        read-field r.port (sig ++ rest) h.1,
        drop-field r.port (sig ++ rest) h.1,
        long,
        of_be-field 64 r.psig rest h.2,
        length-append (req_bytes r.req) (uvarint r.port ++ sig),
        length-append (uvarint r.port) sig,
        length-be_bytes 64 r.psig,
      )
      (ground arith)

abbrev pub IsAnnounce : Announce → Type 0
IsAnnounce a = IsKey a.key × IsKey a.parent × IsRes a.res × IsSig a.sig

pub announce_bytes : Announce → List ℕ
announce_bytes a =
    be_bytes 32 a.key ++ (be_bytes 32 a.parent ++ (res_bytes a.res ++ be_bytes 64 a.sig))

pub encode_announce-append :
    (a : Announce) (out : List ℕ) → encode_announce a out ≡ out ++ announce_bytes a
unfolding encode_announce announce_bytes
encode_announce-append a out = rw encode_res-append (simp append_assoc)

decode_announce-announce_bytes :
    (a : Announce) → IsAnnounce a → decode_announce (announce_bytes a) ≡ ok a
unfolding decode_announce announce_bytes
decode_announce-announce_bytes a h =
    let sig : List ℕ = be_bytes 64 a.sig in
    let res : List ℕ = res_bytes a.res in
    let long : leb 64 (length (two_keys a.key a.parent (res ++ sig))) ≡ true =
      le→leb 64 (length (two_keys a.key a.parent (res ++ sig)))
        (omega (arith, length-two_keys a.key a.parent (res ++ sig))) in
    let sized : (length sig == 64) ≡ true = (==_iff (length sig) 64).1 (length-be_bytes 64 a.sig) in
    let whole : of_be (take 64 sig) ≡ a.sig =
      ap (λ (xs : List ℕ). of_be (take 64 xs)) (sym (append-nil sig))
      ∙ of_be-field 64 a.sig [] h.3 in
    rw
      (
        long,
        drop-two_keys a.key a.parent (res ++ sig),
        decode_res-res_bytes a.res sig h.2,
        drop_past_keys a.key a.parent (length res) (res ++ sig),
        drop-append res sig (length res) refl,
        sized,
        first_key a.key a.parent (res ++ sig) h.0,
        second_key a.key a.parent (res ++ sig) h.1,
        whole,
      )
      refl

-- An announce whose numbers fit their fields is decoded from its encoding, with nothing left over.
pub decode_announce-encode_announce :
    (a : Announce) → IsAnnounce a → decode_announce (encode_announce a []) ≡ ok a
decode_announce-encode_announce a h =
    rw (encode_announce-append a []) (decode_announce-announce_bytes a h)
