-- ===== src/Wire/Lookup/RoundTrip.antt =====
-- What is encoded is decoded.
use roots.Prelude.{
  ℕ, ◌+◌, ◌≤◌, ◌≡◌, refl, sym, ap, ◌∙◌, true, List, [], ◌++◌, append_assoc, append-nil, arith,
  length, take, drop, drop-append, drop-append_two, length-append, leb, le→leb, ◌==◌, ==_iff,
  ==_refl, All,
}
use roots.Prelude.Bytes.{be_bytes, of_be, length-be_bytes}
use roots.Error.{Error, ok, ok_or}
use roots.Wire.Fields.{
  IsU64, IsKey, IsSig, read-field, drop-field, of_be-field, two_keys, length-two_keys,
  drop-two_keys, first_key, second_key,
}
use roots.Wire.PortPath.{append_path, split_path}
use roots.Wire.PortPath.Equations.{path_bytes, append_path-append}
use roots.Wire.PortPath.RoundTrip.{IsPort, split_path-append_path}
use roots.Wire.Uvarint.{append_uvarint}
use roots.Wire.Uvarint.Equations.{uvarint, append_uvarint-append}
use roots.Wire.Lookup.{
  PathLookup, NotifyInfo, PathNotify, PathBroken, encode_lookup, decode_lookup, encode_info,
  decode_info, encode_notify, decode_notify, encode_broken, decode_broken,
}

-- A path that the decoder takes back.
abbrev pub IsPath : List ℕ → Type 0
IsPath path = (length path ≤ 128) × All IsPort path

module _ (path rest : List ℕ) (fits : IsPath path) where
  pub split-field :
      (e : Error)
      → ok_or (split_path (path_bytes path ++ rest)) e ≡ ok (path, length (path_bytes path))
  split-field e =
      let whole : append_path [] path ≡ path_bytes path = append_path-append [] path in
      ap (λ (b : List ℕ). ok_or (split_path (b ++ rest)) e) (sym whole)
      ∙ ap (λ r. ok_or r e) (split_path-append_path path rest fits.0 fits.1)
      ∙ ap (λ (b : List ℕ). ok (path, length b)) whole

abbrev pub IsLookup : PathLookup → Type 0
IsLookup l = IsKey l.source × IsKey l.dest × IsPath l.from

-- A lookup whose numbers fit their fields and whose path is well formed is decoded from its
-- encoding, whatever bytes follow.
pub decode_lookup-encode_lookup :
    (l : PathLookup) (rest : List ℕ)
    → IsLookup l
    → decode_lookup (encode_lookup l [] ++ rest) ≡ ok l
unfolding decode_lookup encode_lookup
decode_lookup-encode_lookup l rest h =
    let tail : List ℕ = path_bytes l.from ++ rest in
    let bytes : encode_lookup l [] ++ rest ≡ two_keys l.source l.dest tail =
      rw append_path-append (simp append_assoc) in
    let long : leb 64 (length (two_keys l.source l.dest tail)) ≡ true =
      le→leb 64 (length (two_keys l.source l.dest tail))
        (omega (arith, length-two_keys l.source l.dest tail)) in
    rw
      (
        bytes,
        long,
        drop-two_keys l.source l.dest tail,
        split-field l.from rest h.2,
        first_key l.source l.dest tail h.0,
        second_key l.source l.dest tail h.1,
      )
      refl

abbrev pub IsInfo : NotifyInfo → Type 0
IsInfo i = IsU64 i.seq × IsPath i.path × IsSig i.sig

pub info_bytes : NotifyInfo → List ℕ
info_bytes i = uvarint i.seq ++ (path_bytes i.path ++ be_bytes 64 i.sig)

encode_info-append : (i : NotifyInfo) (out : List ℕ) → encode_info i out ≡ out ++ info_bytes i
unfolding encode_info info_bytes
encode_info-append i out =
    rw (append_path-append (append_uvarint out i.seq) i.path, append_uvarint-append out i.seq)
      (simp append_assoc)

decode_info-info_bytes :
    (i : NotifyInfo) → IsInfo i → decode_info (info_bytes i) ≡ ok (i, length (info_bytes i))
unfolding decode_info info_bytes
decode_info-info_bytes i h =
    let sig : List ℕ = be_bytes 64 i.sig in
    let path : List ℕ = path_bytes i.path in
    let long : leb 64 (length sig) ≡ true =
      le→leb 64 (length sig) (omega (arith, length-be_bytes 64 i.sig)) in
    let whole : of_be (take 64 sig) ≡ i.sig =
      ap (λ (xs : List ℕ). of_be (take 64 xs)) (sym (append-nil sig))
      ∙ of_be-field 64 i.sig [] h.2 in
    rw
      (
        read-field i.seq (path ++ sig) h.0,
        drop-field i.seq (path ++ sig) h.0,
        split-field i.path sig h.1,
        drop-append_two (uvarint i.seq) path sig,
        long,
        whole,
        length-append (uvarint i.seq) (path ++ sig),
        length-append path sig,
        length-be_bytes 64 i.sig,
      )
      (ground arith)

-- A value and a path in front of a tail.
module _ (path : List ℕ) (mark : ℕ) (tail : List ℕ) where
  abbrev pub marked : List ℕ
  marked = path_bytes path ++ (uvarint mark ++ tail)

  drop_path : drop (length (path_bytes path)) marked ≡ uvarint mark ++ tail
  drop_path = drop-append (path_bytes path) (uvarint mark ++ tail) (length (path_bytes path)) refl

  drop_mark : drop (length (path_bytes path) + length (uvarint mark)) marked ≡ tail
  drop_mark = drop-append_two (path_bytes path) (uvarint mark) tail

abbrev pub IsBroken : PathBroken → Type 0
IsBroken p = IsPath p.path × IsU64 p.watermark × IsKey p.source × IsKey p.dest

-- A broken-path report whose numbers fit their fields and whose path is well formed is decoded
-- from its encoding.
pub decode_broken-encode_broken :
    (p : PathBroken) → IsBroken p → decode_broken (encode_broken p []) ≡ ok p
unfolding decode_broken encode_broken
decode_broken-encode_broken p h =
    let tail : List ℕ = two_keys p.source p.dest [] in
    let bytes : encode_broken p [] ≡ marked p.path p.watermark tail =
      rw (append_uvarint-append (append_path [] p.path) p.watermark, append_path-append [] p.path)
        (simp (append_assoc, append-nil)) in
    let sized : (length tail == 64) ≡ true =
      (==_iff (length tail) 64).1 (length-two_keys p.source p.dest []) in
    rw
      (
        bytes,
        split-field p.path (uvarint p.watermark ++ tail) h.0,
        drop_path p.path p.watermark tail,
        read-field p.watermark tail h.1,
        drop_mark p.path p.watermark tail,
        sized,
        first_key p.source p.dest [] h.2,
        second_key p.source p.dest [] h.3,
      )
      refl

abbrev pub IsNotify : PathNotify → Type 0
IsNotify p = IsPath p.path × IsU64 p.watermark × IsKey p.source × IsKey p.dest × IsInfo p.info

-- A notify whose numbers fit their fields and whose paths are well formed is decoded from its
-- encoding, its signed part included.
pub decode_notify-encode_notify :
    (p : PathNotify) → IsNotify p → decode_notify (encode_notify p []) ≡ ok p
unfolding decode_notify encode_notify
decode_notify-encode_notify p h =
    let info : List ℕ = info_bytes p.info in
    let tail : List ℕ = two_keys p.source p.dest info in
    let bytes : encode_notify p [] ≡ marked p.path p.watermark tail =
      rw
        (
          encode_info-append,
          append_uvarint-append (append_path [] p.path) p.watermark,
          append_path-append [] p.path,
        )
        (simp append_assoc) in
    let long : leb 64 (length tail) ≡ true =
      le→leb 64 (length tail) (omega (arith, length-two_keys p.source p.dest info)) in
    rw
      (
        bytes,
        split-field p.path (uvarint p.watermark ++ tail) h.0,
        drop_path p.path p.watermark tail,
        read-field p.watermark tail h.1,
        drop_mark p.path p.watermark tail,
        long,
        drop-two_keys p.source p.dest info,
        decode_info-info_bytes p.info h.4,
        ==_refl (length info),
        first_key p.source p.dest info h.2,
        second_key p.source p.dest info h.3,
      )
      refl
