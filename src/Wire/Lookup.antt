-- ===== src/Wire/Lookup.antt =====
-- The path messages of src/pathfind.rs: `PathLookup`, `NotifyInfo`, `PathNotify` and `PathBroken`.
pub mod RoundTrip
use roots.Prelude.{ℕ, ◌+◌, ◌*◌, Bool, List, ◌++◌, [], leb, ◌==◌, length, take, drop}
use roots.Prelude.Bytes.{be_bytes, of_be}
use roots.Error.{Result, ok, err, ok_or, guard, length_error, ◌>>=◌, ◌>>◌}
use roots.Crypto.{Ed25519}
use roots.Wire.Fields.{key_len, sig_len}
use roots.Wire.Uvarint.{append_uvarint, read_uvarint}
use roots.Wire.PortPath.{append_path, split_path}

pub record PathLookup : Type 0 where
  pub source : ℕ
  pub dest : ℕ
  pub from : List ℕ

pub record NotifyInfo : Type 0 where
  pub seq : ℕ
  pub path : List ℕ
  pub sig : ℕ

pub record PathNotify : Type 0 where
  pub path : List ℕ
  pub watermark : ℕ
  pub source : ℕ
  pub dest : ℕ
  pub info : NotifyInfo

pub record PathBroken : Type 0 where
  pub path : List ℕ
  pub watermark : ℕ
  pub source : ℕ
  pub dest : ℕ

unfoldable pub encode_lookup : PathLookup → List ℕ → List ℕ
encode_lookup l out =
    append_path ((out ++ be_bytes key_len l.source) ++ be_bytes key_len l.dest) l.from

-- What follows the path is not looked at.
unfoldable pub decode_lookup : List ℕ → Result PathLookup
decode_lookup buf = do
  guard (leb (2 * key_len) (length buf)) length_error
  (from, n) ← ok_or (split_path (drop (2 * key_len) buf)) length_error
  ok (record {
    source = of_be (take key_len buf);
    dest = of_be (take key_len (drop key_len buf));
    from = from;
  })

unfoldable pub info_bytes_for_sig : NotifyInfo → List ℕ
info_bytes_for_sig i = append_path (append_uvarint [] i.seq) i.path

unfoldable pub encode_info : NotifyInfo → List ℕ → List ℕ
encode_info i out = append_path (append_uvarint out i.seq) i.path ++ be_bytes sig_len i.sig

unfoldable pub decode_info : List ℕ → Result (NotifyInfo × ℕ)
decode_info buf = do
  (seq, n) ← ok_or (read_uvarint buf) length_error
  (path, m) ← ok_or (split_path (drop n buf)) length_error
  let rest = drop (n + m) buf
  guard (leb sig_len (length rest)) length_error
  ok (record { seq = seq; path = path; sig = of_be (take sig_len rest) }, n + m + sig_len)

unfoldable pub encode_notify : PathNotify → List ℕ → List ℕ
encode_notify p out = encode_info p.info (
    (append_uvarint (append_path out p.path) p.watermark ++ be_bytes key_len p.source)
    ++ be_bytes key_len p.dest)

unfoldable pub decode_notify : List ℕ → Result PathNotify
decode_notify buf = do
  (path, n) ← ok_or (split_path buf) length_error
  (watermark, m) ← ok_or (read_uvarint (drop n buf)) length_error
  let rest = drop (n + m) buf
  guard (leb (2 * key_len) (length rest)) length_error
  let tail = drop (2 * key_len) rest
  (info, k) ← decode_info tail
  guard (k == length tail) length_error
  ok (record {
    path = path;
    watermark = watermark;
    source = of_be (take key_len rest);
    dest = of_be (take key_len (drop key_len rest));
    info = info;
  })

unfoldable pub encode_broken : PathBroken → List ℕ → List ℕ
encode_broken p out =
    (append_uvarint (append_path out p.path) p.watermark ++ be_bytes key_len p.source)
    ++ be_bytes key_len p.dest

unfoldable pub decode_broken : List ℕ → Result PathBroken
decode_broken buf = do
  (path, n) ← ok_or (split_path buf) length_error
  (watermark, m) ← ok_or (read_uvarint (drop n buf)) length_error
  let rest = drop (n + m) buf
  guard (length rest == 2 * key_len) length_error
  ok (record {
    path = path;
    watermark = watermark;
    source = of_be (take key_len rest);
    dest = of_be (take key_len (drop key_len rest));
  })

module _ (c : Ed25519) where
  open c use {sign, verify}

  unfoldable pub sign_info : NotifyInfo → ℕ → NotifyInfo
  sign_info i key = record i { sig = sign key (info_bytes_for_sig i) }

  unfoldable pub check_info : NotifyInfo → ℕ → Bool
  check_info i source = verify source (info_bytes_for_sig i) i.sig

  unfoldable pub check_notify : PathNotify → Bool
  unfolding check_info
  check_notify p = check_info p.info p.source
