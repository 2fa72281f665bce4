-- ===== src/Examples/Wire.antt =====
-- The wire formats at small messages.
use Prim.Native.Nat.{ℕ, ◌<◌, ◌≤◌, ◌^◌}
use roots.Prelude.{◌≡◌, refl, true, none, some, List, [], ◌∷◌, ◌++◌, arith, length, drop}
use roots.Error.{ok, err, length_error}
use roots.Crypto.{toy}
use roots.Wire.Uvarint.{uvarint_len, append_uvarint, read_uvarint, wire_len}
use roots.Wire.Uvarint.Equations.{uvarint}
use roots.Wire.Uvarint.RoundTrip.{read_uvarint-uvarint}
use roots.Wire.Uvarint.Bounds.{read_uvarint_bounds}
use roots.Wire.PortPath.{path_len, append_path, split_path}
use roots.Wire.PortPath.RoundTrip.{split_path-append_path}
use roots.Wire.Frame.{announce, sig_req, encode_frame_to, read_frame_from, write_frame_to}
use roots.Wire.Frame.Encode.{frame_bytes, encode_frame_to-frame_bytes}
use roots.Wire.Frame.RoundTrip.{read_frame_from-write_frame_to}
use roots.Wire.Signed.{SigReq, Announce, encode_announce, decode_announce, check_announce, seal}
use roots.Wire.Signed.RoundTrip.{decode_announce-encode_announce}
use roots.Wire.Signed.Honest.{signed_announce, check_announce-seal}
use roots.Wire.Lookup.{
  PathLookup, PathNotify, PathBroken, encode_lookup, decode_lookup, encode_notify, decode_notify,
}
use roots.Wire.Lookup.RoundTrip.{decode_lookup-encode_lookup, decode_notify-encode_notify}
use roots.Wire.Traffic.{Traffic, encode, encode_to, encoded_len, decode}
use roots.Wire.Traffic.RoundTrip.{encode_to_exact, decode-encode}

read_uvarint-uvarint_example :
    read_uvarint (uvarint 300 ++ 9 ∷ []) ≡ some (300, length (uvarint 300))
read_uvarint-uvarint_example = read_uvarint-uvarint 300 (9 ∷ []) (omega arith)

three_hundred : append_uvarint [] 300 ≡ 172 ∷ 2 ∷ []
unfolding append_uvarint
three_hundred = refl

read_three_hundred : read_uvarint (172 ∷ 2 ∷ 9 ∷ []) ≡ some (300, 2)
unfolding read_uvarint
read_three_hundred = refl

-- Ten continued bytes, and a tenth byte above 1, are refused.
overlong :
    (read_uvarint (128 ∷ 128 ∷ 128 ∷ 128 ∷ 128 ∷ 128 ∷ 128 ∷ 128 ∷ 128 ∷ 128 ∷ 0 ∷ []) ≡ none)
    × (read_uvarint (128 ∷ 128 ∷ 128 ∷ 128 ∷ 128 ∷ 128 ∷ 128 ∷ 128 ∷ 128 ∷ 2 ∷ []) ≡ none)
unfolding read_uvarint
overlong = (refl, refl)

read_uvarint_bounds_example : (300 < 2 ^ 64) × (0 < 2) × (2 ≤ 10) × (2 ≤ 3)
read_uvarint_bounds_example = read_uvarint_bounds (172 ∷ 2 ∷ 9 ∷ []) 300 2 read_three_hundred

abbrev ports : List ℕ
ports = 3 ∷ 300 ∷ []

split_path-append_path_example :
    split_path (append_path [] ports ++ 7 ∷ []) ≡ some (ports, length (append_path [] ports))
split_path-append_path_example = split_path-append_path ports (7 ∷ []) (omega arith) (omega arith)

encode_frame_to-frame_bytes_example :
    encode_frame_to sig_req (1 ∷ []) (0 ∷ 0 ∷ 0 ∷ 9 ∷ [])
    ≡ ok (wire_len 1, frame_bytes sig_req (1 ∷ []) ++ drop (wire_len 1) (0 ∷ 0 ∷ 0 ∷ 9 ∷ []))
encode_frame_to-frame_bytes_example =
    encode_frame_to-frame_bytes sig_req (1 ∷ []) (0 ∷ 0 ∷ 0 ∷ 9 ∷ []) (omega arith) short
  where
    short : wire_len 1 ≤ 4
    short = unfold wire_len in omega arith

read_frame_from-write_frame_to_example :
    (out : List ℕ) × (write_frame_to [] announce (5 ∷ 6 ∷ []) ≡ ok ([] ++ out))
    × (read_frame_from (out ++ 9 ∷ []) ≡ ok ((announce, 5 ∷ 6 ∷ []), 9 ∷ []))
read_frame_from-write_frame_to_example =
    read_frame_from-write_frame_to [] announce (5 ∷ 6 ∷ []) (9 ∷ []) (omega arith)

abbrev request : SigReq
request = record { seq = 7; nonce = 500 }

abbrev sample : Announce
sample = record {
  key = 11;
  parent = 12;
  res = record { req = request; port = 3; psig = 13 };
  sig = 14;
}

decode_announce-encode_announce_example : decode_announce (encode_announce sample []) ≡ ok sample
decode_announce-encode_announce_example = decode_announce-encode_announce sample (omega arith)

check_announce-seal_example :
    check_announce toy (signed_announce toy (seal toy request 3 11 12 12) 11 12) ≡ true
check_announce-seal_example = check_announce-seal toy request 3 11 12

abbrev lookup : PathLookup
lookup = record { source = 1; dest = 2; from = ports }

decode_lookup-encode_lookup_example : decode_lookup (encode_lookup lookup [] ++ []) ≡ ok lookup
decode_lookup-encode_lookup_example = decode_lookup-encode_lookup lookup [] (omega arith)

abbrev notify : PathNotify
notify = record {
  path = ports;
  watermark = 9;
  source = 1;
  dest = 2;
  info = record { seq = 4; path = 5 ∷ []; sig = 6 };
}

decode_notify-encode_notify_example : decode_notify (encode_notify notify []) ≡ ok notify
decode_notify-encode_notify_example = decode_notify-encode_notify notify (omega arith)

abbrev broken : PathBroken
broken = record { path = ports; watermark = 9; source = 1; dest = 2 }

abbrev packet : Traffic
packet = record {
  path = ports;
  from = 5 ∷ [];
  source = 1;
  dest = 2;
  watermark = 9;
  payload = 8 ∷ 8 ∷ [];
}

decode-encode_example :
    (bytes : List ℕ) × (encode packet ≡ ok bytes)
    × (length bytes ≡ encoded_len packet)
    × (decode bytes ≡ ok packet)
decode-encode_example = decode-encode packet (omega arith)

encode_to_exact_example : encode_to packet (0 ∷ []) ≡ err length_error
unfolding encoded_len path_len uvarint_len
encode_to_exact_example = encode_to_exact packet (0 ∷ [])
