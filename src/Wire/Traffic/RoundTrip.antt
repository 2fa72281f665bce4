-- ===== src/Wire/Traffic/RoundTrip.antt =====
-- The buffer encoder writes one row of bytes, which the decoder reads back.
use mathlib.Core.Path.{ap₂}
use native.Mathlib.Nat.{zero-add}
use roots.Prelude.{
  ℕ, zero, ◌≤◌, ◌≡◌, refl, sym, ap, true, List, ◌++◌, append-nil, arith, length, drop, drop-append,
  drop-append_two, drop-all, length-append, copy_into, copy_into-append, copy_into-zero, replicate,
  length-replicate, ltb, if◌then◌else◌, Bool-cases, inl, inr, ltb→le, le→ltb, leb, le→leb,
}
use roots.Prelude.Bytes.{length-be_bytes}
use roots.Error.{ok, err, length_error, ◌>>=◌}
use roots.Wire.Fields.{
  IsU64, IsKey, read-field, drop-field, two_keys, length-two_keys, drop-two_keys, first_key,
  second_key,
}
use roots.Wire.PortPath.Equations.{path_bytes, path_len-path_bytes, write_path-copy_into}
use roots.Wire.Lookup.RoundTrip.{IsPath, split-field}
use roots.Wire.Uvarint.Equations.{uvarint, uvarint_len-uvarint, write_uvarint_at-copy_into}
use roots.Wire.Traffic.{Traffic, encoded_len, write_fields, encode_to, encode, decode}

abbrev after_paths : Traffic → List ℕ
after_paths t = two_keys t.source t.dest (uvarint t.watermark ++ t.payload)

unfoldable pub traffic_bytes : Traffic → List ℕ
traffic_bytes t = path_bytes t.path ++ (path_bytes t.from ++ after_paths t)

pub encoded_len-traffic_bytes : (t : Traffic) → encoded_len t ≡ length (traffic_bytes t)
unfolding encoded_len traffic_bytes
encoded_len-traffic_bytes t = omega (
  arith,
  path_len-path_bytes t.path,
  path_len-path_bytes t.from,
  uvarint_len-uvarint t.watermark,
  length-append (path_bytes t.path) (path_bytes t.from ++ after_paths t),
  length-append (path_bytes t.from) (after_paths t),
  length-two_keys t.source t.dest (uvarint t.watermark ++ t.payload),
  length-append (uvarint t.watermark) t.payload,
)

write_fields_count : (t : Traffic) (out : List ℕ) → (write_fields t out).0 ≡ encoded_len t
unfolding write_fields encoded_len
write_fields_count t out =
    rw write_uvarint_at-copy_into (omega (arith, uvarint_len-uvarint t.watermark))

write_fields_buffer :
    (t : Traffic) (out : List ℕ) → (write_fields t out).1 ≡ copy_into out 0 (traffic_bytes t)
unfolding write_fields traffic_bytes
write_fields_buffer t out = simp (
  write_path-copy_into, write_uvarint_at-copy_into, path_len-path_bytes, copy_into-append, zero-add,
  length-be_bytes,
)

write_fields-traffic_bytes :
    (t : Traffic) (out : List ℕ)
    → write_fields t out ≡ (encoded_len t, copy_into out 0 (traffic_bytes t))
write_fields-traffic_bytes t out =
    ap₂ (λ (n : ℕ) (b : List ℕ). (n, b)) (write_fields_count t out) (write_fields_buffer t out)

-- A buffer of `encoded_len` bytes or more gets the packet at its front and keeps the rest; a smaller
-- one is refused.
pub encode_to_exact :
    (t : Traffic) (out : List ℕ)
    → encode_to t out ≡ (
        if ltb (length out) (encoded_len t)
        then err length_error
        else ok (encoded_len t, traffic_bytes t ++ drop (encoded_len t) out))
unfolding encode_to
encode_to_exact t out = elim (Bool-cases (ltb (length out) (encoded_len t))) [
  | inl short ↦ rw short refl
  | inr room ↦
      let fits : length (traffic_bytes t) ≤ length out =
        omega (arith, encoded_len-traffic_bytes t, ltb→le (length out) (encoded_len t) room) in
      rw (room, write_fields-traffic_bytes t out, encoded_len-traffic_bytes t)
        (ap (λ (o : List ℕ). ok (length (traffic_bytes t), o))
          (copy_into-zero out (traffic_bytes t) fits))
]

abbrev pub IsTraffic : Traffic → Type 0
IsTraffic t = IsPath t.path × IsPath t.from × IsKey t.source × IsKey t.dest × IsU64 t.watermark

decode-traffic_bytes : (t : Traffic) → IsTraffic t → decode (traffic_bytes t) ≡ ok t
unfolding decode traffic_bytes
decode-traffic_bytes t h =
    let keyed : List ℕ = after_paths t in
    let tail : List ℕ = uvarint t.watermark ++ t.payload in
    let long : leb 64 (length keyed) ≡ true =
      le→leb 64 (length keyed) (omega (arith, length-two_keys t.source t.dest tail)) in
    rw
      (
        split-field t.path (path_bytes t.from ++ keyed) h.0,
        drop-append (path_bytes t.path) (path_bytes t.from ++ keyed) (length (path_bytes t.path))
            refl,
        split-field t.from keyed h.1,
        drop-append_two (path_bytes t.path) (path_bytes t.from) keyed,
        long,
        drop-two_keys t.source t.dest tail,
        read-field t.watermark t.payload h.4,
        drop-field t.watermark t.payload h.4,
        first_key t.source t.dest tail h.2,
        second_key t.source t.dest tail h.3,
      )
      refl

-- For a packet whose numbers fit their fields and whose paths are well formed, the allocating
-- encoder returns bytes, as many as `encoded_len` says, and `decode` gives the packet back.
pub decode-encode :
    (t : Traffic)
    → IsTraffic t
    → (bytes : List ℕ) × (encode t ≡ ok bytes)
      × (length bytes ≡ encoded_len t)
      × (decode bytes ≡ ok t)
unfolding encode
decode-encode t h =
    (traffic_bytes t, whole, sym (encoded_len-traffic_bytes t), decode-traffic_bytes t h)
  where
    whole : (do (n, out) ← encode_to t (replicate (encoded_len t) 0); ok out) ≡ ok (traffic_bytes t)
    whole =
        let buffer : length (replicate (encoded_len t) zero) ≡ encoded_len t =
          length-replicate (encoded_len t) zero in
        rw
          (
            encode_to_exact t (replicate (encoded_len t) 0),
            le→ltb (length (replicate (encoded_len t) zero)) (encoded_len t) (omega arith),
            drop-all (replicate (encoded_len t) zero) (encoded_len t) buffer,
            append-nil,
          )
          refl
