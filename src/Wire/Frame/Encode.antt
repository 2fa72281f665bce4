-- ===== src/Wire/Frame/Encode.antt =====
-- What the two encoders write.
use mathlib.Core.Path.{ap₂}
use native.Mathlib.Nat.{zero-add, pow-suc}
use roots.Prelude.{
  ℕ, zero, suc, ◌/◌, if◌then◌else◌, ltb, ltb→lt, inl, inr, Bool-cases, ◌+◌, ◌^◌, ◌≤◌, ◌<◌, ◌≡◌,
  refl, sym, ap, ◌∙◌, List, ◌∷◌, ◌++◌, arith, length, take, drop, set, copy_into, replicate,
  length-append, length-replicate, copy_into-append, copy_into-zero, take-append, ltb→le, le→ltb,
  lt→ltb,
}
use roots.Error.{ok, err, length_error}
use roots.Wire.Uvarint.{wire_len}
use roots.Wire.Uvarint.Equations.{
  uvarint, uvarint_small, uvarint_large, write_uvarint_at-copy_into, wire_len-uvarint,
}
use roots.Wire.Frame.{FrameType, as_byte, max_len_prefix, encode_frame_to, encode_frame}

-- The bytes of a frame.
unfoldable pub frame_bytes : FrameType → List ℕ → List ℕ
frame_bytes ftype payload = uvarint (length payload + 1) ++ as_byte ftype ∷ payload

length-uvarint-le : (k v : ℕ) → v < 128 ^ suc k → length (uvarint v) ≤ suc k
length-uvarint-le zero v h = omega (arith, ap length (uvarint_small v (omega arith)))
length-uvarint-le (suc k) v h = elim (Bool-cases (ltb v 128)) [
  | inl small ↦ omega (arith, ap length (uvarint_small v (ltb→lt v 128 small)))
  | inr large ↦ omega (
    arith,
    ap length (uvarint_large v (ltb→le v 128 large)),
    length-uvarint-le k (v / 128) (omega (arith, pow-suc 128 (suc k))),
  )
]

pub length-frame_bytes :
    (ftype : FrameType) (payload : List ℕ)
    → length (frame_bytes ftype payload) ≡ wire_len (length payload)
unfolding frame_bytes
length-frame_bytes ftype payload = omega (
  arith,
  wire_len-uvarint (length payload),
  length-append (uvarint (length payload + 1)) (as_byte ftype ∷ payload),
)

module _ (ftype : FrameType) (payload out : List ℕ) (fits : length payload + 1 < 2 ^ 35) where
  abbrev prefix : List ℕ
  prefix = uvarint (length payload + 1)

  prefix_whole : take (length prefix) (copy_into (replicate max_len_prefix 0) 0 prefix) ≡ prefix
  prefix_whole =
      ap (take (length prefix)) (
        copy_into-zero (replicate max_len_prefix 0) prefix
          (length-uvarint-le 4 (length payload + 1) fits))
      ∙ take-append prefix (drop (length prefix) (replicate max_len_prefix 0)) (length prefix) refl

  -- The three copies are one.
  copies_joined :
      copy_into
        (set (copy_into out 0 prefix) (length prefix) (as_byte ftype))
        (length prefix + 1)
        payload
      ≡ copy_into out 0 (frame_bytes ftype payload)
  unfolding frame_bytes
  copies_joined = sym (
      copy_into-append out 0 prefix (as_byte ftype ∷ payload)
      ∙ ap₂ (λ (m n : ℕ). copy_into (set (copy_into out 0 prefix) m (as_byte ftype)) n payload)
          (omega arith) (omega arith))

  encode_frame_to_steps : encode_frame_to ftype payload out ≡ (
      if ltb (length out) (wire_len (length payload))
      then err length_error
      else ok (wire_len (length payload), copy_into out 0 (frame_bytes ftype payload)))
  unfolding encode_frame_to
  encode_frame_to_steps =
      rw
        (
          write_uvarint_at-copy_into (replicate max_len_prefix 0) 0 (length payload + 1),
          zero-add,
          le→ltb max_len_prefix (length prefix) (length-uvarint-le 4 (length payload + 1) fits),
          prefix_whole,
          copies_joined,
          ← wire_len-uvarint,
        )
        refl

  -- A buffer of at least `wire_len` bytes gets the frame at its front and keeps the rest, and the
  -- count is `wire_len`, for a payload of fewer than 2^35 - 1 bytes.
  pub encode_frame_to-frame_bytes :
      wire_len (length payload) ≤ length out
      → encode_frame_to ftype payload out
        ≡ ok (
          wire_len (length payload),
          frame_bytes ftype payload ++ drop (wire_len (length payload)) out,
        )
  encode_frame_to-frame_bytes h =
      rw
        (
          encode_frame_to_steps,
          le→ltb (length out) (wire_len (length payload)) h,
          ← length-frame_bytes ftype payload,
        )
        (ap (λ (o : List ℕ). ok (length (frame_bytes ftype payload), o))
          (copy_into-zero out (frame_bytes ftype payload)
            (omega (arith, length-frame_bytes ftype payload))))

  -- A smaller buffer is refused.
  pub encode_frame_to_short :
      length out < wire_len (length payload) → encode_frame_to ftype payload out ≡ err length_error
  encode_frame_to_short h =
      rw (encode_frame_to_steps, lt→ltb (length out) (wire_len (length payload)) h) refl

-- The allocating form does not panic either.
pub encode_frame-frame_bytes :
    (ftype : FrameType) (payload : List ℕ)
    → length payload + 1 < 2 ^ 35
    → encode_frame ftype payload ≡ ok (frame_bytes ftype payload)
unfolding encode_frame
encode_frame-frame_bytes ftype payload h =
    let out : List ℕ = replicate (wire_len (length payload) + max_len_prefix) 0 in
    let room : wire_len (length payload) ≤ length out =
      omega (arith, length-replicate (wire_len (length payload) + max_len_prefix) zero) in
    rw (encode_frame_to-frame_bytes ftype payload out h room) (
      ap ok (
        take-append (frame_bytes ftype payload) (drop (wire_len (length payload)) out)
          (wire_len (length payload)) (length-frame_bytes ftype payload)))
