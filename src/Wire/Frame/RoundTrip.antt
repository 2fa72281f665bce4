-- ===== src/Wire/Frame/RoundTrip.antt =====
-- A frame that is written is the frame that is read, and nothing behind it is touched.
use native.Mathlib.Nat.{pow-suc}
use roots.Prelude.{
  ℕ, zero, suc, ◌+◌, ◌/◌, ◌%◌, ◌^◌, ◌<◌, ◌≡◌, ◌↔◌, refl, sym, ap, ◌∙◌, some, List, [], ◌∷◌, ◌++◌,
  append_assoc, append-nil, arith, length, length-append, take-append, drop-append, get_elem?,
  Bool-cases, inl, inr, ltb, ltb→lt, ltb→le, le→ltb, lt→ltb, ◌==◌, false,
}
use roots.Error.{ok, length_error}
use roots.Wire.Uvarint.{read_uvarint}
use roots.Wire.Uvarint.Equations.{uvarint, uvarint_small, uvarint_large}
use roots.Wire.Uvarint.RoundTrip.{read_uvarint-uvarint}
use roots.Wire.Frame.Encode.{frame_bytes, encode_frame-frame_bytes}
use roots.Wire.Frame.{
  FrameType, dummy, as_byte, from_byte, all_types, max_message_size, decode_body, read_exact,
  read_prefix, read_frame_from, write_frame_to,
}

from_byte-as_byte : (ftype : FrameType) → from_byte (as_byte ftype) ≡ ok ftype
unfolding from_byte as_byte
from_byte-as_byte dummy = refl
from_byte-as_byte _ = refl

from_byte_back : (b : ℕ) (ftype : FrameType) → from_byte b ≡ ok ftype → as_byte ftype ≡ b
unfolding from_byte as_byte
from_byte_back b dummy e = ground arith
from_byte_back b _ e = ground arith

all_types-as_byte : (ftype : FrameType) → get_elem? all_types (as_byte ftype) ≡ some ftype
unfolding as_byte
all_types-as_byte dummy = refl
all_types-as_byte _ = refl

-- A byte decodes to a kind exactly if it is that kind's discriminant, which is its place in
-- `FrameType::ALL`.
pub from_byte_exact :
    (b : ℕ) (ftype : FrameType)
    → ((from_byte b ≡ ok ftype) ↔ (as_byte ftype ≡ b))
      × (get_elem? all_types (as_byte ftype) ≡ some ftype)
from_byte_exact b ftype =
    ((from_byte_back b ftype, λ e. rw (← e) (from_byte-as_byte ftype)), all_types-as_byte ftype)

read_prefix-uvarint :
    (left v : ℕ) (rest : List ℕ)
    → v < 128 ^ suc left
    → read_prefix (suc left) (uvarint v ++ rest) ≡ ok (uvarint v, rest)
unfolding read_prefix
read_prefix-uvarint zero v rest h =
    let small : v < 128 = omega arith in rw (uvarint_small v small, lt→ltb v 128 small) refl
read_prefix-uvarint (suc left) v rest h = elim (Bool-cases (ltb v 128)) [
  | inl small ↦ rw (uvarint_small v (ltb→lt v 128 small), small) refl
  | inr large ↦
      rw
        (
          uvarint_large v (ltb→le v 128 large),
          le→ltb (v % 128 + 128) 128 (omega arith),
          read_prefix-uvarint left (v / 128) rest (omega (arith, pow-suc 128 (suc left))),
        )
        (ground arith)
]

decode_body-as_byte :
    (ftype : FrameType) (payload : List ℕ)
    → length payload < max_message_size
    → decode_body (as_byte ftype ∷ payload) ≡ ok (ftype, payload)
unfolding decode_body
decode_body-as_byte ftype payload h =
    rw (le→ltb max_message_size (length (as_byte ftype ∷ payload)) h, from_byte-as_byte ftype) refl

read_exact-append :
    (xs rest : List ℕ) (n : ℕ)
    → length xs ≡ n
    → read_exact n (xs ++ rest) length_error ≡ ok (xs, rest)
unfolding read_exact
read_exact-append xs rest n h =
    rw
      (
        le→ltb (length (xs ++ rest)) n (omega (arith, length-append xs rest)),
        take-append xs rest n h,
        drop-append xs rest n h,
      )
      refl

read_frame_from-frame_bytes :
    (ftype : FrameType) (payload rest : List ℕ)
    → length payload < max_message_size
    → read_frame_from (frame_bytes ftype payload ++ rest) ≡ ok ((ftype, payload), rest)
unfolding read_frame_from frame_bytes
read_frame_from-frame_bytes ftype payload rest h =
    let n : ℕ = length payload + 1 in
    let body : List ℕ = as_byte ftype ∷ payload in
    let found : read_uvarint (uvarint n) ≡ some (n, length (uvarint n)) =
      ap read_uvarint (sym (append-nil (uvarint n))) ∙ read_uvarint-uvarint n [] (omega arith) in
    let nonzero : (n == 0) ≡ false = ground arith in
    let short : ltb max_message_size n ≡ false = le→ltb max_message_size n (omega arith) in
    rw
      (
        append_assoc (uvarint n) body rest,
        read_prefix-uvarint 9 n (body ++ rest) (omega arith),
        found,
        nonzero,
        short,
        read_exact-append body rest n (omega arith),
        decode_body-as_byte ftype payload h,
      )
      refl

-- A frame whose payload is shorter than the greatest message is written to a stream without an
-- error, and what it appends is read back as its type and payload, leaving the bytes that follow.
pub read_frame_from-write_frame_to :
    (stream : List ℕ) (ftype : FrameType) (payload rest : List ℕ)
    → length payload < max_message_size
    → (out : List ℕ) × (write_frame_to stream ftype payload ≡ ok (stream ++ out))
      × (read_frame_from (out ++ rest) ≡ ok ((ftype, payload), rest))
unfolding write_frame_to
read_frame_from-write_frame_to stream ftype payload rest h = (
  frame_bytes ftype payload,
  rw (encode_frame-frame_bytes ftype payload (omega arith)) refl,
  read_frame_from-frame_bytes ftype payload rest h,
)
