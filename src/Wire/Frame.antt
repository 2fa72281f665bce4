-- ===== src/Wire/Frame.antt =====
-- Link framing: src/frame.rs, and `read_frame_from` and `write_frame_to` of src/link.rs over a stream
-- of bytes that ends where the list does.
pub mod Encode
pub mod RoundTrip
use roots.Prelude.{
  ℕ, zero, suc, ◌+◌, ◌*◌, Bool, ◌&&◌, ◌||◌, not, Option, some, none, List, [], ◌∷◌, ◌++◌, ltb, leb,
  ◌==◌, if◌then◌else◌, length, take, drop, set, copy_into, replicate,
}
use roots.Error.{Error, io, Result, ok, err, ok_or, guard, length_error, ◌>>=◌, ◌>>◌}
use roots.Wire.Uvarint.{write_uvarint_at, read_uvarint, wire_len}

abbrev pub max_message_size : ℕ
max_message_size = 65535 * 2

abbrev pub max_len_prefix : ℕ
max_len_prefix = 5

pub data FrameType : Type 0 where
  dummy keep_alive sig_req sig_res announce : FrameType
  bloom_filter path_lookup path_notify path_broken traffic : FrameType

-- `ftype as u8`
unfoldable pub as_byte : FrameType → ℕ
as_byte dummy = 0
as_byte keep_alive = 1
as_byte sig_req = 2
as_byte sig_res = 3
as_byte announce = 4
as_byte bloom_filter = 5
as_byte path_lookup = 6
as_byte path_notify = 7
as_byte path_broken = 8
as_byte traffic = 9

-- `FrameType::ALL`
abbrev pub all_types : List FrameType
all_types =
    dummy ∷ keep_alive ∷ sig_req ∷ sig_res ∷ announce ∷ bloom_filter ∷ path_lookup ∷ path_notify
    ∷ path_broken ∷ traffic ∷ []

unfoldable pub from_byte : ℕ → Result FrameType
from_byte b =
    if b == 0
    then ok dummy
    else if b == 1
    then ok keep_alive
    else if b == 2
    then ok sig_req
    else if b == 3
    then ok sig_res
    else if b == 4
    then ok announce
    else if b == 5
    then ok bloom_filter
    else if b == 6
    then ok path_lookup
    else if b == 7
    then ok path_notify
    else if b == 8
    then ok path_broken
    else if b == 9
    then ok traffic
    else err length_error

-- The count and the buffer after the call; on an error the buffer is as it was. The error `io` stands
-- for the panic of `write_uvarint` past the five bytes of the prefix.
unfoldable pub encode_frame_to : FrameType → List ℕ → List ℕ → Result (ℕ × List ℕ)
encode_frame_to ftype payload out =
    let (prefix, n) = write_uvarint_at (replicate max_len_prefix 0) 0 (length payload + 1) in
    let need = n + 1 + length payload in
    if ltb max_len_prefix n
    then err io
    else if ltb (length out) need
    then err length_error
    else ok
        (need, copy_into (set (copy_into out 0 (take n prefix)) n (as_byte ftype)) (n + 1) payload)

-- An error stands for the panic of `expect`.
unfoldable pub encode_frame : FrameType → List ℕ → Result (List ℕ)
encode_frame ftype payload = do
  (n, out) ←
      encode_frame_to ftype payload (replicate (wire_len (length payload) + max_len_prefix) 0)
  ok (take n out)

unfoldable pub decode_body : List ℕ → Result (FrameType × List ℕ)
decode_body [] = err length_error
decode_body (b ∷ payload) =
    if ltb max_message_size (length (b ∷ payload))
    then err length_error
    else do ftype ← from_byte b; ok (ftype, payload)

-- `stream.read_exact` of `n` bytes
unfoldable pub read_exact : ℕ → List ℕ → Error → Result (List ℕ × List ℕ)
read_exact n stream at_end =
    if ltb (length stream) n then err at_end else ok (take n stream, drop n stream)

-- The bytes up to the first below 0x80, at most ten: `left` counts what the prefix may still grow by.
read_prefix : ℕ → List ℕ → Result (List ℕ × List ℕ)
read_prefix left [] = err io
read_prefix zero (b ∷ stream) = err length_error
read_prefix (suc left) (b ∷ stream) =
    let more = (do (prefix, rest) ← read_prefix left stream; ok (b ∷ prefix, rest)) in
    if ltb b 0x80 then ok (b ∷ [], stream) else if left == 0 then err length_error else more

-- The frame and the rest of the stream.
unfoldable pub read_frame_from : List ℕ → Result ((FrameType × List ℕ) × List ℕ)
unfolding read_prefix
read_frame_from stream = do
  (prefix, rest) ← read_prefix 10 stream
  (len, n) ← ok_or (read_uvarint prefix) length_error
  guard (not (len == 0 || ltb max_message_size len)) length_error
  (body, rest') ← read_exact len rest length_error
  frame ← decode_body body
  ok (frame, rest')

-- What the peer's stream holds after the call.
unfoldable pub write_frame_to : List ℕ → FrameType → List ℕ → Result (List ℕ)
write_frame_to stream ftype payload = do enc ← encode_frame ftype payload; ok (stream ++ enc)
