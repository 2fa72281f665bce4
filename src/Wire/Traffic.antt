-- ===== src/Wire/Traffic.antt =====
-- The traffic packet of src/traffic.rs.
pub mod RoundTrip
use roots.Prelude.{
  ℕ, ◌+◌, ◌*◌, List, ltb, leb, if◌then◌else◌, length, take, drop, copy_into, replicate,
}
use roots.Prelude.Bytes.{be_bytes, of_be}
use roots.Error.{Result, ok, err, ok_or, guard, length_error, ◌>>=◌, ◌>>◌}
use roots.Wire.Fields.{key_len}
use roots.Wire.Uvarint.{write_uvarint_at, read_uvarint, uvarint_len}
use roots.Wire.PortPath.{path_len, write_path, split_path}

pub record Traffic : Type 0 where
  pub path : List ℕ
  pub from : List ℕ
  pub source : ℕ
  pub dest : ℕ
  pub watermark : ℕ
  pub payload : List ℕ

abbrev pub fixed_len : ℕ
fixed_len = 2 * key_len

unfoldable pub encoded_len : Traffic → ℕ
encoded_len t =
    path_len t.path + path_len t.from + fixed_len + uvarint_len t.watermark + length t.payload

-- The writes in the source's order: both paths, both keys, the watermark, the payload.
write_fields : Traffic → List ℕ → ℕ × List ℕ
write_fields t out =
    let out₁ = write_path out 0 t.path in
    let at₁ = path_len t.path in
    let out₂ = write_path out₁ at₁ t.from in
    let at₂ = at₁ + path_len t.from in
    let out₃ = copy_into out₂ at₂ (be_bytes key_len t.source) in
    let at₃ = at₂ + key_len in
    let out₄ = copy_into out₃ at₃ (be_bytes key_len t.dest) in
    let at₄ = at₃ + key_len in
    let (out₅, at₅) = write_uvarint_at out₄ at₄ t.watermark in
    (at₅ + length t.payload, copy_into out₅ at₅ t.payload)

-- The count and the buffer after the call; on an error the buffer is as it was.
unfoldable pub encode_to : Traffic → List ℕ → Result (ℕ × List ℕ)
unfolding write_fields
encode_to t out =
    if ltb (length out) (encoded_len t) then err length_error else ok (write_fields t out)

-- An error stands for the panic of `expect`.
unfoldable pub encode : Traffic → Result (List ℕ)
encode t = do (n, out) ← encode_to t (replicate (encoded_len t) 0); ok out

unfoldable pub decode : List ℕ → Result Traffic
decode buf = do
  (path, n) ← ok_or (split_path buf) length_error
  (from, m) ← ok_or (split_path (drop n buf)) length_error
  let rest = drop (n + m) buf
  guard (leb (2 * key_len) (length rest)) length_error
  let tail = drop (2 * key_len) rest
  (watermark, k) ← ok_or (read_uvarint tail) length_error
  ok (record {
    path = path;
    from = from;
    source = of_be (take key_len rest);
    dest = of_be (take key_len (drop key_len rest));
    watermark = watermark;
    payload = drop k tail;
  })
