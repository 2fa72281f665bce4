-- ===== src/Wire/Uvarint.antt =====
-- The variable-length integers of src/frame.rs and the length functions of src/traffic.rs. Values are
-- u64: the functions are total, and the theorems ask for `v < 2 ^ 64`.
pub mod Equations
pub mod RoundTrip
pub mod Bounds
use Prim.Native.Nat.{bit_and, bit_or}
use mathlib.Core.Logic.{dite}
use mathlib.Core.WellFounded.{Acc}
use native.Mathlib.Decide.{dec_le}
use roots.Prelude.{
  ℕ, zero, suc, ◌+◌, ◌*◌, ◌/◌, ◌%◌, ◌^◌, ◌≤◌, ◌<◌, ◌&&◌, Option, none, some, List, [], ◌∷◌, ◌++◌,
  arith, ltb, leb, ◌==◌, if◌then◌else◌, set,
}
use roots.Prelude.Order.{lt_wf}

pub shift_shrinks : (v : ℕ) → 0x80 ≤ v → v / 128 < v
shift_shrinks v h = omega arith

-- `while v >= 0x80 { out.push((v as u8) | 0x80); v >>= 7 }; out.push(v as u8)`
append_loop : List ℕ → (v : ℕ) → Acc ◌<◌ v → List ℕ
append_loop out v (Acc.intro _ smaller) =
    dite (dec_le 0x80 v)
      (λ more.
        append_loop (out ++ bit_or (v % 256) 0x80 ∷ []) (v / 128)
          (smaller _ (shift_shrinks v more)))
      (λ _. out ++ (v % 256) ∷ [])

unfoldable pub append_uvarint : List ℕ → ℕ → List ℕ
unfolding append_loop lt_wf dec_le
append_uvarint out v = append_loop out v (lt_wf.apply v)

-- The same loop into a buffer, from position `n`; the result is the buffer and the end position.
write_loop : List ℕ → ℕ → (v : ℕ) → Acc ◌<◌ v → List ℕ × ℕ
write_loop out n v (Acc.intro _ smaller) =
    dite (dec_le 0x80 v)
      (λ more.
        write_loop (set out n (bit_or (v % 256) 0x80)) (suc n) (v / 128)
          (smaller _ (shift_shrinks v more)))
      (λ _. (set out n (v % 256), suc n))

-- `write_uvarint(&mut out[at..], v)`: the buffer and the position after the value.
unfoldable pub write_uvarint_at : List ℕ → ℕ → ℕ → List ℕ × ℕ
unfolding write_loop lt_wf dec_le
write_uvarint_at out at v = write_loop out at v (lt_wf.apply v)

-- The counting loop of `wire_len`: one byte for each further group of seven bits.
prefix_loop : ℕ → (rest : ℕ) → Acc ◌<◌ rest → ℕ
prefix_loop prefix rest (Acc.intro _ smaller) =
    dite (dec_le 0x80 rest)
      (λ more. prefix_loop (prefix + 1) (rest / 128) (smaller _ (shift_shrinks rest more)))
      (λ _. prefix)

unfoldable pub wire_len : ℕ → ℕ
unfolding prefix_loop lt_wf dec_le
wire_len payload_len = let body = payload_len + 1 in prefix_loop 1 body (lt_wf.apply body) + body

pub rest_shrinks : (r : ℕ) → 1 ≤ r → r / 128 < r
rest_shrinks r h = omega arith

-- `uvarint_len` of src/traffic.rs tests the rest after the shift.
len_loop : ℕ → (rest : ℕ) → Acc ◌<◌ rest → ℕ
len_loop n rest (Acc.intro _ smaller) =
    dite (dec_le 1 rest)
      (λ more. len_loop (n + 1) (rest / 128) (smaller _ (rest_shrinks rest more))) (λ _. n)

unfoldable pub uvarint_len : ℕ → ℕ
unfolding len_loop lt_wf dec_le
uvarint_len v = len_loop 1 (v / 128) (lt_wf.apply (v / 128))

-- One round of `read_uvarint` a byte: `i` counts the bytes read and `left` the rounds left of ten.
read_loop : ℕ → ℕ → ℕ → List ℕ → Option (ℕ × ℕ)
read_loop zero i x buf = none
read_loop (suc left) i x [] = none
read_loop (suc left) i x (b ∷ buf) =
    let more = read_loop left (i + 1) (bit_or x (bit_and b 0x7f * 2 ^ (7 * i) % 2 ^ 64)) buf in
    if ltb b 0x80
    then (if i == 9 && ltb 1 b then none else some (bit_or x (b * 2 ^ (7 * i) % 2 ^ 64), i + 1))
    else more

unfoldable pub read_uvarint : List ℕ → Option (ℕ × ℕ)
unfolding read_loop
read_uvarint buf = read_loop 10 0 0 buf
