-- ===== src/Wire/Uvarint/Equations.antt =====
-- The loops of `Uvarint` step by step, without the proofs of termination that they carry.
use mathlib.Core.Logic.{dif_pos, dif_neg}
use mathlib.Core.WellFounded.{Acc}
use native.Mathlib.Bridge.{le_prop}
use native.Mathlib.Decide.{dec_le}
use Prim.Native.Nat.{bit_or}
use roots.Prelude.{
  ℕ, zero, suc, ◌+◌, ◌/◌, ◌%◌, ◌≤◌, ◌<◌, ◌≡◌, refl, sym, append_assoc, List, [], ◌∷◌, ◌++◌, arith,
  ap, ◌∙◌, set, length, copy_into,
}
use roots.Prelude.Bits.{bit_or_128}
use roots.Prelude.Order.{lt_wf}
use roots.Wire.Uvarint.{
  append_loop, append_uvarint, write_loop, write_uvarint_at, prefix_loop, wire_len, len_loop,
  uvarint_len, shift_shrinks, rest_shrinks,
}

-- The byte of a group that others follow.
continued : (v : ℕ) → bit_or (v % 256) 0x80 ≡ v % 128 + 128
continued v = omega (arith, bit_or_128 (v % 256) (omega arith))

append_loop_any :
    (out : List ℕ) (v : ℕ) (p q : Acc ◌<◌ v) → append_loop out v p ≡ append_loop out v q
unfolding append_loop
append_loop_any out v (Acc.intro _ s) (Acc.intro _ t) = elim (dec_le 0x80 v) [
  | yes h ↦
      rw (dif_pos (dec_le 0x80 v) le_prop h, dif_pos (dec_le 0x80 v) le_prop h)
        (append_loop_any (out ++ bit_or (v % 256) 0x80 ∷ []) (v / 128) (s _ _) (t _ _))
  | no h ↦ rw (dif_neg (dec_le 0x80 v) h, dif_neg (dec_le 0x80 v) h) refl
]

append_loop_small :
    (out : List ℕ) (v : ℕ) (w : Acc ◌<◌ v) → v < 128 → append_loop out v w ≡ out ++ v ∷ []
unfolding append_loop
append_loop_small out v (Acc.intro _ s) h =
    rw (dif_neg (dec_le 0x80 v) (λ (k : 0x80 ≤ v). omega arith))
      (ap (λ (b : ℕ). out ++ b ∷ []) (omega arith))

append_loop_large :
    (out : List ℕ) (v : ℕ) (w : Acc ◌<◌ v) (w' : Acc ◌<◌ (v / 128))
    → 128 ≤ v
    → append_loop out v w ≡ append_loop (out ++ (v % 128 + 128) ∷ []) (v / 128) w'
unfolding append_loop
append_loop_large out v (Acc.intro _ s) w' h =
    rw (dif_pos (dec_le 0x80 v) le_prop h, continued v)
      (append_loop_any (out ++ (v % 128 + 128) ∷ []) (v / 128) (s _ (shift_shrinks v h)) w')

pub append_uvarint_small : (out : List ℕ) (v : ℕ) → v < 128 → append_uvarint out v ≡ out ++ v ∷ []
unfolding append_uvarint
append_uvarint_small out v h = append_loop_small out v (lt_wf.apply v) h

pub append_uvarint_large :
    (out : List ℕ) (v : ℕ)
    → 128 ≤ v
    → append_uvarint out v ≡ append_uvarint (out ++ (v % 128 + 128) ∷ []) (v / 128)
unfolding append_uvarint
append_uvarint_large out v h = append_loop_large out v (lt_wf.apply v) (lt_wf.apply (v / 128)) h

append_uvarint-prefix :
    (n : ℕ) (out : List ℕ) (v : ℕ) → v ≤ n → append_uvarint out v ≡ out ++ append_uvarint [] v
append_uvarint-prefix zero out v h =
    rw (append_uvarint_small out v (omega arith), append_uvarint_small [] v (omega arith)) refl
append_uvarint-prefix (suc n) out v h = elim (dec_le 0x80 v) [
  | yes k ↦
      let b : ℕ = v % 128 + 128 in
      let less : v / 128 ≤ n = omega arith in
      append_uvarint_large out v k
      ∙ append_uvarint-prefix n (out ++ b ∷ []) (v / 128) less
      ∙ append_assoc out (b ∷ []) (append_uvarint [] (v / 128))
      ∙ ap (◌++◌ out)
          (sym (append_uvarint_large [] v k ∙ append_uvarint-prefix n (b ∷ []) (v / 128) less))
  | no k ↦
      rw (append_uvarint_small out v (omega arith), append_uvarint_small [] v (omega arith)) refl
]

-- The bytes of one value.
abbrev pub uvarint : ℕ → List ℕ
uvarint v = append_uvarint [] v

pub append_uvarint-append : (out : List ℕ) (v : ℕ) → append_uvarint out v ≡ out ++ uvarint v
append_uvarint-append out v = append_uvarint-prefix v out v (omega arith)

pub uvarint_small : (v : ℕ) → v < 128 → uvarint v ≡ v ∷ []
uvarint_small v h = append_uvarint_small [] v h

pub uvarint_large : (v : ℕ) → 128 ≤ v → uvarint v ≡ (v % 128 + 128) ∷ uvarint (v / 128)
uvarint_large v h =
    append_uvarint_large [] v h ∙ append_uvarint-append ((v % 128 + 128) ∷ []) (v / 128)

-- The counting loops count the bytes.
prefix_loop-uvarint :
    (prefix rest : ℕ) (w : Acc ◌<◌ rest)
    → prefix_loop prefix rest w + 1 ≡ prefix + length (uvarint rest)
unfolding prefix_loop
prefix_loop-uvarint prefix rest (Acc.intro _ s) = elim (dec_le 0x80 rest) [
  | yes h ↦
      rw (dif_pos (dec_le 0x80 rest) le_prop h, uvarint_large rest h)
        (omega (arith, prefix_loop-uvarint (prefix + 1) (rest / 128) (s _ (shift_shrinks rest h))))
  | no h ↦ rw (dif_neg (dec_le 0x80 rest) h, uvarint_small rest (omega arith)) (omega arith)
]

pub wire_len-uvarint :
    (payload_len : ℕ) → wire_len payload_len ≡ length (uvarint (payload_len + 1)) + 1 + payload_len
unfolding wire_len
wire_len-uvarint payload_len =
    omega (arith, prefix_loop-uvarint 1 (payload_len + 1) (lt_wf.apply (payload_len + 1)))

len_loop-uvarint :
    (n v rest : ℕ) (w : Acc ◌<◌ rest)
    → rest ≡ v / 128
    → len_loop n rest w + 1 ≡ n + length (uvarint v)
unfolding len_loop
len_loop-uvarint n v rest (Acc.intro _ s) e = elim (dec_le 1 rest) [
  | yes h ↦
      let more : length (uvarint v) ≡ suc (length (uvarint rest)) =
        ap length (uvarint_large v (omega arith))
        ∙ ap (λ (r : ℕ). suc (length (uvarint r))) (sym e) in
      rw (dif_pos (dec_le 1 rest) le_prop h) (
        omega (
          arith,
          len_loop-uvarint (n + 1) rest (rest / 128) (s _ (rest_shrinks rest h)) refl,
          more,
        ))
  | no h ↦ rw (dif_neg (dec_le 1 rest) h) (omega (arith, ap length (uvarint_small v (omega arith))))
]

pub uvarint_len-uvarint : (v : ℕ) → uvarint_len v ≡ length (uvarint v)
unfolding uvarint_len
uvarint_len-uvarint v = omega (arith, len_loop-uvarint 1 v (v / 128) (lt_wf.apply (v / 128)) refl)

-- The buffer loop copies the same bytes.
write_loop-copy_into :
    (out : List ℕ) (n v : ℕ) (w : Acc ◌<◌ v)
    → write_loop out n v w ≡ (copy_into out n (uvarint v), n + length (uvarint v))
unfolding write_loop
write_loop-copy_into out n v (Acc.intro _ s) = elim (dec_le 0x80 v) [
  | yes h ↦
      rw (dif_pos (dec_le 0x80 v) le_prop h, continued v, uvarint_large v h)
        (write_loop-copy_into (set out n (v % 128 + 128)) (suc n) (v / 128)
            (s _ (shift_shrinks v h))
          ∙ ground arith)
  | no h ↦
      let e : v % 256 ≡ v = omega arith in
      rw (dif_neg (dec_le 0x80 v) h, uvarint_small v (omega arith), e) (ground arith)
]

-- `write_uvarint(&mut out[at..], v)`
pub write_uvarint_at-copy_into :
    (out : List ℕ) (at v : ℕ)
    → write_uvarint_at out at v ≡ (copy_into out at (uvarint v), at + length (uvarint v))
unfolding write_uvarint_at
write_uvarint_at-copy_into out at v = write_loop-copy_into out at v (lt_wf.apply v)
