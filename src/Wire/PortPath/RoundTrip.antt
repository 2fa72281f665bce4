-- ===== src/Wire/PortPath/RoundTrip.antt =====
-- Splitting a path off what `append_path` wrote, and the fuel of the loop.
use mathlib.Core.Path.{ap₂}
use roots.Prelude.{
  ℕ, zero, suc, ◌+◌, ◌≤◌, ◌<◌, ◌^◌, ◌≡◌, refl, ap, sym, ◌∙◌, none, some, List, [], ◌∷◌, ◌++◌,
  append_assoc, append-nil, arith, length, length-append, drop, drop-append, All, if◌then◌else◌,
  ◌==◌, ltb, Option-cases, inl, inr,
}
use roots.Wire.Uvarint.{read_uvarint}
use roots.Wire.Uvarint.Equations.{uvarint, uvarint_small}
use roots.Wire.Uvarint.RoundTrip.{read_uvarint-uvarint}
use roots.Wire.PortPath.{append_path, split_loop, split_path}
use roots.Wire.PortPath.Equations.{path_bytes, append_path-append}

-- A port number on a path.
abbrev pub IsPort : ℕ → Type 0
IsPort p = (0 < p) × (p < 2 ^ 64)

split_round :
    (fuel : ℕ) (done : List ℕ) (off : ℕ) (buf : List ℕ) (v n : ℕ)
    → read_uvarint (drop off buf) ≡ some (v, n)
    → split_loop (suc fuel) done off buf ≡ (
        if v == 0
        then some (done, off + n)
        else if ltb 128 (length (done ++ v ∷ []))
        then none
        else split_loop fuel (done ++ v ∷ []) (off + n) buf)
unfolding split_loop
split_round fuel done off buf v n e = rw (e, split_loop) refl

read_behind :
    (pre : List ℕ) (v : ℕ) (rest : List ℕ)
    → v < 2 ^ 64
    → read_uvarint (drop (length pre) (pre ++ (uvarint v ++ rest))) ≡ some (v, length (uvarint v))
read_behind pre v rest h =
    ap read_uvarint (drop-append pre (uvarint v ++ rest) (length pre) refl)
    ∙ read_uvarint-uvarint v rest h

split_loop-path_bytes :
    (fuel : ℕ) (done path pre rest : List ℕ)
    → length done + length path ≤ 128
    → 129 ≤ fuel + length done
    → All IsPort path
    → split_loop fuel done (length pre) (pre ++ (path_bytes path ++ rest))
      ≡ some (done ++ path, length pre + length (path_bytes path))
unfolding path_bytes
split_loop-path_bytes zero done path pre rest short enough ports = absurd (omega arith)
split_loop-path_bytes (suc fuel) done [] pre rest short enough ports =
    let zero_byte : uvarint 0 ≡ 0 ∷ [] = uvarint_small 0 (omega arith) in
    let found : read_uvarint (drop (length pre) (pre ++ 0 ∷ rest)) ≡ some (0, 1) =
      ap (λ (u : List ℕ). read_uvarint (drop (length pre) (pre ++ (u ++ rest)))) (sym zero_byte)
      ∙ read_behind pre 0 rest (omega arith)
      ∙ ap (λ (u : List ℕ). some (0, length u)) zero_byte in
    split_round fuel done (length pre) (pre ++ 0 ∷ rest) 0 1 found
    ∙ ap (λ (d : List ℕ). some (d, length pre + 1)) (sym (append-nil done))
split_loop-path_bytes (suc fuel) done (p ∷ ps) pre rest short enough ports =
    let tail : List ℕ = path_bytes ps ++ rest in
    let buf : List ℕ = pre ++ (uvarint p ++ tail) in
    let off : ℕ = length pre + length (uvarint p) in
    let moved : split_loop fuel (done ++ p ∷ []) off buf
        ≡ some (done ++ p ∷ ps, off + length (path_bytes ps)) =
      ap₂ (split_loop fuel (done ++ p ∷ [])) (sym (length-append pre (uvarint p)))
        (sym (append_assoc pre (uvarint p) tail))
      ∙ split_loop-path_bytes fuel (done ++ p ∷ []) ps (pre ++ uvarint p) rest
          (omega (arith, length-append done (p ∷ []))) (omega (arith, length-append done (p ∷ [])))
          ports.1
      ∙ ap₂ (λ (d : List ℕ) (n : ℕ). some (d, n)) (append_assoc done (p ∷ []) ps)
          (omega (arith, length-append pre (uvarint p))) in
    rw (append_assoc (uvarint p) (path_bytes ps) rest) (
      split_round fuel done (length pre) buf p (length (uvarint p))
        (read_behind pre p tail ports.0.1)
      ∙ ground (
        arith,
        moved,
        ports.0.0,
        length-append done (p ∷ []),
        length-append (uvarint p) (path_bytes ps),
      ))

-- A path of at most 128 ports, none of them zero, is read back from the bytes that are written.
pub split_path-append_path :
    (path rest : List ℕ)
    → length path ≤ 128
    → All IsPort path
    → split_path (append_path [] path ++ rest) ≡ some (path, length (append_path [] path))
unfolding split_path
split_path-append_path path rest short ports =
    let e : append_path [] path ≡ path_bytes path = append_path-append [] path in
    rw e
      (split_loop-path_bytes 129 [] path [] rest (omega arith) (omega arith) ports ∙ ground arith)

-- On a path of at most 128 ports, with rounds left for 129 in all, more fuel changes nothing.
split_loop_enough :
    (fuel more : ℕ) (path : List ℕ) (off : ℕ) (buf : List ℕ)
    → 129 ≤ fuel + length path
    → length path ≤ 128
    → split_loop (fuel + more) path off buf ≡ split_loop fuel path off buf
split_loop_enough zero more path off buf h k = absurd (omega arith)
split_loop_enough (suc fuel) more path off buf h k =
    let e : suc fuel + more ≡ suc (fuel + more) = omega arith in
    rw e (elim (Option-cases (read_uvarint (drop off buf))) [
      | inl e ↦ unfold split_loop in rw (e, split_loop) refl
      | inr ((v, n), e) ↦
          rw (split_round (fuel + more) path off buf v n e, split_round fuel path off buf v n e)
            (ground (
              arith,
              length-append path (v ∷ []),
              split_loop_enough fuel more (path ++ v ∷ []) (off + n) buf,
            ))
    ])
