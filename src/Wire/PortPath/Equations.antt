-- ===== src/Wire/PortPath/Equations.antt =====
-- The bytes of a path, which the writers append or copy and the length function counts.
use roots.Prelude.{
  ℕ, ◌+◌, ◌≡◌, refl, ap, ◌∙◌, List, [], ◌∷◌, ◌++◌, append_assoc, arith, length, length-append,
  copy_into, copy_into-append,
}
use roots.Wire.Uvarint.{append_uvarint}
use roots.Wire.Uvarint.Equations.{
  uvarint, uvarint_small, append_uvarint-append, uvarint_len-uvarint, write_uvarint_at-copy_into,
}
use roots.Wire.PortPath.{append_path, path_len, write_path}

unfoldable pub path_bytes : List ℕ → List ℕ
path_bytes [] = 0 ∷ []
path_bytes (p ∷ ps) = uvarint p ++ path_bytes ps

pub append_path-append : (out path : List ℕ) → append_path out path ≡ out ++ path_bytes path
unfolding append_path path_bytes
append_path-append out [] =
    append_uvarint-append out 0 ∙ ap (◌++◌ out) (uvarint_small 0 (omega arith))
append_path-append out (p ∷ ps) =
    append_path-append (append_uvarint out p) ps
    ∙ ap (λ (o : List ℕ). o ++ path_bytes ps) (append_uvarint-append out p)
    ∙ append_assoc out (uvarint p) (path_bytes ps)

pub path_len-path_bytes : (path : List ℕ) → path_len path ≡ length (path_bytes path)
unfolding path_len path_bytes
path_len-path_bytes [] = refl
path_len-path_bytes (p ∷ ps) = omega (
  arith,
  uvarint_len-uvarint p,
  path_len-path_bytes ps,
  length-append (uvarint p) (path_bytes ps),
)

pub write_path-copy_into :
    (out : List ℕ) (at : ℕ) (path : List ℕ)
    → write_path out at path ≡ copy_into out at (path_bytes path)
unfolding write_path path_bytes
write_path-copy_into out at [] = refl
write_path-copy_into out at (p ∷ ps) =
    rw (write_uvarint_at-copy_into out at p, copy_into-append out at (uvarint p) (path_bytes ps))
      (write_path-copy_into (copy_into out at (uvarint p)) (at + length (uvarint p)) ps)
