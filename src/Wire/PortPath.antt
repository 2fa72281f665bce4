-- ===== src/Wire/PortPath.antt =====
-- Tree paths of src/frame.rs and src/traffic.rs: ports as uvarints, and a zero.
pub mod Equations
pub mod RoundTrip
use mathlib.Core.List.{foldl}
use roots.Prelude.{
  ℕ, zero, suc, ◌+◌, Option, none, some, List, [], ◌∷◌, ◌++◌, ltb, ◌==◌, if◌then◌else◌, length,
  drop, set,
}
use roots.Wire.Uvarint.{append_uvarint, write_uvarint_at, read_uvarint, uvarint_len}

unfoldable pub append_path : List ℕ → List ℕ → List ℕ
append_path out path = append_uvarint (foldl append_uvarint out path) 0

-- `path.iter().map(|p| uvarint_len(*p)).sum()`
port_len_sum : List ℕ → ℕ
port_len_sum [] = 0
port_len_sum (p ∷ ps) = uvarint_len p + port_len_sum ps

unfoldable pub path_len : List ℕ → ℕ
unfolding port_len_sum
path_len path = port_len_sum path + 1

-- `write_path(&mut out[at..], path)`
unfoldable pub write_path : List ℕ → ℕ → List ℕ → List ℕ
write_path out at [] = set out at 0
write_path out at (p ∷ ps) = let (out', at') = write_uvarint_at out at p in write_path out' at' ps

-- One port a round; no more than 129 rounds are made, since the 129th port is refused.
unfoldable pub split_loop : ℕ → List ℕ → ℕ → List ℕ → Option (List ℕ × ℕ)
split_loop zero path off buf = none
split_loop (suc fuel) path off buf = elim (read_uvarint (drop off buf)) [
  | none ↦ none
  | some (v, n) ↦
      let more = split_loop fuel (path ++ v ∷ []) (off + n) buf in
      if v == 0
      then some (path, off + n)
      else if ltb 128 (length (path ++ v ∷ []))
      then none
      else more
]

unfoldable pub split_path : List ℕ → Option (List ℕ × ℕ)
split_path buf = split_loop 129 [] 0 buf
