-- ===== src/Prelude/Bytes.antt =====
-- Fixed-length byte arrays, as the big-endian numbers that they spell.
use Prim.Native.Nat.{ℕ, zero, suc, ◌+◌, ◌*◌, ◌/◌, ◌%◌, ◌^◌, ◌<◌}
use native.Mathlib.Nat.{pow-suc}
use mathlib.Core.Path.{◌≡◌, refl}
use mathlib.Core.List.{List, [], ◌∷◌, ◌++◌}
use native.Mathlib.Omega.{arith}
use roots.Prelude.Lists.{length, length-append, All, All-append}

abbrev pub IsByte : ℕ → Type 0
IsByte b = b < 256

-- The `n` bytes of a number, the highest first.
unfoldable pub be_bytes : ℕ → ℕ → List ℕ
be_bytes zero v = []
be_bytes (suc n) v = be_bytes n (v / 256) ++ (v % 256) ∷ []

-- The number that bytes spell, the highest first.
of_be_from : ℕ → List ℕ → ℕ
of_be_from acc [] = acc
of_be_from acc (b ∷ bs) = of_be_from (acc * 256 + b) bs

unfoldable pub of_be : List ℕ → ℕ
unfolding of_be_from
of_be = of_be_from 0

pub length-be_bytes : (n v : ℕ) → length (be_bytes n v) ≡ n
unfolding be_bytes
length-be_bytes zero v = refl
length-be_bytes (suc n) v =
    omega
      (arith, length-append (be_bytes n (v / 256)) ((v % 256) ∷ []), length-be_bytes n (v / 256))

pub be_bytes-IsByte : (n v : ℕ) → All IsByte (be_bytes n v)
unfolding be_bytes
be_bytes-IsByte zero v = tt
be_bytes-IsByte (suc n) v =
    All-append IsByte (be_bytes n (v / 256)) ((v % 256) ∷ []) (be_bytes-IsByte n (v / 256))
      (omega arith)

of_be_from-append :
    (acc : ℕ) (xs : List ℕ) (b : ℕ) → of_be_from acc (xs ++ b ∷ []) ≡ of_be_from acc xs * 256 + b
unfolding of_be_from
of_be_from-append acc [] b = refl
of_be_from-append acc (x ∷ xs) b = of_be_from-append (acc * 256 + x) xs b

pub of_be-be_bytes : (n v : ℕ) → v < 256 ^ n → of_be (be_bytes n v) ≡ v
unfolding of_be be_bytes
of_be-be_bytes zero v h = omega arith
of_be-be_bytes (suc n) v h = omega (
  arith,
  of_be_from-append 0 (be_bytes n (v / 256)) (v % 256),
  of_be-be_bytes n (v / 256) (omega (arith, pow-suc 256 n)),
)
