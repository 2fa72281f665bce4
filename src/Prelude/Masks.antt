-- ===== src/Prelude/Masks.antt =====
-- `a & mask != 0`, the test of a flag, and how it takes to `|` and to shifted ones.
use Prim.Native.Nat.{
  ℕ, zero, suc, ◌+◌, ◌*◌, ◌/◌, ◌%◌, ◌^◌, ◌≤◌, ◌<◌, min, max, bit_and, bit_or, bit_and-bitwise,
}
use native.Mathlib.Nat.{pow-suc}
use mathlib.Core.Path.{◌≡◌, refl, ap, ◌∙◌}
use mathlib.Core.Logic.{inl, inr}
use mathlib.Core.Bool.{Bool, false, not, ◌&&◌, ◌||◌}
use native.Mathlib.Omega.{arith}
use roots.Prelude.Tests.{◌==◌, ==_iff, Bool-cases}
use mathlib.Core.List.{List, [], ◌∷◌}
use roots.Prelude.Lists.{length, get_or, set}
use roots.Prelude.Bits.{bit_or_step, digits_halves}

unfoldable pub meets : ℕ → ℕ → Bool
meets a mask = not (bit_and a mask == 0)

pub none-bit_and : (mask : ℕ) → bit_and 0 mask ≡ 0
none-bit_and mask = bit_and-bitwise 0 mask

-- The lowest digits of both, and the digits above them.
low-bit_and :
    (x mask : ℕ) → bit_and x mask ≡ min (x % 2) (mask % 2) + 2 * bit_and (x / 2) (mask / 2)
low-bit_and zero mask = omega (arith, none-bit_and (mask / 2), none-bit_and mask)
low-bit_and (suc x) mask =
    let above = digits_halves (λ b. zero) min x mask in
    let here = bit_and-bitwise (suc x) mask in
    omega (arith, above, here, bit_and-bitwise (suc x / 2) (mask / 2))

blank_mask : (bound x : ℕ) → x < bound → bit_and x 0 ≡ 0
blank_mask zero x h = absurd (omega arith)
blank_mask (suc bound) x h = elim (Bool-cases (x == 0)) [
  | inl e ↦ let none : x ≡ 0 = (==_iff x 0).0 e in ap (λ (y : ℕ). bit_and y 0) none ∙ none-bit_and 0
  | inr e ↦
      let half : x / 2 < bound = ground arith in
      omega (arith, blank_mask bound (x / 2) half, low-bit_and x 0)
]

pub bit_and-blank : (x : ℕ) → bit_and x 0 ≡ 0
bit_and-blank x = blank_mask (x + 1) x (omega arith)

pub zero-meets : (mask : ℕ) → meets 0 mask ≡ false
unfolding meets
zero-meets mask = ground (arith, none-bit_and mask)

-- The lowest digits of both, or a digit above them.
pub meets_step : (a b : ℕ) → meets a b ≡ (not (min (a % 2) (b % 2) == 0) || meets (a / 2) (b / 2))
unfolding meets
meets_step a b = ground (arith, low-bit_and a b)

meets-zero : (a : ℕ) → meets a 0 ≡ false
unfolding meets
meets-zero a = ground (arith, bit_and-blank a)

bit_or_halves : (a b : ℕ) → bit_or a b / 2 ≡ bit_or (a / 2) (b / 2)
bit_or_halves a b = omega (arith, bit_or_step a b)

bit_or_parity : (a b : ℕ) → bit_or a b % 2 ≡ max (a % 2) (b % 2)
bit_or_parity a b = omega (arith, bit_or_step a b)

meets-bit_or_by :
    (n a b mask : ℕ) → mask ≤ n → meets (bit_or a b) mask ≡ (meets a mask || meets b mask)
unfolding meets
meets-bit_or_by zero a b mask h =
    let e : mask ≡ 0 = omega arith in
    rw e (ground (arith, bit_and-blank a, bit_and-blank b, bit_and-blank (bit_or a b)))
meets-bit_or_by (suc n) a b mask h = ground (
  arith,
  meets_step a mask,
  meets_step b mask,
  meets_step (bit_or a b) mask,
  bit_or_parity a b,
  ap (λ (x : ℕ). meets x (mask / 2)) (bit_or_halves a b),
  meets-bit_or_by n (a / 2) (b / 2) (mask / 2) (omega arith),
)

-- A flag of `a | b` is a flag of one of them.
pub meets-bit_or : (a b mask : ℕ) → meets (bit_or a b) mask ≡ (meets a mask || meets b mask)
meets-bit_or a b mask = meets-bit_or_by mask a b mask (omega arith)

pow_even : (k : ℕ) → 2 ^ suc k % 2 ≡ 0
pow_even k = omega (arith, pow-suc 2 k)

pow_half : (k : ℕ) → 2 ^ suc k / 2 ≡ 2 ^ k
pow_half k = omega (arith, pow-suc 2 k)

meets_of_halves : (a b c d : ℕ) → a % 2 ≡ 0 → a / 2 ≡ c → b / 2 ≡ d → meets a b ≡ meets c d
meets_of_halves a b c d even half half' =
    meets_step a b
    ∙ ap (λ (m : ℕ). not (m == 0) || meets (a / 2) (b / 2)) {y = 0} (omega (arith, even))
    ∙ ap (λ (x : ℕ). meets x (b / 2)) half
    ∙ ap (meets c) half'

one-meets : (j : ℕ) → meets 1 (2 ^ suc j) ≡ false
unfolding meets
one-meets j = ground (arith, meets_step 1 (2 ^ suc j), pow_even j, zero-meets (2 ^ suc j / 2))

-- Two shifted ones meet where their shifts are the same.
pub meets_pow : (i j : ℕ) → meets (2 ^ i) (2 ^ j) ≡ (i == j)
meets_pow zero zero = meets_step 1 1
meets_pow zero (suc j) = ground (arith, one-meets j)
meets_pow (suc i) zero = ground (
  arith,
  meets_of_halves (2 ^ suc i) 1 (2 ^ i) 0 (pow_even i) (pow_half i) refl,
  meets-zero (2 ^ i),
)
meets_pow (suc i) (suc j) = ground (
  arith,
  meets_of_halves (2 ^ suc i) (2 ^ suc j) (2 ^ i) (2 ^ j) (pow_even i) (pow_half i) (pow_half j),
  meets_pow i j,
)

-- The six lowest digits.
pub bit_and_63 : (x : ℕ) → bit_and x 63 ≡ x % 64
bit_and_63 x = omega (
  arith,
  low-bit_and x 63,
  low-bit_and (x / 2) 31,
  low-bit_and (x / 2 / 2) 15,
  low-bit_and (x / 2 / 2 / 2) 7,
  low-bit_and (x / 2 / 2 / 2 / 2) 3,
  low-bit_and (x / 2 / 2 / 2 / 2 / 2) 1,
  bit_and-blank (x / 2 / 2 / 2 / 2 / 2 / 2),
)

-- A flag raised in one cell of a list of them, read from any.
pub meets-or_at :
    (ws : List ℕ) (i j new mask : ℕ)
    → i < length ws
    → meets (get_or (set ws i (bit_or (get_or ws i 0) new)) j 0) mask
      ≡ ((i == j && meets new mask) || meets (get_or ws j 0) mask)
meets-or_at [] i j new mask h = absurd (omega arith)
meets-or_at (w ∷ ws) zero zero new mask h = ground (arith, meets-bit_or w new mask)
meets-or_at (w ∷ ws) zero (suc j) new mask h = ground arith
meets-or_at (w ∷ ws) (suc i) zero new mask h = ground arith
meets-or_at (w ∷ ws) (suc i) (suc j) new mask h =
    ground (arith, meets-or_at ws i j new mask (omega arith))
