-- ===== src/Prelude/Bits.antt =====
-- Masks and shifts as arithmetic. Over one byte a table is checked by evaluation; `bit_or` of two
-- numbers that share no bit is their sum at every width.
use Prim.Native.Nat.{
  ℕ, zero, suc, ◌+◌, ◌*◌, ◌/◌, ◌%◌, ◌^◌, ◌≤◌, ◌<◌, max, bit_and, bit_or, digits, bitwise,
  bit_or-bitwise,
}
use native.Mathlib.Nat.{pow-suc}
use mathlib.Core.Path.{◌≡◌, refl, ap, sym, ◌∙◌}
use mathlib.Core.Bool.{Bool, true, ◌&&◌}
use native.Mathlib.Omega.{arith}
use roots.Prelude.Tests.{◌==◌, ==_iff}

unfoldable pub agree : ℕ → (ℕ → ℕ) → (ℕ → ℕ) → Bool
agree zero f g = true
agree (suc n) f g = f n == g n && agree n f g

pub agree-below : (f g : ℕ → ℕ) (x n : ℕ) → agree n f g ≡ true → x < n → f x ≡ g x
unfolding agree
agree-below f g x zero e below = absurd (omega arith)
agree-below f g x (suc n) e below = grind (arith, ==_iff (f n) (g n), agree-below f g x n)

pub bit_and_127 : (b : ℕ) → b < 256 → bit_and b 0x7f ≡ b % 128
unfolding agree
bit_and_127 b = agree-below (λ b. bit_and b 0x7f) (λ b. b % 128) b 256 refl

pub bit_or_128 : (b : ℕ) → b < 256 → bit_or b 0x80 ≡ b % 128 + 128
unfolding agree
bit_or_128 b = agree-below (λ b. bit_or b 0x80) (λ b. b % 128 + 128) b 256 refl

-- The operations on binary digits, on fuel: more of it than the first number changes nothing.
module _ (z : ℕ → ℕ) (f : ℕ → ℕ → ℕ) where
  digits_zero : (n b : ℕ) → digits z f n 0 b ≡ z b
  digits_zero zero b = refl
  digits_zero (suc n) b = refl

  digits_more : (a b m fuel : ℕ) → a ≤ fuel → fuel ≤ m → digits z f m a b ≡ digits z f fuel a b
  digits_more zero b m fuel h k = digits_zero m b ∙ sym (digits_zero fuel b)
  digits_more (suc a) b m zero h k = absurd (omega arith)
  digits_more (suc a) b zero (suc fuel) h k = absurd (omega arith)
  digits_more (suc a) b (suc m) (suc fuel) h k =
      omega (arith, digits_more (suc a / 2) (b / 2) m fuel (omega arith) (omega arith))

  -- All but the lowest digits are the operation on the halves.
  pub digits_halves : (a b : ℕ) → digits z f a (suc a / 2) (b / 2) ≡ bitwise z f (suc a / 2) (b / 2)
  digits_halves a b = digits_more (suc a / 2) (b / 2) a (suc a / 2) (omega arith) (omega arith)

pub zero-bit_or : (b : ℕ) → bit_or 0 b ≡ b
zero-bit_or b = bit_or-bitwise 0 b

pub bit_or_step : (a b : ℕ) → bit_or a b ≡ bit_or (a / 2) (b / 2) * 2 + max (a % 2) (b % 2)
bit_or_step zero b = omega (arith, zero-bit_or b, zero-bit_or (b / 2))
bit_or_step (suc a) b = omega (
  arith,
  digits_halves (λ b. b) max a b,
  bit_or-bitwise (suc a / 2) (b / 2),
  bit_or-bitwise (suc a) b,
)

-- `x | (y << k)` where `x` fits below the shift.
pub bit_or_shifted : (k x y : ℕ) → x < 2 ^ k → bit_or x (y * 2 ^ k) ≡ x + y * 2 ^ k
bit_or_shifted zero x y h =
    let e : x ≡ 0 = omega arith in rw e (omega (arith, zero-bit_or (y * 2 ^ 0)))
bit_or_shifted (suc k) x y h =
    let shifted : y * 2 ^ suc k ≡ y * 2 ^ k * 2 =
      omega (arith, ap (λ (p : ℕ). y * p) (pow-suc 2 k)) in
    let halved : (y * 2 ^ k * 2) / 2 ≡ y * 2 ^ k = omega arith in
    rw shifted (
      omega (
        arith,
        bit_or_step x (y * 2 ^ k * 2),
        ap (bit_or (x / 2)) halved,
        bit_or_shifted k (x / 2) y (omega (arith, pow-suc 2 k)),
      ))
