-- ===== src/Prelude/Bits.antt =====
-- Single bits of `bit_and` and `bit_or`, from the digit recursions that they stand for.
use Prim.Native.Nat.{
  ℕ, zero, suc, ◌+◌, ◌*◌, ◌/◌, ◌%◌, ◌^◌, ◌≤◌, ◌<◌, min, max, bit_and, bit_or, digits,
  bit_and-bitwise, bit_or-bitwise,
}
use native.Mathlib.Nat.{pow-suc}
use mathlib.Core.Path.{◌≡◌, refl, ap}
use native.Mathlib.Omega.{arith}
use html.Prelude.Tests.{◌==◌, if◌then◌else◌}

-- The digit recursion does not depend on its fuel once that bounds the first number.
module _ (z : ℕ → ℕ) (f : ℕ → ℕ → ℕ) where
  digits-fuel : (n m a b : ℕ) → a ≤ n → a ≤ m → digits z f n a b ≡ digits z f m a b
  digits-fuel zero zero a b p q = refl
  digits-fuel zero (suc m) zero b p q = refl
  digits-fuel (suc n) zero zero b p q = refl
  digits-fuel (suc n) (suc m) zero b p q = refl
  digits-fuel (suc n) (suc m) (suc a) b p q =
      let tail = digits-fuel n m (suc a / 2) (b / 2) (omega arith) (omega arith) in
      ap (λ d. d * 2 + f (suc a % 2) (b % 2)) tail
  digits-fuel zero m (suc a) b p q = absurd (omega arith)
  digits-fuel n zero (suc a) b p q = absurd (omega arith)

  -- One digit of the recursion.
  digits_step :
      (a b : ℕ)
      → digits z f (suc a) (suc a) b
        ≡ digits z f (suc a / 2) (suc a / 2) (b / 2) * 2 + f (suc a % 2) (b % 2)
  digits_step a b =
      ap (λ d. d * 2 + f (suc a % 2) (b % 2))
        (digits-fuel a (suc a / 2) (suc a / 2) (b / 2) (omega arith) (omega arith))

bit_and_step : (a b : ℕ) → bit_and a b ≡ bit_and (a / 2) (b / 2) * 2 + min (a % 2) (b % 2)
bit_and_step zero b = omega (arith, bit_and-bitwise 0 b, bit_and-bitwise 0 (b / 2))
bit_and_step (suc a) b = omega (
  arith,
  bit_and-bitwise (suc a) b,
  bit_and-bitwise (suc a / 2) (b / 2),
  digits_step (λ b. zero) min a b,
)

bit_or_step : (a b : ℕ) → bit_or a b ≡ bit_or (a / 2) (b / 2) * 2 + max (a % 2) (b % 2)
bit_or_step zero b = omega (arith, bit_or-bitwise 0 b, bit_or-bitwise 0 (b / 2))
bit_or_step (suc a) b = omega (
  arith,
  bit_or-bitwise (suc a) b,
  bit_or-bitwise (suc a / 2) (b / 2),
  digits_step (λ b. b) max a b,
)

-- Bit n of a number.
pub test_bit : ℕ → ℕ → ℕ
test_bit zero a = a % 2
test_bit (suc n) a = test_bit n (a / 2)

bit_and-zero_bounded : (bound a : ℕ) → a ≤ bound → bit_and a 0 ≡ 0
bit_and-zero_bounded (suc bound) (suc a) le =
    let halves = bit_and-zero_bounded bound (suc a / 2) (omega arith) in
    omega (arith, bit_and_step (suc a) 0, halves)
bit_and-zero_bounded zero (suc a) le = absurd (omega arith)
bit_and-zero_bounded bound zero le = refl

pub pow_pos : (n : ℕ) → 0 < 2 ^ n
pow_pos zero = omega arith
pow_pos (suc n) = omega (arith, pow-suc 2 n, pow_pos n)

half-pow : (n : ℕ) → (2 ^ suc n / 2 ≡ 2 ^ n) × (2 ^ suc n % 2 ≡ 0)
half-pow n = omega (arith, pow-suc 2 n)

-- Masking with a power of two leaves the bit in its place.
pub bit_and-pow : (n a : ℕ) → bit_and a (2 ^ n) ≡ test_bit n a * 2 ^ n
unfolding test_bit
bit_and-pow zero a =
    omega (arith, bit_and_step a 1, bit_and-zero_bounded (a / 2) (a / 2) (omega arith))
bit_and-pow (suc n) a =
    let rest : bit_and (a / 2) (2 ^ suc n / 2) ≡ test_bit n (a / 2) * 2 ^ n =
      rw (half-pow n).0 (bit_and-pow n (a / 2)) in
    let scaled = ap (λ p. test_bit n (a / 2) * p) (pow-suc 2 n) in
    omega (arith, bit_and_step a (2 ^ suc n), half-pow n, rest, scaled)

pub test_bit-bit_or : (n a b : ℕ) → test_bit n (bit_or a b) ≡ max (test_bit n a) (test_bit n b)
unfolding test_bit
test_bit-bit_or zero a b = omega (arith, bit_or_step a b)
test_bit-bit_or (suc n) a b =
    let e : bit_or a b / 2 ≡ bit_or (a / 2) (b / 2) = omega (arith, bit_or_step a b) in
    rw e (test_bit-bit_or n (a / 2) (b / 2))

pub test_bit-zero : (n : ℕ) → test_bit n 0 ≡ 0
unfolding test_bit
test_bit-zero zero = refl
test_bit-zero (suc n) = test_bit-zero n

pub test_bit-pow : (n m : ℕ) → test_bit n (2 ^ m) ≡ (if n == m then 1 else 0)
unfolding test_bit
test_bit-pow zero zero = refl
test_bit-pow zero (suc m) = ground (arith, half-pow m)
test_bit-pow (suc n) zero = ground (arith, test_bit-zero n)
test_bit-pow (suc n) (suc m) = rw (half-pow m).0 (ground (arith, test_bit-pow n m))

pub test_bit-le-one : (n a : ℕ) → test_bit n a ≤ 1
unfolding test_bit
test_bit-le-one zero a = omega arith
test_bit-le-one (suc n) a = test_bit-le-one n (a / 2)
