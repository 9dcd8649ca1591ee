-- ===== src/Prelude/Digits.antt =====
-- The binary digits of a number, and what the native bit operations do to each.
use Prim.Native.Nat.{
  ℕ, zero, suc, ◌+◌, ◌*◌, ◌/◌, ◌%◌, ◌^◌, ◌≤◌, ◌<◌, min, max, bit_and, bit_or, digits, bitwise,
  bit_and-bitwise, bit_or-bitwise,
}
use mathlib.Core.Path.{◌≡◌, refl}
use native.Mathlib.Omega.{arith}
use native.Mathlib.Nat.{pow-suc}

-- The digit of `a` at place `i`: 0 or 1.
unfoldable pub digit : ℕ → ℕ → ℕ
digit a zero = a % 2
digit a (suc i) = digit (a / 2) i

pub digit-le : (a i : ℕ) → digit a i ≤ 1
unfolding digit
digit-le a zero = omega arith
digit-le a (suc i) = digit-le (a / 2) i

-- Both operations are `digits` with their first argument as fuel; more fuel changes nothing.
module _ (z : ℕ → ℕ) (f : ℕ → ℕ → ℕ) where
  fuel_irrelevant : (n m a b : ℕ) → a ≤ n → a ≤ m → digits z f n a b ≡ digits z f m a b
  fuel_irrelevant zero zero a b p q = refl
  fuel_irrelevant zero (suc m) zero b p q = refl
  fuel_irrelevant zero (suc m) (suc a) b p q = absurd (omega arith)
  fuel_irrelevant (suc n) zero zero b p q = refl
  fuel_irrelevant (suc n) zero (suc a) b p q = absurd (omega arith)
  fuel_irrelevant (suc n) (suc m) zero b p q = refl
  fuel_irrelevant (suc n) (suc m) (suc a) b p q =
      rw (fuel_irrelevant n m (suc a / 2) (b / 2) (omega arith) (omega arith))

  bitwise_halves :
      (a b : ℕ)
      → bitwise z f (suc a) b ≡ bitwise z f (suc a / 2) (b / 2) * 2 + f (suc a % 2) (b % 2)
  bitwise_halves a b =
      omega (arith, fuel_irrelevant a (suc a / 2) (suc a / 2) (b / 2) (omega arith) (omega arith))

pub bit_and_halves : (a b : ℕ) → bit_and a b ≡ bit_and (a / 2) (b / 2) * 2 + min (a % 2) (b % 2)
bit_and_halves zero b = simp bit_and-bitwise (omega arith)
bit_and_halves (suc a) b = simp bit_and-bitwise (bitwise_halves (λ y. 0) min a b)

pub bit_or_halves : (a b : ℕ) → bit_or a b ≡ bit_or (a / 2) (b / 2) * 2 + max (a % 2) (b % 2)
bit_or_halves zero b = simp bit_or-bitwise (omega arith)
bit_or_halves (suc a) b = simp bit_or-bitwise (bitwise_halves (λ y. y) max a b)

-- Conjunction digit by digit.
pub digit-bit_and : (a b i : ℕ) → digit (bit_and a b) i ≡ min (digit a i) (digit b i)
unfolding digit
digit-bit_and a b zero = omega (arith, bit_and_halves a b)
digit-bit_and a b (suc i) =
    let half : bit_and a b / 2 ≡ bit_and (a / 2) (b / 2) = omega (arith, bit_and_halves a b) in
    rw half (digit-bit_and (a / 2) (b / 2) i)

-- Disjunction digit by digit.
pub digit-bit_or : (a b i : ℕ) → digit (bit_or a b) i ≡ max (digit a i) (digit b i)
unfolding digit
digit-bit_or a b zero = omega (arith, bit_or_halves a b)
digit-bit_or a b (suc i) =
    let half : bit_or a b / 2 ≡ bit_or (a / 2) (b / 2) = omega (arith, bit_or_halves a b) in
    rw half (digit-bit_or (a / 2) (b / 2) i)

-- A number below `2 ^ w` has no digit from `w` on.
pub digit-small : (w a i : ℕ) → a < 2 ^ w → w ≤ i → digit a i ≡ 0
unfolding digit
digit-small zero a zero h p = omega arith
digit-small zero a (suc i) h p = digit-small zero (a / 2) i (omega arith) (omega arith)
digit-small (suc w) a zero h p = absurd (omega arith)
digit-small (suc w) a (suc i) h p =
    digit-small w (a / 2) i (omega (arith, pow-suc 2 w)) (omega arith)

-- Numbers of `w` digits are equal when their digits are.
pub eq_of_digits :
    (w a b : ℕ) → a < 2 ^ w → b < 2 ^ w → ((i : ℕ) → i < w → digit a i ≡ digit b i) → a ≡ b
unfolding digit
eq_of_digits zero a b ha hb h = omega arith
eq_of_digits (suc w) a b ha hb h = omega (
  arith,
  h 0 (omega arith),
  eq_of_digits w (a / 2) (b / 2) (omega (arith, pow-suc 2 w)) (omega (arith, pow-suc 2 w))
      (λ i p. h (suc i) (omega arith)),
)
