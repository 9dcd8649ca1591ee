-- ===== src/Prelude/Shifts.antt =====
-- Shifts, truncation, complement and the range of the bit operations, digit by digit.
use Prim.Native.Nat.{
  ℕ, zero, suc, ◌+◌, ◌-◌, ◌*◌, ◌/◌, ◌%◌, ◌^◌, ◌<◌, bit_and, bit_or, bit_and-bitwise,
}
use mathlib.Core.Path.{◌≡◌, refl, sym, ap, ◌∙◌}
use native.Mathlib.Omega.{arith}
use native.Mathlib.Nat.{
  pow-suc, one-le-pow, div-div-eq-div-mul, div-add-mod', mul-add-mod_self_right, mod-eq_of_lt,
  mod-one, mod-lt,
}
use tamago.Prelude.Tests.{ltb, if◌then◌else◌}
use tamago.Prelude.Digits.{digit, bit_and_halves, bit_or_halves}

pub pow_pos : (k : ℕ) → 0 < 2 ^ k
pow_pos k = one-le-pow k 2 (omega arith)

pub mul-pow-suc : (a k : ℕ) → a * 2 ^ suc k ≡ 2 * (a * 2 ^ k)
mul-pow-suc a k = omega (arith, ap (λ (t : ℕ). a * t) (pow-suc 2 k))

-- `x << k` moves every digit up by `k`.
pub digit-shl : (a k i : ℕ) → digit (a * 2 ^ k) i ≡ (if ltb i k then 0 else digit a (i - k))
unfolding digit
digit-shl a zero zero = ground arith
digit-shl a zero (suc i) = ground arith
digit-shl a (suc k) zero = ground (arith, mul-pow-suc a k)
digit-shl a (suc k) (suc i) =
    let half : a * 2 ^ suc k / 2 ≡ a * 2 ^ k = omega (arith, mul-pow-suc a k) in
    rw half (ground (arith, digit-shl a k i))

pub digit-zero : (i : ℕ) → digit 0 i ≡ 0
unfolding digit
digit-zero zero = refl
digit-zero (suc i) = digit-zero i

digit_half : (a i : ℕ) → digit (a / 2) i ≡ digit a (suc i)
unfolding digit
digit_half a i = refl

-- `x >> k` moves every digit down by `k`.
pub digit-shr : (a k i : ℕ) → digit (a / 2 ^ k) i ≡ digit a (k + i)
digit-shr a zero i = ap (λ (t : ℕ). digit t i) (omega arith) ∙ ap (digit a) (omega arith)
digit-shr a (suc k) i =
    let half : a / 2 ^ suc k ≡ a / 2 / 2 ^ k =
      rw (pow-suc, div-div-eq-div-mul) (ap (λ (t : ℕ). a / t) (omega arith)) in
    rw half (digit-shr (a / 2) k i ∙ digit_half a (k + i) ∙ ap (digit a) (omega arith))

-- Halving after truncation is truncation after halving.
pub mod_half : (a w : ℕ) → a % 2 ^ suc w / 2 ≡ a / 2 % 2 ^ w
mod_half a w =
    let q = a / 2 ^ suc w in
    let r = a % 2 ^ suc w in
    let small : r < 2 ^ suc w = mod-lt a (pow_pos (suc w)) in
    let whole : a / 2 ≡ q * 2 ^ w + r / 2 =
      omega (arith, div-add-mod' a (2 ^ suc w), mul-pow-suc q w) in
    sym (
      ap (λ (t : ℕ). t % 2 ^ w) whole
      ∙ mul-add-mod_self_right q (2 ^ w) (r / 2)
      ∙ mod-eq_of_lt (omega (arith, pow-suc 2 w)))

-- The lowest digit of a truncation to one bit or more.
pub mod_low : (a w : ℕ) → a % 2 ^ suc w % 2 ≡ a % 2
mod_low a w = omega (arith, div-add-mod' a (2 ^ suc w), mul-pow-suc (a / 2 ^ suc w) w)

-- Truncation to `w` bits keeps the digits below `w`.
pub digit-mod : (a w i : ℕ) → digit (a % 2 ^ w) i ≡ (if ltb i w then digit a i else 0)
unfolding digit
digit-mod a zero i = rw (mod-one a) (digit-zero i ∙ ground arith)
digit-mod a (suc w) zero = mod_low a w ∙ ground arith
digit-mod a (suc w) (suc i) = rw (mod_half a w) (ground (arith, digit-mod (a / 2) w i))

-- The complement of a word turns every digit over.
pub digit-flip : (w a i : ℕ) → a < 2 ^ w → i < w → digit (2 ^ w - 1 - a) i ≡ 1 - digit a i
unfolding digit
digit-flip zero a i h p = absurd (omega arith)
digit-flip (suc w) a zero h p = omega (arith, pow-suc 2 w)
digit-flip (suc w) a (suc i) h p =
    let half : (2 ^ suc w - 1 - a) / 2 ≡ 2 ^ w - 1 - a / 2 = omega (arith, pow-suc 2 w) in
    rw half (digit-flip w (a / 2) i (omega (arith, pow-suc 2 w)) (omega arith))

-- A mask of `w` ones.
pub digit-mask : (w i : ℕ) → digit (2 ^ w - 1) i ≡ (if ltb i w then 1 else 0)
unfolding digit
digit-mask zero i = digit-zero i ∙ ground arith
digit-mask (suc w) zero = ground (arith, pow-suc 2 w, one-le-pow w 2)
digit-mask (suc w) (suc i) =
    let half : (2 ^ suc w - 1) / 2 ≡ 2 ^ w - 1 = omega (arith, pow-suc 2 w) in
    rw half (ground (arith, digit-mask w i))

-- The bit operations stay within the width of their operands.
pub bit_and-lt : (w a b : ℕ) → a < 2 ^ w → bit_and a b < 2 ^ w
bit_and-lt zero zero b h = simp bit_and-bitwise (omega arith)
bit_and-lt zero (suc a) b h = absurd (omega arith)
bit_and-lt (suc w) a b h = omega (
  arith,
  pow-suc 2 w,
  bit_and_halves a b,
  bit_and-lt w (a / 2) (b / 2) (omega (arith, pow-suc 2 w)),
)

pub bit_or-lt : (w a b : ℕ) → a < 2 ^ w → b < 2 ^ w → bit_or a b < 2 ^ w
bit_or-lt zero zero zero h k = omega arith
bit_or-lt zero (suc a) b h k = absurd (omega arith)
bit_or-lt zero zero (suc b) h k = absurd (omega arith)
bit_or-lt (suc w) a b h k = omega (
  arith,
  pow-suc 2 w,
  bit_or_halves a b,
  bit_or-lt w (a / 2) (b / 2) (omega (arith, pow-suc 2 w)) (omega (arith, pow-suc 2 w)),
)
