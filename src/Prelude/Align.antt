-- ===== src/Prelude/Align.antt =====
-- Powers of two: low masks as remainders, and the test `a & (a - 1) == 0`.
use Prim.Native.Nat.{ℕ, zero, suc, ◌+◌, ◌-◌, ◌*◌, ◌/◌, ◌%◌, ◌^◌, ◌≤◌, ◌<◌, bit_and}
use mathlib.Core.Path.{◌≡◌, refl, sym, ◌∙◌}
use native.Mathlib.Decide.{dec_lt}
use native.Mathlib.Omega.{arith}
use native.Mathlib.Nat.{pow-suc, mod-one, mul-mod_left, pow-le-pow_right}
use tamago.Prelude.Digits.{bit_and_halves}
use tamago.Prelude.Shifts.{pow_pos, mod_half, mod_low}

bit_and-zero : (k a : ℕ) → a ≤ k → bit_and a 0 ≡ 0
bit_and-zero zero zero h = refl
bit_and-zero zero (suc a) h = absurd (omega arith)
bit_and-zero (suc k) zero h = refl
bit_and-zero (suc k) (suc a) h =
    omega (arith, bit_and_halves (suc a) 0, bit_and-zero k (suc a / 2) (omega arith))

-- A conjunction with `k` low ones is the remainder by `2 ^ k`.
pub bit_and_low_mask : (k a : ℕ) → bit_and a (2 ^ k - 1) ≡ a % 2 ^ k
bit_and_low_mask zero a = bit_and-zero a a (omega arith) ∙ sym (mod-one a)
bit_and_low_mask (suc k) a =
    let half : (2 ^ suc k - 1) / 2 ≡ 2 ^ k - 1 = omega (arith, pow-suc 2 k) in
    let step : bit_and a (2 ^ suc k - 1) ≡ bit_and (a / 2) (2 ^ k - 1) * 2 + a % 2 =
      bit_and_halves a (2 ^ suc k - 1) ∙ rw half (omega (arith, pow-suc 2 k, pow_pos k)) in
    omega (arith, step, bit_and_low_mask k (a / 2), mod_half a k, mod_low a k)

bit_and_self : (k a : ℕ) → a ≤ k → bit_and a a ≡ a
bit_and_self zero zero h = refl
bit_and_self zero (suc a) h = absurd (omega arith)
bit_and_self (suc k) zero h = refl
bit_and_self (suc k) (suc a) h =
    omega (arith, bit_and_halves (suc a) (suc a), bit_and_self k (suc a / 2) (omega arith))

-- The test finds the powers of two alone.
power_of_two_below : (n a : ℕ) → a ≤ n → 0 < a → bit_and a (a - 1) ≡ 0 → (k : ℕ) × (a ≡ 2 ^ k)
power_of_two_below zero a h p e = absurd (omega arith)
power_of_two_below (suc n) a h p e = elim (dec_lt (a % 2) 1) [
  | yes even ↦
      let half : (a - 1) / 2 ≡ a / 2 - 1 = omega arith in
      let step : bit_and (a / 2) ((a - 1) / 2) ≡ 0 = omega (arith, bit_and_halves a (a - 1)) in
      let below : bit_and (a / 2) (a / 2 - 1) ≡ 0 = rw half at step in
      let (k, q) = power_of_two_below n (a / 2) (omega arith) (omega arith) below in
      (suc k, omega (arith, q, pow-suc 2 k))
  | no odd ↦
      let half : (a - 1) / 2 ≡ a / 2 = omega arith in
      let step : bit_and (a / 2) ((a - 1) / 2) ≡ 0 = omega (arith, bit_and_halves a (a - 1)) in
      let below : bit_and (a / 2) (a / 2) ≡ 0 = rw half at step in
      (0, omega (arith, below, bit_and_self (a / 2) (a / 2) (omega arith)))
]

pub power_of_two : (a : ℕ) → 0 < a → bit_and a (a - 1) ≡ 0 → (k : ℕ) × (a ≡ 2 ^ k)
power_of_two a = power_of_two_below a a (omega arith)

-- A power of two is a multiple of each smaller one.
pow_multiple : (n k : ℕ) → k ≤ n → (q : ℕ) × (2 ^ n ≡ q * 2 ^ k)
pow_multiple zero k h = (1, let e : k ≡ 0 = omega arith in rw e refl)
pow_multiple (suc n) k h = elim (dec_lt n k) [
  | yes p ↦ let e : k ≡ suc n = omega arith in (1, rw e (omega arith))
  | no p ↦ let (q, e) = pow_multiple n k (omega arith) in (2 * q, omega (arith, pow-suc 2 n, e))
]

pub pow-mod_pow : (n k : ℕ) → k ≤ n → 2 ^ n % 2 ^ k ≡ 0
pow-mod_pow n k h = let (q, e) = pow_multiple n k h in rw e (mul-mod_left q (2 ^ k))

-- A power of two below another has the smaller exponent.
pub pow-lt_exponent : (k n : ℕ) → 2 ^ k < 2 ^ n → k < n
pow-lt_exponent k n h = elim (dec_lt k n) [
  | yes p ↦ p
  | no p ↦
      absurd (omega (arith, pow-le-pow_right {n = 2} (omega arith) {i = n} {j = k} (omega arith)))
]
