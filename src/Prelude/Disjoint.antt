-- ===== src/Prelude/Disjoint.antt =====
-- Disjunctions of numbers that share no digit, and conjunctions with the complement of a mask.
use Prim.Native.Nat.{ℕ, zero, suc, ◌+◌, ◌-◌, ◌*◌, ◌/◌, ◌%◌, ◌^◌, ◌≤◌, ◌<◌, min, bit_and, bit_or}
use mathlib.Core.Path.{◌≡◌, refl, sym, ap, ◌∙◌}
use native.Mathlib.Omega.{arith}
use native.Mathlib.Nat.{pow-suc, div-div-eq-div-mul}
use tamago.Prelude.Digits.{bit_and_halves, bit_or_halves}
use tamago.Prelude.Shifts.{mod_half, mod_low, mul-pow-suc}

bit_or-zero : (k a : ℕ) → a ≤ k → bit_or a 0 ≡ a
bit_or-zero zero zero h = refl
bit_or-zero zero (suc a) h = absurd (omega arith)
bit_or-zero (suc k) zero h = refl
bit_or-zero (suc k) (suc a) h =
    omega (arith, bit_or_halves (suc a) 0, bit_or-zero k (suc a / 2) (omega arith))

-- A multiple of `2 ^ k` with a number below it.
pub bit_or_disjoint : (k a b : ℕ) → a % 2 ^ k ≡ 0 → b < 2 ^ k → bit_or a b ≡ a + b
bit_or_disjoint zero a b e h =
    let z : b ≡ 0 = omega arith in rw z (bit_or-zero a a (omega arith) ∙ omega arith)
bit_or_disjoint (suc k) a b e h = omega (
  arith,
  bit_or_halves a b,
  mod_half a k,
  mod_low a k,
  bit_or_disjoint k (a / 2) (b / 2) (omega (arith, mod_half a k, mod_low a k))
      (omega (arith, pow-suc 2 k)),
)

-- The digits of `a` that a mask takes and those that its complement takes.
pub bit_and_complement :
    (w a m : ℕ) → a < 2 ^ w → m < 2 ^ w → bit_and a m + bit_and a (2 ^ w - 1 - m) ≡ a
bit_and_complement zero a m ha hm =
    let za : a ≡ 0 = omega arith in let zm : m ≡ 0 = omega arith in rw (za, zm) refl
bit_and_complement (suc w) a m ha hm =
    let half : (2 ^ suc w - 1 - m) / 2 ≡ 2 ^ w - 1 - m / 2 = omega (arith, pow-suc 2 w) in
    let step : bit_and a (2 ^ suc w - 1 - m)
        ≡ bit_and (a / 2) (2 ^ w - 1 - m / 2) * 2 + min (a % 2) ((2 ^ suc w - 1 - m) % 2) =
      bit_and_halves a (2 ^ suc w - 1 - m) ∙ rw half refl in
    omega (
      arith,
      step,
      bit_and_halves a m,
      bit_and_complement w (a / 2) (m / 2) (omega (arith, pow-suc 2 w))
          (omega (arith, pow-suc 2 w)),
      pow-suc 2 w,
    )

bit_or_comm_below : (k a b : ℕ) → a ≤ k → b ≤ k → bit_or a b ≡ bit_or b a
bit_or_comm_below zero a b ha hb =
    let za : a ≡ 0 = omega arith in let zb : b ≡ 0 = omega arith in rw (za, zb) refl
bit_or_comm_below (suc k) a b ha hb = omega (
  arith,
  bit_or_halves a b,
  bit_or_halves b a,
  bit_or_comm_below k (a / 2) (b / 2) (omega arith) (omega arith),
)

pub bit_or_comm : (a b : ℕ) → bit_or a b ≡ bit_or b a
bit_or_comm a b = bit_or_comm_below (a + b) a b (omega arith) (omega arith)

div_half : (a k : ℕ) → a / 2 / 2 ^ k ≡ a / 2 ^ suc k
div_half a k = sym (rw (pow-suc, div-div-eq-div-mul) (ap (λ (t : ℕ). a / t) (omega arith)))

-- A mask that starts `k` digits up.
pub bit_and_shift : (k a b : ℕ) → bit_and a (b * 2 ^ k) ≡ bit_and (a / 2 ^ k) b * 2 ^ k
bit_and_shift zero a b =
    ap (λ (t : ℕ). bit_and a t) {x = b * 2 ^ 0} {y = b} (omega arith)
    ∙ ap (λ (t : ℕ). bit_and t b) {x = a} {y = a / 2 ^ 0} (omega arith)
    ∙ omega arith
bit_and_shift (suc k) a b =
    let half : b * 2 ^ suc k / 2 ≡ b * 2 ^ k = omega (arith, mul-pow-suc b k) in
    let even : b * 2 ^ suc k % 2 ≡ 0 = omega (arith, mul-pow-suc b k) in
    let step : bit_and (a / 2) (b * 2 ^ suc k / 2) ≡ bit_and (a / 2 ^ suc k) b * 2 ^ k =
      ap (λ (t : ℕ). bit_and (a / 2) t) half
      ∙ bit_and_shift k (a / 2) b
      ∙ ap (λ (t : ℕ). bit_and t b * 2 ^ k) (div_half a k) in
    omega (
      arith,
      bit_and_halves a (b * 2 ^ suc k),
      step,
      even,
      mul-pow-suc (bit_and (a / 2 ^ suc k) b) k,
    )

-- Low digits that the other side has not.
pub bit_or_low :
    (k x y z : ℕ) → y < 2 ^ k → bit_or (x * 2 ^ k + y) (z * 2 ^ k) ≡ bit_or x z * 2 ^ k + y
bit_or_low zero x y z h =
    ap (λ (t : ℕ). bit_or t (z * 2 ^ 0)) {x = x * 2 ^ 0 + y} {y = x} (omega arith)
    ∙ ap (λ (t : ℕ). bit_or x t) {x = z * 2 ^ 0} {y = z} (omega arith)
    ∙ omega arith
bit_or_low (suc k) x y z h =
    let left : (x * 2 ^ suc k + y) / 2 ≡ x * 2 ^ k + y / 2 = omega (arith, mul-pow-suc x k) in
    let right : z * 2 ^ suc k / 2 ≡ z * 2 ^ k = omega (arith, mul-pow-suc z k) in
    let low : (x * 2 ^ suc k + y) % 2 ≡ y % 2 = omega (arith, mul-pow-suc x k) in
    let even : z * 2 ^ suc k % 2 ≡ 0 = omega (arith, mul-pow-suc z k) in
    let step : bit_or ((x * 2 ^ suc k + y) / 2) (z * 2 ^ suc k / 2) ≡ bit_or x z * 2 ^ k + y / 2 =
      ap (λ (t : ℕ). bit_or t (z * 2 ^ suc k / 2)) left
      ∙ ap (λ (t : ℕ). bit_or (x * 2 ^ k + y / 2) t) right
      ∙ bit_or_low k x (y / 2) z (omega (arith, pow-suc 2 k)) in
    omega (
      arith,
      bit_or_halves (x * 2 ^ suc k + y) (z * 2 ^ suc k),
      step,
      low,
      even,
      mul-pow-suc (bit_or x z) k,
    )
