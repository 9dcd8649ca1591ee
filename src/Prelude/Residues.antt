-- ===== src/Prelude/Residues.antt =====
-- Positions of a ring that a wrapping counter numbers.
use native.Mathlib.Nat.{mod-lt, mod-eq_of_lt, mod-add-mod, add-mod-mod, mod-eq-sub-mod}
use native.Mathlib.Decide.{dec_lt}
use tamago.Prelude.{ℕ, ◌+◌, ◌-◌, ◌%◌, ◌^◌, ◌<◌, ◌≤◌, ◌≡◌, ◌≢◌, sym, ap, ◌∙◌, arith}

-- Fewer steps than the ring has positions lead to another position.
pub add-mod_ne : (a d s : ℕ) → 0 < d → d < s → (a + d) % s ≢ a % s
add-mod_ne a d s pos h e =
    let r = a % s in
    let low : r < s = mod-lt a (omega arith) in
    let same : (r + d) % s ≡ r = mod-add-mod a s d ∙ e in
    elim (dec_lt (r + d) s) [
      | yes inside ↦ let whole : (r + d) % s ≡ r + d = mod-eq_of_lt inside in omega arith
      | no outside ↦
          let around : (r + d) % s ≡ (r + d - s) % s = mod-eq-sub-mod (omega arith) in
          let whole : (r + d - s) % s ≡ r + d - s = mod-eq_of_lt (omega arith) in omega arith
    ]

-- The same for earlier values of a counter of 32 bits, when the ring's size divides 2 ^ 32.
pub earlier-ne :
    (a d s : ℕ)
    → a < 2 ^ 32
    → 0 < d
    → d < s
    → s ≤ 2 ^ 32
    → 2 ^ 32 % s ≡ 0
    → ((a + 2 ^ 32 - d) % 2 ^ 32) % s ≢ a % s
earlier-ne a d s ha pos h hs whole e =
    let b = (a + 2 ^ 32 - d) % 2 ^ 32 in
    let again : (b + d) % s ≡ a % s = elim (dec_lt a d) [
      | yes wraps ↦
          let sum : b + d ≡ a + 2 ^ 32 = omega arith in
          let step : (a + 2 ^ 32 % s) % s ≡ (a + 2 ^ 32) % s = add-mod-mod a (2 ^ 32) s in
          ap (λ (x : ℕ). x % s) sum
          ∙ sym step
          ∙ ap (λ (x : ℕ). x % s) {x = a + 2 ^ 32 % s} {y = a} (omega arith)
      | no stays ↦ ap (λ (x : ℕ). x % s) {x = b + d} {y = a} (omega arith)
    ] in
    add-mod_ne b d s pos h (again ∙ sym e)
