-- ===== src/Arm64/Split.antt =====
-- The entries that l2Entry makes from a first-level block (arm64/mmu.go), and what they map.
use tamago.Prelude.{
  ℕ, zero, suc, ◌+◌, ◌-◌, ◌*◌, ◌/◌, ◌%◌, ◌^◌, ◌<◌, ◌≤◌, ◌≡◌, true, ◌==◌, inl, ◌⊎◌, refl, ◌∙◌, ap,
  arith, add64, bit_or,
}
use tamago.Reg.{Registers, write}
use tamago.Prelude.Disjoint.{bit_or_disjoint, bit_and_complement, bit_and_shift, bit_or_low}
use tamago.Prelude.Align.{bit_and_low_mask}
use tamago.Prelude.{bit_and}
use tamago.Arm64.{output_address_mask, split_block}
use tamago.Arm64.Walk.{leaf}
use tamago.Arm64.Tables.{write_self, write_apart}
use native.Mathlib.Decide.{dec_lt}

-- The attributes of an entry, without its address.
attributes_only :
    (e : ℕ)
    → e < 2 ^ 64
    → bit_and e (2 ^ 64 - 1 - output_address_mask) ≡ e / 2 ^ 48 * 2 ^ 48 + e % 2 ^ 12
attributes_only e h =
    let masked : bit_and e output_address_mask ≡ e / 2 ^ 12 % 2 ^ 36 * 2 ^ 12 =
      bit_and_shift 12 e (2 ^ 36 - 1)
      ∙ ap (λ (t : ℕ). t * 2 ^ 12) (bit_and_low_mask 36 (e / 2 ^ 12)) in
    omega (arith, masked, bit_and_complement 64 e output_address_mask h (omega arith))

-- What l2Entry makes of a block's entry for a section.
section_entry :
    (e a : ℕ)
    → e < 2 ^ 64
    → a % 2 ^ 12 ≡ 0
    → a < 2 ^ 48
    → bit_or (bit_and e (2 ^ 64 - 1 - output_address_mask)) a ≡ e / 2 ^ 48 * 2 ^ 48 + a + e % 2 ^ 12
section_entry e a h ha hs =
    ap (λ (t : ℕ). bit_or t a) (attributes_only e h)
    ∙ ap (λ (t : ℕ). bit_or t a) {x = e / 2 ^ 48 * 2 ^ 48 + e % 2 ^ 12}
        {y = e / 2 ^ 48 * 2 ^ 36 * 2 ^ 12 + e % 2 ^ 12} (omega arith)
    ∙ ap (bit_or (e / 2 ^ 48 * 2 ^ 36 * 2 ^ 12 + e % 2 ^ 12)) {x = a} {y = a / 2 ^ 12 * 2 ^ 12}
        (omega arith)
    ∙ bit_or_low 12 (e / 2 ^ 48 * 2 ^ 36) (e % 2 ^ 12) (a / 2 ^ 12) (omega arith)
    ∙ ap (λ (t : ℕ). t * 2 ^ 12 + e % 2 ^ 12)
        (bit_or_disjoint 36 (e / 2 ^ 48 * 2 ^ 36) (a / 2 ^ 12) (omega arith) (omega arith))
    ∙ omega arith

-- It maps the section as the block did.
pub section_leaf :
    (e s i va : ℕ)
    → s % 2 ^ 30 ≡ 0
    → s < 2 ^ 39
    → i < 512
    → e % 2 ^ 48 / 2 ^ 30 * 2 ^ 30 ≡ s
    → s + i * 2 ^ 21 ≤ va
    → va < s + i * 2 ^ 21 + 2 ^ 21
    → leaf (2 ^ 21) (e / 2 ^ 48 * 2 ^ 48 + (s + i * 2 ^ 21) + e % 2 ^ 12) va ≡ leaf (2 ^ 30) e va
unfolding leaf
section_leaf e s i va hs hb hi he p q =
    let v = e / 2 ^ 48 * 2 ^ 48 + (s + i * 2 ^ 21) + e % 2 ^ 12 in
    let flag : v / 2 ^ 10 % 2 ≡ e / 2 ^ 10 % 2 = omega arith in
    let place : v % 2 ^ 48 / 2 ^ 21 * 2 ^ 21 + va % 2 ^ 21
        ≡ e % 2 ^ 48 / 2 ^ 30 * 2 ^ 30 + va % 2 ^ 30 =
      omega arith in
    let index : v / 2 ^ 2 % 8 ≡ e / 2 ^ 2 % 8 = omega arith in
    let never : v / 2 ^ 53 % 4 ≡ e / 2 ^ 53 % 4 = omega arith in rw (flag, place, index, never) refl

-- The value for one section.
abbrev pub section_value : ℕ → ℕ → ℕ → ℕ
section_value e s j = e / 2 ^ 48 * 2 ^ 48 + (s + j * 2 ^ 21) + e % 2 ^ 12

split_block_others :
    (k i : ℕ) (g : Registers) (next e s x : ℕ)
    → (x < next + 8 * i) ⊎ (next + 8 * (i + k) ≤ x)
    → split_block k i g next e s x ≡ g x
unfolding split_block
split_block_others zero i g next e s x h = refl
split_block_others (suc k) i g next e s x h =
    split_block_others k (i + 1) (write g (next + 8 * i) _) next e s x (ground arith)
    ∙ write_apart g (next + 8 * i) _ x (ground arith)

pub split_block_entry :
    (k i : ℕ) (g : Registers) (next e s j : ℕ)
    → e < 2 ^ 64
    → e % 4 ≡ 1
    → s % 2 ^ 30 ≡ 0
    → s < 2 ^ 39
    → i ≤ j
    → j < i + k
    → i + k ≤ 512
    → split_block k i g next e s (next + 8 * j) ≡ section_value e s j
unfolding split_block
split_block_entry zero i g next e s j he kind hs hb p q r = absurd (omega arith)
split_block_entry (suc k) i g next e s j he kind hs hb p q r =
    let block : (bit_and e 3 == 1) ≡ true = ground (arith, bit_and_low_mask 2 e) in
    let sum : add64 s (i * 2 ^ 21) ≡ s + i * 2 ^ 21 = ground arith in
    let val : bit_or (bit_and e (2 ^ 64 - 1 - output_address_mask)) (s + i * 2 ^ 21)
        ≡ section_value e s i =
      section_entry e (s + i * 2 ^ 21) he (omega arith) (omega arith) in
    rw (block, sum, val)
      (elim (dec_lt i j) [
        | yes later ↦
            split_block_entry k (i + 1) (write g (next + 8 * i) (section_value e s i)) next e s j he
              kind hs hb (omega arith) (omega arith) (omega arith)
        | no here ↦
            split_block_others k (i + 1) (write g (next + 8 * i) (section_value e s i)) next e s
              (next + 8 * j) (inl (omega arith))
            ∙ ap (write g (next + 8 * i) (section_value e s i)) {x = next + 8 * j}
                {y = next + 8 * i} (omega arith)
            ∙ write_self g (next + 8 * i) (section_value e s i)
            ∙ ap (section_value e s) {x = i} {y = j} (omega arith)
      ])
