-- ===== src/Arm/Walk.antt =====
-- What the processor does with the tables of arm/mmu.go (short descriptors, without extended addresses),
-- and the words that the code stores there.
use tamago.Prelude.{
  ℕ, ◌+◌, ◌*◌, ◌/◌, ◌%◌, ◌^◌, ◌<◌, ◌≡◌, Bool, true, false, refl, ltb, ◌==◌, if◌then◌else◌, arith,
  Option, some, none, bit_or,
}
use tamago.Prelude.Disjoint.{bit_or_disjoint}
use tamago.Prelude.Digits.{bit_or_halves}
use tamago.Reg.{Registers}

-- A second-level entry of a small page: the address, and whether its bit 0 lets it be executed.
abbrev pub small_page : ℕ → ℕ → Option (ℕ × Bool)
small_page d va =
    if ltb 1 (d % 4) then some (d / 2 ^ 12 * 2 ^ 12 + va % 2 ^ 12, d % 2 == 0) else none

-- The address, and whether it can be executed.
abbrev pub walk : Registers → ℕ → ℕ → Option (ℕ × Bool)
walk g ttbr va =
    let d = g (ttbr + 4 * (va / 2 ^ 20)) in
    if d % 4 == 2
    then some (d / 2 ^ 20 * 2 ^ 20 + va % 2 ^ 20, d / 2 ^ 4 % 2 == 0)
    else if d % 4 == 1
    then small_page (g (d / 2 ^ 10 * 2 ^ 10 + 4 * (va / 2 ^ 12 % 256))) va
    else none

-- A section and its flags.
abbrev pub walk_section : Registers → ℕ → ℕ → Option (ℕ × ℕ)
walk_section g ttbr va =
    let d = g (ttbr + 4 * (va / 2 ^ 20)) in
    if d % 4 == 2 then some (d / 2 ^ 20 * 2 ^ 20 + va % 2 ^ 20, d % 2 ^ 20) else none

pub or_16 : (x : ℕ) → bit_or x 16 ≡ (if x / 16 % 2 == 0 then x + 16 else x)
or_16 x = ground (
  arith,
  bit_or_halves x 16,
  bit_or_halves (x / 2) 8,
  bit_or_halves (x / 2 / 2) 4,
  bit_or_halves (x / 2 / 2 / 2) 2,
  bit_or_halves (x / 2 / 2 / 2 / 2) 1,
  bit_or_disjoint 0 (x / 2 / 2 / 2 / 2 / 2) 0 (omega arith) (omega arith),
)

-- A section that is stored is read.
pub walk_section-stored :
    (g : Registers) (ttbr va pa flags : ℕ)
    → g (ttbr + 4 * (va / 2 ^ 20)) ≡ pa + flags
    → pa % 2 ^ 20 ≡ 0
    → flags < 2 ^ 20
    → flags % 4 ≡ 2
    → walk_section g ttbr va ≡ some (pa + va % 2 ^ 20, flags)
walk_section-stored g ttbr va pa flags stored aligned small kind =
    let section : (pa + flags) % 4 == 2 ≡ true = ground arith in
    let base : (pa + flags) / 2 ^ 20 * 2 ^ 20 ≡ pa = omega arith in
    let rest : (pa + flags) % 2 ^ 20 ≡ flags = omega arith in rw (stored, section, base, rest) refl

pub walk-section :
    (g : Registers) (ttbr va pa flags : ℕ)
    → g (ttbr + 4 * (va / 2 ^ 20)) ≡ pa + flags
    → pa % 2 ^ 20 ≡ 0
    → flags < 2 ^ 20
    → flags % 4 ≡ 2
    → walk g ttbr va ≡ some (pa + va % 2 ^ 20, flags / 2 ^ 4 % 2 == 0)
walk-section g ttbr va pa flags stored aligned small kind =
    let section : (pa + flags) % 4 == 2 ≡ true = ground arith in
    let base : (pa + flags) / 2 ^ 20 * 2 ^ 20 ≡ pa = omega arith in
    let bit : (pa + flags) / 2 ^ 4 % 2 ≡ flags / 2 ^ 4 % 2 = omega arith in
    rw (stored, section, base, bit) refl

pub walk-table :
    (g : Registers) (ttbr va t e : ℕ)
    → g (ttbr + 4 * (va / 2 ^ 20)) ≡ t + 1
    → t % 2 ^ 10 ≡ 0
    → g (t + 4 * (va / 2 ^ 12 % 256)) ≡ e
    → walk g ttbr va ≡ small_page e va
walk-table g ttbr va t e stored aligned entry =
    let other : (t + 1) % 4 == 2 ≡ false = ground arith in
    let table : (t + 1) % 4 == 1 ≡ true = ground arith in
    let base : (t + 1) / 2 ^ 10 * 2 ^ 10 ≡ t = omega arith in
    rw (stored, other, table, base, entry) refl
