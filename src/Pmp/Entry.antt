-- ===== src/Pmp/Entry.antt =====
-- What ReadPMP returns after WritePMP.
use tamago.Prelude.{ℕ, ◌-◌, ◌/◌, ◌%◌, ◌^◌, ◌<◌, ◌≡◌, Bool, arith, if◌then◌else◌}
use tamago.Bits.Word.{shl}

abbrev bit : Bool → ℕ
bit b = if b then 1 else 0

shl-address : (addr : ℕ) → addr < 2 ^ 64 → shl 64 (addr / 2 ^ 2) 2 ≡ addr - addr % 4
shl-address addr h = omega arith
