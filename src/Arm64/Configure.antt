-- ===== src/Arm64/Configure.antt =====
-- ConfigureMMU and l2Entry (arm64/mmu.go): a block of the first level becomes a table with the same map,
-- in which one section is set.
use tamago.Prelude.{
  ℕ, ◌+◌, ◌-◌, ◌*◌, ◌/◌, ◌%◌, ◌^◌, ◌<◌, ◌≤◌, ◌≡◌, true, false, ltb, ◌==◌, if◌then◌else◌, inl, inr,
  Bool-cases, ◌⊎◌, refl, ◌∙◌, sym, ap, arith, some, add64, not, bit_or,
}
use tamago.Reg.{Registers, write}
use tamago.Arm64.{MmuMap, tte_table}
use tamago.Arm64.Walk.{walk1, walk2, flat}
use tamago.Arm64.Entries.{walk1-table}
use tamago.Arm64.Tables.{with_next}
use tamago.Prelude.Disjoint.{bit_or_disjoint, bit_and_shift}
use tamago.Prelude.Align.{bit_and_low_mask}
use tamago.Prelude.{bit_and}
use tamago.Arm64.{
  align_down, output_address_mask, split_block, l2_entry, configure_loop, configure_mmu,
}
use tamago.Arm64.Walk.{leaf}
use tamago.Arm64.Tables.{write_self, write_apart}
use tamago.Arm64.Map.{align_down_lem}
use tamago.Prelude.Digits.{bit_or_halves}
use tamago.Arm64.Arena.{alloc_free}
use tamago.Arm64.Split.{section_leaf, section_value, split_block_entry}

-- The low two bits of a descriptor.
kind_of : (a b : ℕ) → a % 4 ≡ 0 → bit_or a b % 4 ≡ b % 4
kind_of a b h = omega (arith, bit_or_halves a b, bit_or_halves (a / 2) (b / 2))

l2_entry_split :
    (m : MmuMap) (g : Registers) (addr e : ℕ)
    → addr < 2 ^ 39
    → m.arena_next % 4096 ≡ 0
    → m.arena_next + 4096 ≤ m.arena_end
    → m.arena_end ≤ 2 ^ 48
    → m.ram_start + 0x4000 + 4096 ≤ m.arena_next
    → g (m.ram_start + 0x4000 + 8 * (addr / 2 ^ 30)) ≡ e
    → e % 4 ≡ 1
    → l2_entry m g addr
      ≡ some (
        m.arena_next + 8 * (addr / 2 ^ 21 % 512),
        write
            (split_block 512 0 g m.arena_next e (addr / 2 ^ 30 * 2 ^ 30))
            (m.ram_start + 0x4000 + 8 * (addr / 2 ^ 30))
            (m.arena_next + tte_table),
        with_next m (m.arena_next + 4096),
      )
unfolding l2_entry
l2_entry_split m g addr e small page room bound below read kind =
    let l1 : add64 (add64 m.ram_start 0x4000) (8 * (addr / 2 ^ 30))
        ≡ m.ram_start + 0x4000 + 8 * (addr / 2 ^ 30) =
      ground arith in
    let block : not (bit_and e 3 == 3) ≡ true = ground (arith, bit_and_low_mask 2 e) in
    let section : align_down addr (2 ^ 30) ≡ addr / 2 ^ 30 * 2 ^ 30 =
      align_down_lem 30 addr (omega arith) (omega arith) ∙ omega arith in
    let points : bit_or m.arena_next tte_table ≡ m.arena_next + tte_table =
      bit_or_disjoint 12 m.arena_next tte_table page (omega arith) in
    let table : bit_and (m.arena_next + tte_table) output_address_mask ≡ m.arena_next =
      bit_and_shift 12 (m.arena_next + tte_table) (2 ^ 36 - 1)
      ∙ omega (arith, bit_and_low_mask 36 ((m.arena_next + tte_table) / 2 ^ 12)) in
    let index : bit_and (addr / 2 ^ 21) 511 ≡ addr / 2 ^ 21 % 512 =
      bit_and_low_mask 9 (addr / 2 ^ 21) in
    let place : add64 m.arena_next (8 * (addr / 2 ^ 21 % 512))
        ≡ m.arena_next + 8 * (addr / 2 ^ 21 % 512) =
      ground arith in
    rw (l1, read, block, alloc_free m room bound, section, points, table, index, place) refl

-- The physical address of the first section: that of the alias, if it has one.
abbrev pub target : ℕ → ℕ → ℕ
target start alias = if ltb 0 (alias / 2 ^ 21) then alias / 2 ^ 21 * 2 ^ 21 else start

-- One round of ConfigureMMU, on a first-level block.
configure_mmu_lem :
    (m m' : MmuMap) (g g' : Registers) (start alias flags page : ℕ)
    → start % 2 ^ 21 ≡ 0
    → start < 2 ^ 39
    → alias < 2 ^ 64
    → l2_entry m g start ≡ some (page, g', m')
    → configure_mmu m g start (start + 2 ^ 21) alias flags
      ≡ some (write g' page (bit_or (target start alias) flags), m')
unfolding configure_mmu configure_loop
configure_mmu_lem m m' g g' start alias flags page whole small fits e =
    let s = start / 2 ^ 21 in
    let one : (start + 2 ^ 21) / 2 ^ 21 - s ≡ 1 = omega arith in
    let addr : s * 2 ^ 21 % 2 ^ 64 ≡ start = omega arith in
    let al : (alias / 2 ^ 21 + s - s) * 2 ^ 21 % 2 ^ 64 ≡ alias / 2 ^ 21 * 2 ^ 21 = omega arith in
    rw (one, addr, e, al) refl

-- The walk through a table of blocks.
walk2-leaf :
    (g : Registers) (base va v : ℕ)
    → g (base + 8 * (va / 2 ^ 21 % 512)) ≡ v
    → v % 4 ≡ 1
    → walk2 g base va ≡ leaf (2 ^ 21) v va
unfolding walk2
walk2-leaf g base va v e kind =
    let table : (v % 4 == 3) ≡ false = ground arith in
    let block : (v % 4 == 1) ≡ true = ground arith in rw (e, table, block) refl

walk1-leaf :
    (g : Registers) (base va v : ℕ)
    → g (base + 8 * (va / 2 ^ 30 % 512)) ≡ v
    → v % 4 ≡ 1
    → walk1 g base va ≡ leaf (2 ^ 30) v va
unfolding walk1
walk1-leaf g base va v e kind =
    let table : (v % 4 == 3) ≡ false = ground arith in
    let block : (v % 4 == 1) ≡ true = ground arith in rw (e, table, block) refl

-- Another section of the gigabyte has another entry.
other_spot :
    (n va start : ℕ)
    → va / 2 ^ 30 ≡ start / 2 ^ 30
    → (va / 2 ^ 21 == (start / 2 ^ 21)) ≡ false
    → (n + 8 * (va / 2 ^ 21 % 512) < n + 8 * (start / 2 ^ 21 % 512))
      ⊎ (n + 8 * (start / 2 ^ 21 % 512) < n + 8 * (va / 2 ^ 21 % 512))
other_spot n va start same other = ground arith

-- ConfigureMMU of one section in a gigabyte that the first level maps to itself by a block, with flags for
-- a block and a free page above the first table: it returns, the section is mapped with the flags to the
-- section of the alias, or to itself when the alias is below 2^21, and every other address of the
-- gigabyte is mapped as before. So an alias counts in whole sections, where the source's comment takes
-- any alias greater than zero for the physical address of the start.
pub configure_mmu-section :
    (m : MmuMap) (g : Registers) (start alias flags e : ℕ)
    → start % 2 ^ 21 ≡ 0
    → start < 2 ^ 39
    → alias < 2 ^ 64
    → flags % 4 ≡ 1
    → m.arena_next % 4096 ≡ 0
    → m.arena_next + 4096 ≤ m.arena_end
    → m.arena_end ≤ 2 ^ 48
    → m.ram_start + 0x4000 + 4096 ≤ m.arena_next
    → g (m.ram_start + 0x4000 + 8 * (start / 2 ^ 30)) ≡ e
    → e < 2 ^ 64
    → e % 4 ≡ 1
    → e % 2 ^ 48 / 2 ^ 30 * 2 ^ 30 ≡ start / 2 ^ 30 * 2 ^ 30
    → (g' : Registers) × (m' : MmuMap) × (configure_mmu m g start (start + 2 ^ 21) alias flags
        ≡ some (g', m'))
      × ((va : ℕ)
          → va / 2 ^ 30 ≡ start / 2 ^ 30
          → walk1 g' (m.ram_start + 0x4000) va ≡ (
              if va / 2 ^ 21 == (start / 2 ^ 21)
              then leaf (2 ^ 21) (bit_or (target start alias) flags) va
              else walk1 g (m.ram_start + 0x4000) va))
configure_mmu-section m g start alias flags e whole small fits fk page room bound below read he kind
      flat =
    let l1 = m.ram_start + 0x4000 in
    let n = m.arena_next in
    let s = start / 2 ^ 30 * 2 ^ 30 in
    let v = bit_or (target start alias) flags in
    let spot = n + 8 * (start / 2 ^ 21 % 512) in
    let g1 = split_block 512 0 g n e s in
    let g2 = write g1 (l1 + 8 * (start / 2 ^ 30)) (n + tte_table) in
    let g3 = write g2 spot v in
    let vk : v % 4 ≡ 1 = kind_of (target start alias) flags (ground arith) ∙ fk in
    let entry : g3 (l1 + 8 * (start / 2 ^ 30)) ≡ n + tte_table =
      write_apart g2 spot v (l1 + 8 * (start / 2 ^ 30)) (inl (omega arith))
      ∙ write_self g1 (l1 + 8 * (start / 2 ^ 30)) (n + tte_table) in
    (
      g3,
      with_next m (n + 4096),
      configure_mmu_lem m (with_next m (n + 4096)) g g2 start alias flags spot whole small fits
          (l2_entry_split m g start e small page room bound below read kind),
      (λ va same.
          walk1-table g3 l1 0 (start / 2 ^ 30) n va entry page (omega arith) refl (omega arith)
            (omega arith) (omega arith)
          ∙ elim (Bool-cases (va / 2 ^ 21 == (start / 2 ^ 21))) [
            | inl here ↦ rw here (
                walk2-leaf g3 n va v
                  (ap g3 {x = n + 8 * (va / 2 ^ 21 % 512)} {y = spot} (ground arith)
                    ∙ write_self g2 spot v)
                  vk)
            | inr other ↦ rw other (
                walk2-leaf g3 n va (section_value e s (va / 2 ^ 21 % 512))
                  (write_apart g2 spot v (n + 8 * (va / 2 ^ 21 % 512))
                      (other_spot n va start same other)
                    ∙ write_apart g1 (l1 + 8 * (start / 2 ^ 30)) (n + tte_table)
                        (n + 8 * (va / 2 ^ 21 % 512)) (inr (omega arith))
                    ∙ split_block_entry 512 0 g n e s (va / 2 ^ 21 % 512) he kind (omega arith)
                        (omega arith) (omega arith) (omega arith) (omega arith))
                  (omega arith)
                ∙ section_leaf e s (va / 2 ^ 21 % 512) va (omega arith) (omega arith) (omega arith)
                    flat (omega arith) (omega arith)
                ∙ sym (
                    walk1-leaf g l1 va e
                      (ap g {x = l1 + 8 * (va / 2 ^ 30 % 512)} {y = l1 + 8 * (start / 2 ^ 30)}
                          (omega arith)
                        ∙ read)
                      kind))
          ]),
    )
