-- ===== src/Arm64/Tests.antt =====
-- Runs of the code of arm64/mmu.go.
use tamago.Prelude.{ℕ, ◌+◌, ◌*◌, ◌^◌, ◌<◌, ◌≤◌, ◌≡◌, ◌⊎◌, refl, Option, some, none, arith}
use tamago.Reg.{Registers, write}
use tamago.Arm64.{
  MmuMap, mapping_split, init_map, init_tables, classify_block, align_down, align_up, split_block,
  alloc, l2_entry, configure_loop, configure_mmu,
}
use tamago.Arm64.Walk.{Translation, mapped, walk1, walk2, leaf, flat}
use tamago.Arm64.Tables.{with_next}
use tamago.Arm64.Start.{init-flat}
use tamago.Arm64.Configure.{target, configure_mmu-section}
use tamago.Prelude.{bit_or, ◌/◌, ◌==◌, if◌then◌else◌}

abbrev empty : Registers
empty x = 0

abbrev small_map : MmuMap
small_map = record {
  ram_start = 0x40000000;
  ram_end = 0x60000000;
  text_start = 0x40010000;
  text_end = 0x40201000;
  arena_next = 0x40007000;
  arena_end = 0x40010000;
}

init_map_small : init_map 0x40000000 0x60000000 0x40010000 0x40200800 ≡ some small_map
unfolding init_map align_down align_up
init_map_small = refl

classify_split : classify_block small_map 0x40000000 0x40400000 ≡ mapping_split
unfolding classify_block
classify_split = refl

-- A block of the first level becomes a table, and the section an alias.
abbrev one_block : Registers
one_block = write empty (0x40004000 + 8 * 2) (0x80000000 + 0x605)

configured : Option Translation
unfolding configure_mmu
configured = elim (configure_mmu small_map one_block 0x80200000 0x80400000 0x40000000 0x705) [
  | none ↦ none
  | some (g, m) ↦ some (walk1 g 0x40004000 0x80212345)
]

configured_lem : configured ≡ some (mapped 0x40012345 1 0)
unfolding configured configure_mmu configure_loop l2_entry alloc split_block align_down walk1 walk2
    leaf
configured_lem = refl

init-flat_example :
    (after : Registers) × (next : ℕ) × (init_tables small_map empty
      ≡ some (after, with_next small_map next, 0x40004000))
    × (next ≤ 0x40010000)
    × ((va : ℕ) → va < 2 ^ 39 → walk1 after 0x40004000 va ≡ flat small_map va)
    × ((x : ℕ) → (x < 0x40004000) ⊎ (0x40010000 ≤ x) → after x ≡ empty x)
init-flat_example =
    init-flat 0x40000000 0x60000000 0x40010000 0x40200800 small_map empty init_map_small
      (omega arith) (omega arith) (omega arith) (omega arith)

configure_mmu-section_example :
    (g' : Registers) × (m' : MmuMap) × (configure_mmu small_map one_block 0x80200000 0x80400000
        0x50000000 0x705
      ≡ some (g', m'))
    × ((va : ℕ)
        → va / 2 ^ 30 ≡ 2
        → walk1 g' 0x40004000 va ≡ (
            if va / 2 ^ 21 == 0x401
            then leaf (2 ^ 21) (bit_or (target 0x80200000 0x50000000) 0x705) va
            else walk1 one_block 0x40004000 va))
configure_mmu-section_example =
    configure_mmu-section small_map one_block 0x80200000 0x50000000 0x705 0x80000605 refl
      (omega arith) (omega arith) refl refl (omega arith) (omega arith) (omega arith) refl
      (omega arith) refl refl
