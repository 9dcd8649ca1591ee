-- ===== src/Arm64/Entries.antt =====
-- One entry of a table of arm64/mmu.go: what writeMapping stores and how the processor reads it, and
-- when classifyBlock asks for a table in its place.
use tamago.Prelude.{
  ℕ, ◌+◌, ◌*◌, ◌/◌, ◌%◌, ◌^◌, ◌<◌, ◌≤◌, ◌≡◌, true, false, ◌&&◌, ltb, if◌then◌else◌, refl, ◌∙◌, ap,
  arith, some, bit_or,
}
use tamago.Prelude.Disjoint.{bit_or_disjoint, bit_or_comm}
use tamago.Reg.{Registers, write}
use tamago.Arm64.{
  MmuMap, MappingAction, mapping_device, mapping_memory_exec, mapping_memory_xn, mapping_split,
  classify_block, is_split, write_mapping, memory_attributes, device_attributes, execute_never,
  tte_table,
}
use tamago.Arm64.Walk.{leaf, next_table, walk1, walk2, walk3, region, translated}

-- The attributes of an entry, without its type.
abbrev pub attributes : MappingAction → ℕ
attributes mapping_device = 0x600 + 3 * 2 ^ 53
attributes mapping_memory_exec = 0x704
attributes mapping_memory_xn = 0x704 + 3 * 2 ^ 53
attributes mapping_split = 0

-- Entries start at multiples of the page size.
with_attributes : (addr v : ℕ) → addr % 2 ^ 12 ≡ 0 → v < 2 ^ 12 → bit_or addr v ≡ addr + v
with_attributes = bit_or_disjoint 12

with_never :
    (addr v : ℕ)
    → addr % 2 ^ 12 ≡ 0
    → addr < 2 ^ 48
    → v < 2 ^ 12
    → bit_or (bit_or addr v) execute_never ≡ addr + v + execute_never
with_never addr v ha hs hv = rw (with_attributes addr v ha hv) (
    bit_or_comm (addr + v) execute_never
    ∙ bit_or_disjoint 53 execute_never (addr + v) refl (omega arith)
    ∙ omega arith)

-- A mapping of any kind but a split is stored.
pub write_mapping_lem :
    (g : Registers) (page addr t : ℕ) (action : MappingAction)
    → is_split action ≡ false
    → addr % 2 ^ 12 ≡ 0
    → addr < 2 ^ 48
    → t < 4
    → write_mapping g page addr (memory_attributes + t) (device_attributes + t) action
      ≡ some (write g page (addr + (t + attributes action)))
unfolding write_mapping
write_mapping_lem g page addr t mapping_device h ha hs ht =
    rw (with_never addr (device_attributes + t) ha hs (omega arith))
      (ap (λ e. some (write g page e)) (omega arith))
write_mapping_lem g page addr t mapping_memory_exec h ha hs ht =
    rw (with_attributes addr (memory_attributes + t) ha (omega arith))
      (ap (λ e. some (write g page e)) (omega arith))
write_mapping_lem g page addr t mapping_memory_xn h ha hs ht =
    rw (with_never addr (memory_attributes + t) ha hs (omega arith))
      (ap (λ e. some (write g page e)) (omega arith))
write_mapping_lem g page addr t mapping_split h ha hs ht = ground arith

-- What the processor reads there, at level 3.
pub walk3-entry :
    (g : Registers) (base section i va : ℕ) (action : MappingAction)
    → is_split action ≡ false
    → g (base + 8 * i) ≡ section + i * 2 ^ 12 + (3 + attributes action)
    → section % 2 ^ 21 ≡ 0
    → section + 2 ^ 21 ≤ 2 ^ 48
    → i < 512
    → section + i * 2 ^ 12 ≤ va
    → va < section + i * 2 ^ 12 + 2 ^ 12
    → walk3 g base va ≡ translated action va
unfolding walk3 leaf translated
walk3-entry g base section i va mapping_device h e hs hb hi p q =
    let place : va / 2 ^ 12 % 512 ≡ i = omega arith in rw (place, e) (ground arith)
walk3-entry g base section i va mapping_memory_exec h e hs hb hi p q =
    let place : va / 2 ^ 12 % 512 ≡ i = omega arith in rw (place, e) (ground arith)
walk3-entry g base section i va mapping_memory_xn h e hs hb hi p q =
    let place : va / 2 ^ 12 % 512 ≡ i = omega arith in rw (place, e) (ground arith)
walk3-entry g base section i va mapping_split h e hs hb hi p q = ground arith

-- What the processor reads there, at level 2.
pub walk2-entry :
    (g : Registers) (base section i va : ℕ) (action : MappingAction)
    → is_split action ≡ false
    → g (base + 8 * i) ≡ section + i * 2 ^ 21 + (1 + attributes action)
    → section % 2 ^ 30 ≡ 0
    → section + 2 ^ 30 ≤ 2 ^ 48
    → i < 512
    → section + i * 2 ^ 21 ≤ va
    → va < section + i * 2 ^ 21 + 2 ^ 21
    → walk2 g base va ≡ translated action va
unfolding walk2 leaf translated
walk2-entry g base section i va mapping_device h e hs hb hi p q =
    let place : va / 2 ^ 21 % 512 ≡ i = omega arith in rw (place, e) (ground arith)
walk2-entry g base section i va mapping_memory_exec h e hs hb hi p q =
    let place : va / 2 ^ 21 % 512 ≡ i = omega arith in rw (place, e) (ground arith)
walk2-entry g base section i va mapping_memory_xn h e hs hb hi p q =
    let place : va / 2 ^ 21 % 512 ≡ i = omega arith in rw (place, e) (ground arith)
walk2-entry g base section i va mapping_split h e hs hb hi p q = ground arith

-- What the processor reads there, at level 1.
pub walk1-entry :
    (g : Registers) (base section i va : ℕ) (action : MappingAction)
    → is_split action ≡ false
    → g (base + 8 * i) ≡ section + i * 2 ^ 30 + (1 + attributes action)
    → section % 2 ^ 39 ≡ 0
    → section + 2 ^ 39 ≤ 2 ^ 48
    → i < 512
    → section + i * 2 ^ 30 ≤ va
    → va < section + i * 2 ^ 30 + 2 ^ 30
    → walk1 g base va ≡ translated action va
unfolding walk1 leaf translated
walk1-entry g base section i va mapping_device h e hs hb hi p q =
    let place : va / 2 ^ 30 % 512 ≡ i = omega arith in rw (place, e) (ground arith)
walk1-entry g base section i va mapping_memory_exec h e hs hb hi p q =
    let place : va / 2 ^ 30 % 512 ≡ i = omega arith in rw (place, e) (ground arith)
walk1-entry g base section i va mapping_memory_xn h e hs hb hi p q =
    let place : va / 2 ^ 30 % 512 ≡ i = omega arith in rw (place, e) (ground arith)
walk1-entry g base section i va mapping_split h e hs hb hi p q = ground arith

-- The entry of a table leads the walk to it.
pub walk2-table :
    (g : Registers) (base section i next va : ℕ)
    → g (base + 8 * i) ≡ next + tte_table
    → next % 2 ^ 12 ≡ 0
    → next < 2 ^ 48
    → section % 2 ^ 30 ≡ 0
    → i < 512
    → section + i * 2 ^ 21 ≤ va
    → va < section + i * 2 ^ 21 + 2 ^ 21
    → walk2 g base va ≡ walk3 g next va
unfolding walk2
walk2-table g base section i next va e hn hb hs hi p q =
    let place : va / 2 ^ 21 % 512 ≡ i = omega arith in
    let kind : (next + tte_table) % 4 ≡ 3 = omega arith in
    let points : next_table (next + tte_table) ≡ next = omega arith in
    rw (place, e, kind, points) refl

-- The entry of a table leads the walk to it.
pub walk1-table :
    (g : Registers) (base section i next va : ℕ)
    → g (base + 8 * i) ≡ next + tte_table
    → next % 2 ^ 12 ≡ 0
    → next < 2 ^ 48
    → section % 2 ^ 39 ≡ 0
    → i < 512
    → section + i * 2 ^ 30 ≤ va
    → va < section + i * 2 ^ 30 + 2 ^ 30
    → walk1 g base va ≡ walk2 g next va
unfolding walk1
walk1-table g base section i next va e hn hb hs hi p q =
    let place : va / 2 ^ 30 % 512 ≡ i = omega arith in
    let kind : (next + tte_table) % 4 ≡ 3 = omega arith in
    let points : next_table (next + tte_table) ≡ next = omega arith in
    rw (place, e, kind, points) refl

-- The boundaries of the map inside a range, which cost a table at each level.
unfoldable pub boundaries : MmuMap → ℕ → ℕ → ℕ
boundaries m a e =
    (if ltb a m.ram_start && ltb m.ram_start e then 1 else 0)
    + (if ltb a m.text_end && ltb m.text_end e then 1 else 0)
    + (if ltb a m.ram_end && ltb m.ram_end e then 1 else 0)

pub classify-split :
    (m : MmuMap) (a e : ℕ) → a < e → is_split (classify_block m a e) ≡ true → 1 ≤ boundaries m a e
unfolding classify_block boundaries
classify-split m a e p h = ground arith

pub boundaries-add :
    (m : MmuMap) (a b e : ℕ)
    → a ≤ b
    → b ≤ e
    → boundaries m a b + boundaries m b e ≤ boundaries m a e
unfolding boundaries
boundaries-add m a b e p q = ground arith

-- The page of a map whose boundaries are pages is never split.
pub classify-page :
    (m : MmuMap) (a : ℕ)
    → m.ram_start % 4096 ≡ 0
    → m.text_end % 4096 ≡ 0
    → m.ram_end % 4096 ≡ 0
    → a % 4096 ≡ 0
    → is_split (classify_block m a (a + 4096)) ≡ false
unfolding classify_block
classify-page m a p q r h = ground arith

-- A block that is not split is in one region.
pub classify-region :
    (m : MmuMap) (a e va : ℕ)
    → m.ram_start ≤ m.text_end
    → m.text_end ≤ m.ram_end
    → is_split (classify_block m a e) ≡ false
    → a ≤ va
    → va < e
    → classify_block m a e ≡ region m va
unfolding classify_block region
classify-region m a e va p q h ha he = ground arith
