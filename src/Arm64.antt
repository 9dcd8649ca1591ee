-- ===== src/Arm64.antt =====
-- The translation tables of arm64 (arm64/mmu.go): the early map of the whole address space, which
-- Init builds in the memory below the program, and the changes that ConfigureMMU makes to it.
-- A table entry is a 64-bit register of package internal/reg at its address. `none` is a panic. The four
-- limits that the runtime gives are arguments of `init_map`. The three system registers that Init
-- writes last are not modelled; the base that it gives to the walker is a result of Init.
pub mod Walk
pub mod Entries
pub mod Pages
pub mod Arena
pub mod Blocks
pub mod Tables
pub mod Gigabytes
pub mod Map
pub mod Start
pub mod Split
pub mod Configure
mod Tests
use tamago.Prelude.{
  ℕ, zero, suc, ◌+◌, ◌-◌, ◌*◌, ◌/◌, ◌%◌, ◌^◌, Bool, true, false, not, ◌&&◌, ◌||◌, Option, none,
  some, bit_or, ltb, leb, ◌==◌, if◌then◌else◌, add64, bit_and, ◌>>=◌, ◌>>◌, guard,
}
use tamago.Bits.Word.{flip}
use tamago.Reg.{Registers, write}

abbrev pub page_table_size : ℕ
page_table_size = 4096

abbrev pub entries_per_table : ℕ
entries_per_table = 512

abbrev pub output_address_mask : ℕ
output_address_mask = 0x0000fffffffff000

pub record MmuMap : Type 0 where
  pub ram_start : ℕ
  pub ram_end : ℕ
  pub text_start : ℕ
  pub text_end : ℕ
  pub arena_next : ℕ
  pub arena_end : ℕ

pub data MappingAction : Type 0 where
  mapping_device mapping_memory_exec mapping_memory_xn mapping_split : MappingAction

-- `addr &^ (align - 1)`
unfoldable pub align_down : ℕ → ℕ → ℕ
align_down addr align = bit_and addr (flip 64 (align - 1))

unfoldable pub align_up : ℕ → ℕ → ℕ
unfolding align_down
align_up addr align = align_down (add64 addr (align - 1)) align

-- `init`: what runtime.MemRegion and runtime.TextRegion return, and the map.
unfoldable pub init_map : ℕ → ℕ → ℕ → ℕ → Option MmuMap
init_map ram_start ram_end text_start text_end = do
  guard (bit_and ram_start (page_table_size - 1) == 0 && bit_and ram_end (page_table_size - 1) == 0)
  let text_start' = align_down text_start page_table_size
  let text_end' = align_up text_end page_table_size
  guard (not (ltb text_start' ram_start || ltb ram_end text_end'))
  let arena_next = add64 ram_start 0x7000
  guard (ltb arena_next text_start')
  some (record {
    ram_start = ram_start;
    ram_end = ram_end;
    text_start = text_start';
    text_end = text_end';
    arena_next = arena_next;
    arena_end = text_start';
  })

unfoldable pub alloc : MmuMap → Option (ℕ × MmuMap)
alloc m = do
  guard (leb (add64 m.arena_next page_table_size) m.arena_end)
  some (m.arena_next, record m { arena_next = add64 m.arena_next page_table_size })

unfoldable pub classify_block : MmuMap → ℕ → ℕ → MappingAction
classify_block m addr end =
    if leb m.ram_start addr && leb end m.text_end
    then mapping_memory_exec
    else if leb m.text_end addr && leb end m.ram_end
    then mapping_memory_xn
    else if leb m.ram_start addr && leb end m.ram_end
    then mapping_split
    else if ltb addr m.ram_end && ltb m.ram_start end
    then mapping_split
    else mapping_device

-- `action == mappingSplit`
abbrev pub is_split : MappingAction → Bool
is_split mapping_split = true
is_split mapping_device = false
is_split mapping_memory_exec = false
is_split mapping_memory_xn = false

unfoldable pub classify_page : MmuMap → ℕ → Option MappingAction
classify_page m addr =
    let action = classify_block m addr (add64 addr page_table_size) in
    guard (not (is_split action)) >> some action

abbrev pub execute_never : ℕ
execute_never = 0b11 * 2 ^ 53

unfoldable pub write_mapping : Registers → ℕ → ℕ → ℕ → ℕ → MappingAction → Option Registers
write_mapping g page addr memory device mapping_memory_exec =
    some (write g page (bit_or addr memory))
write_mapping g page addr memory device mapping_memory_xn =
    some (write g page (bit_or (bit_or addr memory) execute_never))
write_mapping g page addr memory device mapping_device =
    some (write g page (bit_or (bit_or addr device) execute_never))
write_mapping g page addr memory device mapping_split = none

-- The attributes, with the access flag in bit 10 and the shareability in bits 8 and 9.
abbrev pub tte_block : ℕ
tte_block = 0b01

abbrev pub tte_table : ℕ
tte_table = 0b11

abbrev pub device_attributes : ℕ
device_attributes = 2 ^ 10 + 0b10 * 2 ^ 8

abbrev pub memory_attributes : ℕ
memory_attributes = 2 ^ 10 + 0b11 * 2 ^ 8 + 1 * 2 ^ 2

-- The loop of initL3Table from entry `i` on, with `k` rounds left; likewise the others.
unfoldable pub init_l3_loop : ℕ → ℕ → MmuMap → Registers → ℕ → ℕ → Option Registers
init_l3_loop zero i m g base section = some g
init_l3_loop (suc k) i m g base section = do
  let addr = section + i * 2 ^ 12
  action ← classify_page m addr
  g1 ←
      write_mapping g (base + 8 * i) addr (memory_attributes + 0b11) (device_attributes + 0b11)
        action
  init_l3_loop k (i + 1) m g1 base section

unfoldable pub init_l3_table : MmuMap → Registers → ℕ → ℕ → ℕ → Option Registers
init_l3_table m g entry base section =
    init_l3_loop (entries_per_table - entry) entry m g base section

-- The body of the loop of initL2Table.
unfoldable pub init_l2_entry : MmuMap → Registers → ℕ → ℕ → Option (Registers × MmuMap)
init_l2_entry m g page addr =
    let action = classify_block m addr (addr + 2 ^ 21) in
    if is_split action
    then (do
      (next, m') ← alloc m
      g' ← init_l3_table m' (write g page (bit_or next tte_table)) 0 next addr
      some (g', m'))
    else (do
      g' ←
          write_mapping g page addr (memory_attributes + tte_block) (device_attributes + tte_block)
            action
      some (g', m))

unfoldable pub init_l2_loop : ℕ → ℕ → MmuMap → Registers → ℕ → ℕ → Option (Registers × MmuMap)
init_l2_loop zero i m g base section = some (g, m)
init_l2_loop (suc k) i m g base section = do
  (g1, m1) ← init_l2_entry m g (base + 8 * i) (section + i * 2 ^ 21)
  init_l2_loop k (i + 1) m1 g1 base section

unfoldable pub init_l2_table : MmuMap → Registers → ℕ → ℕ → ℕ → Option (Registers × MmuMap)
init_l2_table m g entry base section =
    init_l2_loop (entries_per_table - entry) entry m g base section

-- The body of the loop of initL1Table.
unfoldable pub init_l1_entry : MmuMap → Registers → ℕ → ℕ → Option (Registers × MmuMap)
init_l1_entry m g page addr =
    let action = classify_block m addr (addr + 2 ^ 30) in
    if is_split action
    then (do
      (next, m') ← alloc m
      init_l2_table m' (write g page (bit_or next tte_table)) 0 next addr)
    else (do
      g' ←
          write_mapping g page addr (memory_attributes + tte_block) (device_attributes + tte_block)
            action
      some (g', m))

unfoldable pub init_l1_loop : ℕ → ℕ → MmuMap → Registers → ℕ → ℕ → Option (Registers × MmuMap)
init_l1_loop zero i m g ttbr section = some (g, m)
init_l1_loop (suc k) i m g ttbr section = do
  (g1, m1) ← init_l1_entry m g (ttbr + 8 * i) (section + i * 2 ^ 30)
  init_l1_loop k (i + 1) m1 g1 ttbr section

unfoldable pub init_l1_table : MmuMap → Registers → ℕ → ℕ → ℕ → Option (Registers × MmuMap)
init_l1_table m g entry ttbr section =
    init_l1_loop (entries_per_table - entry) entry m g ttbr section

-- Init, after `init`: the entries, the map, and the base of the first table.
unfoldable pub init_tables : MmuMap → Registers → Option (Registers × MmuMap × ℕ)
init_tables m g = do
  let l1 = m.ram_start + 0x4000
  let l2 = m.ram_start + 0x5000
  let l3 = m.ram_start + 0x6000
  let g1 = write g l1 (bit_or l2 tte_table)
  let g2 = write g1 l2 (bit_or l3 tte_table)
  let g3 = write g2 l3 0
  (g4, m1) ← init_l1_table m g3 1 l1 0
  (g5, m2) ← init_l2_table m1 g4 1 l2 0
  g6 ← init_l3_table m2 g5 1 l3 0
  some (g6, m2, l1)

-- The entries that l2Entry writes in a new table, from entry `i` on.
unfoldable pub split_block : ℕ → ℕ → Registers → ℕ → ℕ → ℕ → Registers
split_block zero i g next tte section = g
split_block (suc k) i g next tte section =
    let val =
      if bit_and tte tte_table == tte_block
      then bit_or (bit_and tte (flip 64 output_address_mask)) (add64 section (i * 2 ^ 21))
      else 0 in
    split_block k (i + 1) (write g (next + 8 * i) val) next tte section

-- l2Entry: the address of the entry, the entries and the map.
unfoldable pub l2_entry : MmuMap → Registers → ℕ → Option (ℕ × Registers × MmuMap)
l2_entry m g addr = do
  let l1 = add64 (add64 m.ram_start 0x4000) (8 * (addr / 2 ^ 30))
  let tte = g l1
  let index = 8 * bit_and (addr / 2 ^ 21) (entries_per_table - 1)
  if not (bit_and tte tte_table == tte_table)
      then (do
        (next, m') ← alloc m
        let section = align_down addr (2 ^ 30)
        let tte' = bit_or next tte_table
        let g' = write (split_block entries_per_table 0 g next tte section) l1 tte'
        some (add64 (bit_and tte' output_address_mask) index, g', m'))
      else some (add64 (bit_and tte output_address_mask) index, g, m)

-- The loop of ConfigureMMU from section `i` on; `start` and `alias` are counted in sections.
unfoldable pub configure_loop : ℕ → ℕ → MmuMap → Registers → ℕ → ℕ → ℕ → Option (Registers × MmuMap)
configure_loop zero i m g start alias flags = some (g, m)
configure_loop (suc k) i m g start alias flags = do
  (page, g1, m1) ← l2_entry m g (i * 2 ^ 21 % 2 ^ 64)
  let pa = if ltb 0 alias then (alias + i - start) * 2 ^ 21 % 2 ^ 64 else i * 2 ^ 21 % 2 ^ 64
  configure_loop k (i + 1) m1 (write g1 page (bit_or pa flags)) start alias flags

unfoldable pub configure_mmu : MmuMap → Registers → ℕ → ℕ → ℕ → ℕ → Option (Registers × MmuMap)
configure_mmu m g start end alias flags =
    let start' = start / 2 ^ 21 in
    configure_loop (end / 2 ^ 21 - start') start' m g start' (alias / 2 ^ 21) flags
