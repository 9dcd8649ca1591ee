-- ===== src/Arm.antt =====
-- The translation tables of arm (arm/mmu.go): the flat map that InitMMU builds at the vector base, and the
-- changes that ConfigureMMU and the Set methods make to its first level.
-- A table entry is a 32-bit register of package internal/reg. The limits that the runtime gives are
-- the arguments `ram_start`, `ram_end` and `text_end`; the flushes and set_ttbr0 change no entry.
pub mod Sweep
pub mod Walk
pub mod Sections
pub mod Pages
pub mod Rounds
pub mod Flat
pub mod Start
mod Tests
use tamago.Prelude.{
  ℕ, zero, suc, ◌+◌, ◌-◌, ◌*◌, ◌/◌, ◌%◌, ◌^◌, ◌&&◌, bit_or, bit_and, ltb, leb, if◌then◌else◌,
}
use tamago.Bits.Word.{shl}
use tamago.Reg.{Registers, write, set_n}

-- `a + b` of two words of 32 bits.
abbrev pub add32 : ℕ → ℕ → ℕ
add32 a b = (a + b) % 2 ^ 32

abbrev pub l1_page_table_offset : ℕ
l1_page_table_offset = 0x4000

abbrev pub l1_page_table_size : ℕ
l1_page_table_size = 4096

abbrev pub l2_page_table_offset : ℕ
l2_page_table_offset = 0xc000

abbrev pub l2_page_table_size : ℕ
l2_page_table_size = 256

abbrev pub tte_page_table : ℕ
tte_page_table = 2 ^ 0

abbrev pub tte_execute_never : ℕ
tte_execute_never = 2 ^ 4

-- The access permission 0b01, and the attributes cacheable, bufferable and section.
abbrev pub memory_region : ℕ
memory_region = 0b01 * 2 ^ 10 + 2 ^ 3 + 2 ^ 2 + 2 ^ 1

abbrev pub device_region : ℕ
device_region = 0b01 * 2 ^ 10 + 2 ^ 1

-- The same in an entry of the second level.
abbrev pub l2_memory_region : ℕ
l2_memory_region = 0b01 * 2 ^ 4 + 2 ^ 3 + 2 ^ 2 + 2 ^ 1

abbrev pub l2_device_region : ℕ
l2_device_region = 0b01 * 2 ^ 4 + 2 ^ 1

-- The loops over entries: `k` rounds, for `i` and the numbers after it.
unfoldable pub for_each : (ℕ → Registers → Registers) → ℕ → ℕ → Registers → Registers
for_each body zero i g = g
for_each body (suc k) i g = for_each body k (i + 1) (body i g)

-- The body of the loop of initL2Table.
unfoldable pub init_l2_entry : ℕ → ℕ → ℕ → ℕ → ℕ → ℕ → Registers → Registers
init_l2_entry ram_start ram_end text_end base section i g =
    let page = add32 base (4 * i) in
    let addr = add32 section (i * 2 ^ 12) in
    if leb ram_start addr && ltb addr text_end
    then write g page (bit_or addr l2_memory_region)
    else if leb ram_start addr && ltb addr ram_end
    then write g page (bit_or (bit_or addr l2_memory_region) tte_execute_never)
    else write g page (bit_or (bit_or addr l2_device_region) tte_execute_never)

unfoldable pub init_l2_table : ℕ → ℕ → ℕ → ℕ → ℕ → ℕ → Registers → Registers
init_l2_table ram_start ram_end text_end entry base section g =
    for_each (init_l2_entry ram_start ram_end text_end base section) (l2_page_table_size - entry)
      entry g

-- The body of the loop of initL1Table.
unfoldable pub init_l1_entry : ℕ → ℕ → ℕ → ℕ → ℕ → ℕ → ℕ → Registers → Registers
init_l1_entry vbar ram_start ram_end text_end ttbr section i g =
    let page = add32 ttbr (4 * i) in
    let addr = add32 section (i * 2 ^ 20) in
    let base = add32 (add32 vbar l2_page_table_offset) (l2_page_table_size * 4) in
    if ltb addr text_end && ltb text_end (add32 addr (2 ^ 20))
    then init_l2_table ram_start ram_end text_end 0 base addr
        (write g page (bit_or base tte_page_table))
    else if leb ram_start addr && ltb addr text_end
    then write g page (bit_or addr memory_region)
    else if leb ram_start addr && ltb addr ram_end
    then write g page (bit_or (bit_or addr memory_region) tte_execute_never)
    else write g page (bit_or (bit_or addr device_region) tte_execute_never)

unfoldable pub init_l1_table : ℕ → ℕ → ℕ → ℕ → ℕ → ℕ → ℕ → Registers → Registers
init_l1_table vbar ram_start ram_end text_end entry ttbr section g =
    for_each (init_l1_entry vbar ram_start ram_end text_end ttbr section)
      (l1_page_table_size - entry) entry g

unfoldable pub init_mmu : ℕ → ℕ → ℕ → ℕ → Registers → Registers
init_mmu vbar ram_start ram_end text_end g =
    let l1 = add32 vbar l1_page_table_offset in
    let l2 = add32 vbar l2_page_table_offset in
    let g1 = write g l1 (bit_or l2 tte_page_table) in
    let g2 = write g1 l2 0 in
    let g3 = init_l1_table vbar ram_start ram_end text_end 1 l1 0 g2 in
    init_l2_table ram_start ram_end text_end 1 l2 0 g3

-- The rounds of a loop from section `start` that stops at `end` and at the end of the table.
abbrev pub rounds : ℕ → ℕ → ℕ
rounds start end = (if ltb end l1_page_table_size then end else l1_page_table_size) - start

-- The body of the loop of ConfigureMMU; `start` and `alias` are counted in sections.
unfoldable pub configure_entry : ℕ → ℕ → ℕ → ℕ → ℕ → Registers → Registers
configure_entry l1 start alias flags i g =
    let pa = if ltb 0 alias then (alias + i - start) * 2 ^ 20 % 2 ^ 32 else i * 2 ^ 20 % 2 ^ 32 in
    write g (add32 l1 (4 * i)) (bit_or pa flags)

unfoldable pub configure_mmu : ℕ → ℕ → ℕ → ℕ → ℕ → Registers → Registers
configure_mmu vbar start end alias flags g =
    for_each
      (configure_entry (add32 vbar l1_page_table_offset) (start / 2 ^ 20) (alias / 2 ^ 20) flags)
      (rounds (start / 2 ^ 20) (end / 2 ^ 20)) (start / 2 ^ 20) g

-- The body of the loop of updateMMU.
unfoldable pub update_entry : ℕ → ℕ → ℕ → ℕ → ℕ → Registers → Registers
update_entry l1 pos mask val i g = set_n 32 g (add32 l1 (4 * i)) pos mask val

unfoldable pub update_mmu : ℕ → ℕ → ℕ → ℕ → ℕ → ℕ → Registers → Registers
update_mmu vbar start end pos mask val g =
    for_each (update_entry (add32 vbar l1_page_table_offset) pos mask val)
      (rounds (start / 2 ^ 20) (end / 2 ^ 20)) (start / 2 ^ 20) g

pub set_access_permissions : ℕ → ℕ → ℕ → ℕ → ℕ → Registers → Registers
set_access_permissions vbar start end ap domain g =
    update_mmu vbar start end 5 0b1101111 (bit_or (shl 32 ap 5) (bit_and domain 0xf)) g

-- The mask has the bits of all attributes: 0 to 4, 18 and 19.
pub set_attributes : ℕ → ℕ → ℕ → ℕ → Registers → Registers
set_attributes vbar start end flags g =
    update_mmu vbar start end 0 (2 ^ 19 + 2 ^ 18 + 0b11111) flags g

pub set_attribute : ℕ → ℕ → ℕ → ℕ → ℕ → Registers → Registers
set_attribute vbar start end pos val g = update_mmu vbar start end 0 pos (shl 32 val pos) g
