-- ===== src/Arm/Pages.antt =====
-- initL2Table (arm/mmu.go): every page of the table is mapped to itself, with the flags of memory or of
-- a device. The flag for execute never is bit 4, which in an entry of this level belongs to the access
-- permission and is set already.
use tamago.Prelude.{
  ℕ, ◌+◌, ◌-◌, ◌*◌, ◌/◌, ◌%◌, ◌^◌, ◌<◌, ◌≤◌, ◌≡◌, ◌≢◌, ◌==◌, ◌&&◌, ltb, leb, if◌then◌else◌, arith,
  bit_or, true, some,
}
use tamago.Prelude.Disjoint.{bit_or_disjoint}
use tamago.Reg.{Registers}
use tamago.Arm.{add32, init_l2_entry, init_l2_table}
use tamago.Arm.Sweep.{for_each-once, for_each-kept}
use tamago.Arm.Walk.{small_page, or_16}

-- The entry for the page at `addr`.
pub page_value : ℕ → ℕ → ℕ → ℕ → ℕ
page_value ram_start ram_end text_end addr =
    if leb ram_start addr && (ltb addr text_end)
    then addr + 0x1e
    else if leb ram_start addr && ltb addr ram_end
    then addr + 0x1e
    else addr + 0x12

pub small_page-page_value :
    (ram_start ram_end text_end addr va : ℕ)
    → addr % 2 ^ 12 ≡ 0
    → small_page (page_value ram_start ram_end text_end addr) va ≡ some (addr + va % 2 ^ 12, true)
unfolding page_value
small_page-page_value ram_start ram_end text_end addr va h = ground arith

with_never :
    (addr v : ℕ)
    → addr % 2 ^ 12 ≡ 0
    → v < 2 ^ 12
    → bit_or (bit_or addr v) 16 ≡ (if v / 16 % 2 == 0 then addr + v + 16 else addr + v)
with_never addr v h small = rw (bit_or_disjoint 12 addr v h small, or_16 (addr + v)) (ground arith)

init_l2_entry_lem :
    (ram_start ram_end text_end base section e i : ℕ) (g : Registers)
    → base + 1024 ≤ 2 ^ 32
    → section % 2 ^ 20 ≡ 0
    → section < 2 ^ 32
    → e < 256
    → i < 256
    → init_l2_entry ram_start ram_end text_end base section i g (base + 4 * e) ≡ (
        if i == e
        then page_value ram_start ram_end text_end (section + e * 2 ^ 12)
        else g (base + 4 * e))
unfolding init_l2_entry page_value
init_l2_entry_lem ram_start ram_end text_end base section e i g bound aligned small he hi =
    let place : add32 base (4 * i) ≡ base + 4 * i = omega arith in
    let addr : add32 section (i * 2 ^ 12) ≡ section + i * 2 ^ 12 = omega arith in
    let page : (section + i * 2 ^ 12) % 2 ^ 12 ≡ 0 = omega arith in
    let plain : bit_or (section + i * 2 ^ 12) 0x1e ≡ section + i * 2 ^ 12 + 0x1e =
      bit_or_disjoint 12 (section + i * 2 ^ 12) 0x1e page (omega arith) in
    rw
      (
        place,
        addr,
        with_never (section + i * 2 ^ 12) 0x1e page (omega arith),
        with_never (section + i * 2 ^ 12) 0x12 page (omega arith),
        plain,
      )
      (ground arith)

init_l2_entry-other :
    (ram_start ram_end text_end base section j i : ℕ) (g : Registers)
    → base + 1024 ≤ 2 ^ 32
    → ((e : ℕ) → e < 256 → j ≢ base + 4 * e)
    → i < 256
    → init_l2_entry ram_start ram_end text_end base section i g j ≡ g j
unfolding init_l2_entry
init_l2_entry-other ram_start ram_end text_end base section j i g bound apart hi =
    let place : add32 base (4 * i) ≡ base + 4 * i = omega arith in
    rw place (ground (arith, apart i hi))

pub init_l2_table-page :
    (ram_start ram_end text_end entry base section e : ℕ) (g : Registers)
    → base + 1024 ≤ 2 ^ 32
    → section % 2 ^ 20 ≡ 0
    → section < 2 ^ 32
    → e < 256
    → entry < 256
    → init_l2_table ram_start ram_end text_end entry base section g (base + 4 * e) ≡ (
        if leb entry e
        then page_value ram_start ram_end text_end (section + e * 2 ^ 12)
        else g (base + 4 * e))
unfolding init_l2_table
init_l2_table-page ram_start ram_end text_end entry base section e g bound aligned small he hn =
    ground (
      arith,
      for_each-once (init_l2_entry ram_start ram_end text_end base section) 256 e (base + 4 * e)
          (λ _. page_value ram_start ram_end text_end (section + e * 2 ^ 12))
          (λ i g' hi.
            init_l2_entry_lem ram_start ram_end text_end base section e i g' bound aligned small he
              hi)
          (256 - entry) entry g (omega arith),
    )

pub init_l2_table-other :
    (ram_start ram_end text_end entry base section j : ℕ) (g : Registers)
    → base + 1024 ≤ 2 ^ 32
    → entry < 256
    → ((e : ℕ) → e < 256 → j ≢ base + 4 * e)
    → init_l2_table ram_start ram_end text_end entry base section g j ≡ g j
unfolding init_l2_table
init_l2_table-other ram_start ram_end text_end entry base section j g bound hn apart =
    for_each-kept (init_l2_entry ram_start ram_end text_end base section) 256 j
      (λ i g' hi. init_l2_entry-other ram_start ram_end text_end base section j i g' bound apart hi)
      (256 - entry) entry g (omega arith)
