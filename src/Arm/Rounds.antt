-- ===== src/Arm/Rounds.antt =====
-- The rounds of initL1Table (arm/mmu.go): each sets one section, and the one in which the text ends has a table.
use tamago.Prelude.{
  ℕ, ◌+◌, ◌-◌, ◌*◌, ◌/◌, ◌%◌, ◌^◌, ◌<◌, ◌≤◌, ◌≡◌, ◌==◌, ◌&&◌, not, ltb, leb, if◌then◌else◌, arith,
  bit_or, refl, Bool,
}
use tamago.Prelude.Disjoint.{bit_or_disjoint}
use tamago.Reg.{Registers, write}
use tamago.Arm.{add32, init_l1_entry, init_l2_table}
use tamago.Arm.Walk.{or_16}
use tamago.Arm.Pages.{page_value, init_l2_table-page, init_l2_table-other}

-- The section that the text ends in, if it does not end with one.
abbrev pub ends_inside : ℕ → ℕ → Bool
ends_inside text_end e = (e == text_end / 2 ^ 20) && not (text_end % 2 ^ 20 == 0)

-- The entry of a section, or of the table in the place of the one that the text ends in.
unfoldable pub section_value : ℕ → ℕ → ℕ → ℕ → ℕ → ℕ
section_value vbar ram_start ram_end text_end e =
    let addr = e * 2 ^ 20 in
    if ends_inside text_end e
    then vbar + 0xc400 + 1
    else if leb ram_start addr && ltb addr text_end
    then addr + 0x40e
    else if leb ram_start addr && ltb addr ram_end
    then addr + 0x41e
    else addr + 0x412

with_never :
    (addr v : ℕ)
    → addr % 2 ^ 20 ≡ 0
    → v < 2 ^ 12
    → v / 16 % 2 ≡ 0
    → bit_or (bit_or addr v) 16 ≡ addr + (v + 16)
with_never addr v h small clear =
    rw (bit_or_disjoint 12 addr v (omega arith) small, or_16 (addr + v)) (ground arith)

crosses :
    (text_end i : ℕ)
    → text_end < 2 ^ 32 - 2 ^ 20
    → i < 4096
    → (ltb (i * 2 ^ 20) text_end && ltb text_end (add32 (i * 2 ^ 20) (2 ^ 20)))
      ≡ ends_inside text_end i
crosses text_end i h hi = ground arith

-- One round on any address, by what it does if the text ends in its section and by the entry it
-- stores if not.
init_l1_entry_lem :
    (vbar ram_start ram_end text_end i : ℕ) (g : Registers)
    → vbar % 2 ^ 14 ≡ 0
    → vbar + 0x10000 ≤ 2 ^ 32
    → text_end < 2 ^ 32 - 2 ^ 20
    → i < 4096
    → init_l1_entry vbar ram_start ram_end text_end (vbar + 0x4000) 0 i g ≡ (
        if ends_inside text_end i
        then init_l2_table ram_start ram_end text_end 0
            (vbar + 0xc400)
            (i * 2 ^ 20)
            (write g (vbar + 0x4000 + 4 * i) (vbar + 0xc400 + 1))
        else write g (vbar + 0x4000 + 4 * i) (section_value vbar ram_start ram_end text_end i))
unfolding init_l1_entry section_value
init_l1_entry_lem vbar ram_start ram_end text_end i g aligned bound high hi =
    let place : add32 (vbar + 0x4000) (4 * i) ≡ vbar + 0x4000 + 4 * i = omega arith in
    let addr : add32 0 (i * 2 ^ 20) ≡ i * 2 ^ 20 = omega arith in
    let base : add32 (add32 vbar 0xc000) (256 * 4) ≡ vbar + 0xc400 = omega arith in
    let table : bit_or (vbar + 0xc400) 1 ≡ vbar + 0xc400 + 1 =
      bit_or_disjoint 10 (vbar + 0xc400) 1 (omega arith) (omega arith) in
    let section : i * 2 ^ 20 % 2 ^ 20 ≡ 0 = omega arith in
    let plain : bit_or (i * 2 ^ 20) 0x40e ≡ i * 2 ^ 20 + 0x40e =
      bit_or_disjoint 12 (i * 2 ^ 20) 0x40e (omega arith) (omega arith) in
    rw
      (
        place,
        addr,
        base,
        crosses text_end i high hi,
        table,
        with_never (i * 2 ^ 20) 0x40e section (omega arith) refl,
        with_never (i * 2 ^ 20) 0x402 section (omega arith) refl,
        plain,
      )
      (ground arith)

-- An entry of the first table is set in its round.
pub init_l1_entry-section :
    (vbar ram_start ram_end text_end e i : ℕ) (g : Registers)
    → vbar % 2 ^ 14 ≡ 0
    → vbar + 0x10000 ≤ 2 ^ 32
    → text_end < 2 ^ 32 - 2 ^ 20
    → e < 4096
    → i < 4096
    → init_l1_entry vbar ram_start ram_end text_end (vbar + 0x4000) 0 i g (vbar + 0x4000 + 4 * e)
      ≡ (if i == e
          then section_value vbar ram_start ram_end text_end e
          else g (vbar + 0x4000 + 4 * e))
unfolding section_value
init_l1_entry-section vbar ram_start ram_end text_end e i g aligned bound high he hi =
    rw (init_l1_entry_lem vbar ram_start ram_end text_end i g aligned bound high hi) (
      ground (
        arith,
        init_l2_table-other ram_start ram_end text_end 0 (vbar + 0xc400) (i * 2 ^ 20)
            (vbar + 0x4000 + 4 * e) (write g (vbar + 0x4000 + 4 * i) (vbar + 0xc400 + 1))
            (omega arith) (omega arith) (λ q hq. omega arith),
      ))

-- The table of the section that the text ends in is set in the round of that section.
pub init_l1_entry-page :
    (vbar ram_start ram_end text_end q i : ℕ) (g : Registers)
    → vbar % 2 ^ 14 ≡ 0
    → vbar + 0x10000 ≤ 2 ^ 32
    → text_end < 2 ^ 32 - 2 ^ 20
    → q < 256
    → i < 4096
    → init_l1_entry vbar ram_start ram_end text_end (vbar + 0x4000) 0 i g (vbar + 0xc400 + 4 * q)
      ≡ (if i == text_end / 2 ^ 20
          then (if text_end % 2 ^ 20 == 0
              then g (vbar + 0xc400 + 4 * q)
              else page_value ram_start ram_end text_end (text_end / 2 ^ 20 * 2 ^ 20 + q * 2 ^ 12))
          else g (vbar + 0xc400 + 4 * q))
init_l1_entry-page vbar ram_start ram_end text_end q i g aligned bound high hq hi =
    rw (init_l1_entry_lem vbar ram_start ram_end text_end i g aligned bound high hi) (
      ground (
        arith,
        init_l2_table-page ram_start ram_end text_end 0 (vbar + 0xc400) (i * 2 ^ 20) q
            (write g (vbar + 0x4000 + 4 * i) (vbar + 0xc400 + 1)) (omega arith) (omega arith)
            (omega arith) hq (omega arith),
      ))

-- The table of the first section stays.
pub init_l1_entry-first :
    (vbar ram_start ram_end text_end q i : ℕ) (g : Registers)
    → vbar % 2 ^ 14 ≡ 0
    → vbar + 0x10000 ≤ 2 ^ 32
    → text_end < 2 ^ 32 - 2 ^ 20
    → q < 256
    → i < 4096
    → init_l1_entry vbar ram_start ram_end text_end (vbar + 0x4000) 0 i g (vbar + 0xc000 + 4 * q)
      ≡ g (vbar + 0xc000 + 4 * q)
init_l1_entry-first vbar ram_start ram_end text_end q i g aligned bound high hq hi =
    rw (init_l1_entry_lem vbar ram_start ram_end text_end i g aligned bound high hi) (
      ground (
        arith,
        init_l2_table-other ram_start ram_end text_end 0 (vbar + 0xc400) (i * 2 ^ 20)
            (vbar + 0xc000 + 4 * q) (write g (vbar + 0x4000 + 4 * i) (vbar + 0xc400 + 1))
            (omega arith) (omega arith) (λ e he. omega arith),
      ))
