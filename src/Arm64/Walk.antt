-- ===== src/Arm64/Walk.antt =====
-- What the processor makes of the tables of arm64/mmu.go: a walk with a 4 KB granule from level 1
-- on, for 39 bits of virtual address, and the translation that the comment of Init promises.
use tamago.Prelude.{ℕ, ◌+◌, ◌*◌, ◌/◌, ◌%◌, ◌^◌, ◌&&◌, ltb, leb, ◌==◌, if◌then◌else◌}
use tamago.Reg.{Registers}
use tamago.Arm64.{
  MmuMap, MappingAction, mapping_device, mapping_memory_exec, mapping_memory_xn, mapping_split,
}

-- A fault, or the physical address, the attribute index and the execute-never bits.
pub data Translation : Type 0 where
  fault : Translation
  mapped : ℕ → ℕ → ℕ → Translation

-- An entry that maps `size` bytes: the access flag, the output address in bits 12 to 47, the attribute
-- index in bits 2 to 4, execute-never in bits 53 and 54.
unfoldable pub leaf : ℕ → ℕ → ℕ → Translation
leaf size e va =
    if e / 2 ^ 10 % 2 == 0
    then fault
    else mapped (e % 2 ^ 48 / size * size + va % size) (e / 2 ^ 2 % 8) (e / 2 ^ 53 % 4)

-- The table that a descriptor points to.
abbrev pub next_table : ℕ → ℕ
next_table e = e % 2 ^ 48 / 2 ^ 12 * 2 ^ 12

unfoldable pub walk3 : Registers → ℕ → ℕ → Translation
unfolding leaf
walk3 g base va =
    let e = g (base + 8 * (va / 2 ^ 12 % 512)) in if e % 4 == 3 then leaf (2 ^ 12) e va else fault

unfoldable pub walk2 : Registers → ℕ → ℕ → Translation
unfolding walk3 leaf
walk2 g base va =
    let e = g (base + 8 * (va / 2 ^ 21 % 512)) in
    if e % 4 == 3
    then walk3 g (next_table e) va
    else if e % 4 == 1
    then leaf (2 ^ 21) e va
    else fault

unfoldable pub walk1 : Registers → ℕ → ℕ → Translation
unfolding walk2 leaf
walk1 g base va =
    let e = g (base + 8 * (va / 2 ^ 30 % 512)) in
    if e % 4 == 3
    then walk2 g (next_table e) va
    else if e % 4 == 1
    then leaf (2 ^ 30) e va
    else fault

-- Memory of the map at one address.
unfoldable pub region : MmuMap → ℕ → MappingAction
region m va =
    if leb m.ram_start va && ltb va m.text_end
    then mapping_memory_exec
    else if leb m.text_end va && ltb va m.ram_end
    then mapping_memory_xn
    else mapping_device

unfoldable pub translated : MappingAction → ℕ → Translation
translated mapping_device va = mapped va 0 3
translated mapping_memory_exec va = mapped va 1 0
translated mapping_memory_xn va = mapped va 1 3
translated mapping_split va = fault

-- Addresses are mapped to themselves, but for the first page.
unfoldable pub flat : MmuMap → ℕ → Translation
unfolding region translated
flat m va = if ltb va 4096 then fault else translated (region m va) va
