-- ===== src/Arm/Tests.antt =====
-- Runs of arm/mmu.go, and the theorems at a concrete map.
use tamago.Prelude.{ℕ, ◌+◌, ◌*◌, ◌<◌, ◌≤◌, ◌≢◌, ◌≡◌, arith, true, refl, some}
use tamago.Reg.{Registers, set_n}
use tamago.Arm.{
  init_mmu, init_l1_entry, init_l2_entry, configure_mmu, set_attribute, set_attributes,
  set_access_permissions,
}
use tamago.Arm.Walk.{walk, walk_section}
use tamago.Arm.Start.{init_mmu-flat}
use tamago.Arm.Sections.{configure_mmu-sections, update_mmu_lem}

abbrev sections : Registers
sections = λ _. 0x40e

init_l1_entry_text :
    init_l1_entry 0x80000000 0x80000000 0xa0000000 0x80200800 0x80004000 0 0x801 sections 0x80006004
    ≡ 0x8010040e
unfolding init_l1_entry
init_l1_entry_text = refl

init_l2_entry_never : init_l2_entry 0 0x1000000 0x1000 0xc000 0 2 sections 0xc008 ≡ 0x201e
unfolding init_l2_entry
init_l2_entry_never = refl

-- SetAttribute of bit 4 to 1: bit 4 stays clear, and bit 2 is cleared.
set_attribute_four : set_attribute 0 0 0x100000 4 1 sections 0x4000 ≡ 0x40a
unfolding set_attribute set_n
set_attribute_four =
    update_mmu_lem 0 0 0x100000 0 4 16 0 sections (omega arith) (omega arith) (omega arith)

set_attributes_never : set_attributes 0 0 0x100000 0x12 sections 0x4000 ≡ 0x412
unfolding set_attributes set_n
set_attributes_never =
    update_mmu_lem 0 0 0x100000 0 0xc001f 0x12 0 sections (omega arith) (omega arith) (omega arith)

set_access_permissions_user : set_access_permissions 0 0 0x100000 3 1 sections 0x4000 ≡ 0xc2e
unfolding set_access_permissions set_n
set_access_permissions_user =
    update_mmu_lem 0 0 0x100000 5 0b1101111 0x61 0 sections (omega arith) (omega arith)
      (omega arith)

init_mmu-flat_example :
    walk (init_mmu 0x80000000 0x80000000 0xa0000000 0x80200800 sections) 0x80004000 0x80212345
    ≡ some (0x80212345, true)
init_mmu-flat_example =
    init_mmu-flat 0x80000000 0x80000000 0xa0000000 0x80200800 0x80212345 sections refl (omega arith)
      (omega arith) (omega arith)

configure_mmu-sections_example :
    (walk_section
        (configure_mmu 0x80000000 0x90000000 0x90400000 0x100000 0x40e sections)
        0x80004000
        0x90200004
      ≡ some (0x300004, 0x40e))
    × ((j : ℕ)
        → ((e : ℕ) → 0x900 ≤ e → e < 0x904 → j ≢ 0x80004000 + 4 * e)
        → configure_mmu 0x80000000 0x90000000 0x90400000 0x100000 0x40e sections j ≡ sections j)
configure_mmu-sections_example =
    configure_mmu-sections 0x80000000 0x90000000 0x90400000 0x100000 0x40e 0x90200004 sections
      (omega arith) (omega arith) (omega arith) (omega arith) (omega arith) refl
