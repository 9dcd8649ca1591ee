-- ===== src/Arm/Flat.antt =====
-- InitMMU (arm/mmu.go): the entries of its three tables, and the flat map that they make.
use tamago.Prelude.{
  ℕ, ◌+◌, ◌-◌, ◌*◌, ◌/◌, ◌%◌, ◌^◌, ◌<◌, ◌≤◌, ◌≡◌, ◌==◌, leb, if◌then◌else◌, arith, bit_or, false,
  refl, ◌∙◌,
}
use tamago.Prelude.Disjoint.{bit_or_disjoint}
use tamago.Reg.{Registers, write}
use tamago.Arm.{add32, init_l1_entry, init_l1_table, init_l2_table, init_mmu}
use tamago.Arm.Sweep.{for_each-once, for_each-kept}
use tamago.Arm.Pages.{page_value, init_l2_table-page, init_l2_table-other}
use tamago.Arm.Rounds.{
  section_value, init_l1_entry-section, init_l1_entry-page, init_l1_entry-first,
}

module _ (vbar ram_start ram_end text_end : ℕ) (aligned : vbar % 2 ^ 14 ≡ 0)
    (bound : vbar + 0x10000 ≤ 2 ^ 32) (high : text_end < 2 ^ 32 - 2 ^ 20) where
  l1_section :
      (e : ℕ) (g : Registers)
      → e < 4096
      → init_l1_table vbar ram_start ram_end text_end 1 (vbar + 0x4000) 0 g (vbar + 0x4000 + 4 * e)
        ≡ (if leb 1 e
            then section_value vbar ram_start ram_end text_end e
            else g (vbar + 0x4000 + 4 * e))
  unfolding init_l1_table
  l1_section e g he = ground (
    arith,
    for_each-once (init_l1_entry vbar ram_start ram_end text_end (vbar + 0x4000) 0) 4096 e
        (vbar + 0x4000 + 4 * e) (λ _. section_value vbar ram_start ram_end text_end e)
        (λ i g' hi.
          init_l1_entry-section vbar ram_start ram_end text_end e i g' aligned bound high he hi)
        4095 1 g (omega arith),
  )

  l1_page :
      (q : ℕ) (g : Registers)
      → q < 256
      → 0 < text_end / 2 ^ 20
      → text_end % 2 ^ 20 == 0 ≡ false
      → init_l1_table vbar ram_start ram_end text_end 1 (vbar + 0x4000) 0 g (vbar + 0xc400 + 4 * q)
        ≡ page_value ram_start ram_end text_end (text_end / 2 ^ 20 * 2 ^ 20 + q * 2 ^ 12)
  unfolding init_l1_table
  l1_page q g hq low inside =
      let value = page_value ram_start ram_end text_end (text_end / 2 ^ 20 * 2 ^ 20 + q * 2 ^ 12) in
      ground (
        arith,
        inside,
        for_each-once (init_l1_entry vbar ram_start ram_end text_end (vbar + 0x4000) 0) 4096
            (text_end / 2 ^ 20) (vbar + 0xc400 + 4 * q)
            (λ old. if text_end % 2 ^ 20 == 0 then old else value)
            (λ i g' hi.
              init_l1_entry-page vbar ram_start ram_end text_end q i g' aligned bound high hq hi)
            4095 1 g (omega arith),
      )

  l1_first :
      (q : ℕ) (g : Registers)
      → q < 256
      → init_l1_table vbar ram_start ram_end text_end 1 (vbar + 0x4000) 0 g (vbar + 0xc000 + 4 * q)
        ≡ g (vbar + 0xc000 + 4 * q)
  unfolding init_l1_table
  l1_first q g hq =
      for_each-kept (init_l1_entry vbar ram_start ram_end text_end (vbar + 0x4000) 0) 4096
        (vbar + 0xc000 + 4 * q)
        (λ i g' hi.
          init_l1_entry-first vbar ram_start ram_end text_end q i g' aligned bound high hq hi)
        4095 1 g (omega arith)

  -- InitMMU with its bases computed.
  init_mmu_lem :
      (g : Registers)
      → init_mmu vbar ram_start ram_end text_end g
        ≡ init_l2_table ram_start ram_end text_end 1 (vbar + 0xc000) 0 (
            init_l1_table vbar ram_start ram_end text_end 1
              (vbar + 0x4000)
              0
              (write (write g (vbar + 0x4000) (vbar + 0xc000 + 1)) (vbar + 0xc000) 0))
  unfolding init_mmu
  init_mmu_lem g =
      let l1 : add32 vbar 0x4000 ≡ vbar + 0x4000 = omega arith in
      let l2 : add32 vbar 0xc000 ≡ vbar + 0xc000 = omega arith in
      let table : bit_or (vbar + 0xc000) 1 ≡ vbar + 0xc000 + 1 =
        bit_or_disjoint 10 (vbar + 0xc000) 1 (omega arith) (omega arith) in
      rw (l1, l2, table) refl

  -- The first table.
  pub init_mmu-section :
      (g : Registers) (e : ℕ)
      → e < 4096
      → init_mmu vbar ram_start ram_end text_end g (vbar + 0x4000 + 4 * e)
        ≡ (if e == 0 then vbar + 0xc000 + 1 else section_value vbar ram_start ram_end text_end e)
  init_mmu-section g e he =
      let g2 = write (write g (vbar + 0x4000) (vbar + 0xc000 + 1)) (vbar + 0xc000) 0 in
      let g3 = init_l1_table vbar ram_start ram_end text_end 1 (vbar + 0x4000) 0 g2 in
      rw (init_mmu_lem g) (
        init_l2_table-other ram_start ram_end text_end 1 (vbar + 0xc000) 0 (vbar + 0x4000 + 4 * e)
          g3 (omega arith) (omega arith) (λ q hq. omega arith)
        ∙ ground (arith, l1_section e g2 he))

  -- The table of the first section.
  pub init_mmu-first_page :
      (g : Registers) (q : ℕ)
      → q < 256
      → init_mmu vbar ram_start ram_end text_end g (vbar + 0xc000 + 4 * q)
        ≡ (if q == 0 then 0 else page_value ram_start ram_end text_end (q * 2 ^ 12))
  init_mmu-first_page g q hq =
      let g2 = write (write g (vbar + 0x4000) (vbar + 0xc000 + 1)) (vbar + 0xc000) 0 in
      let g3 = init_l1_table vbar ram_start ram_end text_end 1 (vbar + 0x4000) 0 g2 in
      rw (init_mmu_lem g) (
        init_l2_table-page ram_start ram_end text_end 1 (vbar + 0xc000) 0 q g3 (omega arith) refl
          (omega arith) hq (omega arith)
        ∙ ground (arith, l1_first q g2 hq))

  -- The table of the section that the text ends in.
  pub init_mmu-page :
      (g : Registers) (q : ℕ)
      → q < 256
      → 0 < text_end / 2 ^ 20
      → text_end % 2 ^ 20 == 0 ≡ false
      → init_mmu vbar ram_start ram_end text_end g (vbar + 0xc400 + 4 * q)
        ≡ page_value ram_start ram_end text_end (text_end / 2 ^ 20 * 2 ^ 20 + q * 2 ^ 12)
  init_mmu-page g q hq low inside =
      let g2 = write (write g (vbar + 0x4000) (vbar + 0xc000 + 1)) (vbar + 0xc000) 0 in
      let g3 = init_l1_table vbar ram_start ram_end text_end 1 (vbar + 0x4000) 0 g2 in
      rw (init_mmu_lem g) (
        init_l2_table-other ram_start ram_end text_end 1 (vbar + 0xc000) 0 (vbar + 0xc400 + 4 * q)
          g3 (omega arith) (omega arith) (λ e he. omega arith)
        ∙ l1_page q g2 hq low inside)
