-- ===== src/Arm64/Pages.antt =====
-- initL3Table: a table of pages.
use tamago.Prelude.{
  ℕ, zero, suc, ◌+◌, ◌*◌, ◌%◌, ◌^◌, ◌<◌, ◌≤◌, ◌≡◌, false, refl, ◌∙◌, sym, ap, arith, some, add64,
}
use tamago.Reg.{Registers, write}
use tamago.Arm64.{MmuMap, classify_block, classify_page, is_split, init_l3_loop}
use tamago.Arm64.Walk.{walk3, region, translated}
use tamago.Arm64.Entries.{
  attributes, write_mapping_lem, walk3-entry, classify-page, classify-region,
}
use tamago.Arm64.Tables.{from, Sound, Builds, none-Builds, entry-Builds, append-Builds}

classify_page_lem :
    (m : MmuMap) (addr : ℕ)
    → Sound m
    → addr % 4096 ≡ 0
    → addr + 4096 ≤ 2 ^ 48
    → classify_page m addr ≡ some (classify_block m addr (addr + 4096))
unfolding classify_page
classify_page_lem m addr s h b =
    let small : add64 addr 4096 ≡ addr + 4096 = ground arith in
    rw (small, classify-page m addr s.start_page s.text_page s.end_page h) refl

-- A block that is not split, translated.
pub translated-block :
    (m : MmuMap) (a e va : ℕ)
    → Sound m
    → is_split (classify_block m a e) ≡ false
    → a ≤ va
    → va < e
    → translated (classify_block m a e) va ≡ translated (region m va) va
translated-block m a e va s h p q =
    ap (λ act. translated act va) (classify-region m a e va s.start_text s.text_end h p q)

-- The loop from entry `i` on.
pub l3-Builds :
    (k i : ℕ) (m : MmuMap) (g : Registers) (base section lo hi a e : ℕ)
    → Sound m
    → section % 2 ^ 21 ≡ 0
    → section + 2 ^ 21 ≤ 2 ^ 48
    → i + k ≤ 512
    → lo ≡ base + 8 * i
    → hi ≡ lo + 8 * k
    → a ≡ section + i * 2 ^ 12
    → e ≡ a + k * 2 ^ 12
    → hi ≤ m.arena_next
    → (after : Registers) × (init_l3_loop k i m g base section ≡ some after)
      × Builds (from walk3 base) m g lo hi a e 0 after m.arena_next
unfolding init_l3_loop
l3-Builds zero i m g base section lo hi a e s hs hb hi' el eh ea ee hn =
    (g, refl, none-Builds (from walk3 base) m g lo hi a e s (omega arith))
l3-Builds (suc k) i m g base section lo hi a e s hs hb hi' el eh ea ee hn =
    let addr = section + i * 2 ^ 12 in
    let action = classify_block m addr (addr + 4096) in
    let whole : is_split action ≡ false =
      classify-page m addr s.start_page s.text_page s.end_page (omega arith) in
    let v = addr + (3 + attributes action) in
    let one : Builds (from walk3 base) m g lo (lo + 8) a (a + 4096) 0 (write g lo v) m.arena_next =
      entry-Builds (from walk3 base) m g lo a (a + 4096) v s (λ g' q va c d.
        walk3-entry g' base section i va action whole (rw el at q) (omega arith) (omega arith)
          (omega arith) (omega arith) (omega arith)
        ∙ translated-block m addr (addr + 4096) va s whole (omega arith) (omega arith)) in
    let (after, returns, rest) =
      l3-Builds k (i + 1) m (write g lo v) base section (lo + 8) hi (a + 4096) e s hs hb
        (omega arith) (omega arith) (omega arith) (omega arith) (omega arith) hn in
    (
      after,
      rw
          (
            classify_page_lem m addr s (omega arith) (omega arith),
            write_mapping_lem g (base + 8 * i) addr 3 action whole (omega arith) (omega arith)
                (omega arith),
            sym el,
          )
          returns,
      append-Builds (from walk3 base) m g lo (lo + 8) hi a (a + 4096) e 0 0 (write g lo v) after
          m.arena_next m.arena_next (omega arith) (omega arith) hn one rest,
    )
