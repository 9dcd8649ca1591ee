-- ===== src/Arm64/Blocks.antt =====
-- initL2Table and initL1Table: tables of blocks, with a table below for a block that a boundary crosses.
use tamago.Prelude.{
  ℕ, zero, suc, ◌+◌, ◌*◌, ◌%◌, ◌^◌, ◌<◌, ◌≤◌, ◌≡◌, true, inl, inr, Bool-cases, refl, ◌∙◌, sym, ap,
  arith, some, bit_or,
}
use tamago.Reg.{Registers, write}
use tamago.Arm64.{
  MmuMap, classify_block, is_split, tte_table, init_l2_entry, init_l3_loop, init_l2_loop,
  init_l3_table,
}
use tamago.Arm64.Walk.{walk2, walk3}
use tamago.Arm64.Entries.{
  attributes, write_mapping_lem, walk2-entry, walk2-table, boundaries, boundaries-add,
  classify-split,
}
use tamago.Arm64.Tables.{
  with_next, from, Sound, Builds, none-Builds, entry-Builds, table-Builds, append-Builds,
  within-Builds,
}
use tamago.Prelude.Disjoint.{bit_or_disjoint}
use tamago.Arm64.Pages.{l3-Builds, translated-block}
use tamago.Arm64.Arena.{alloc_free, later-Sound, boundaries_later, taken-Sound}

l2_entry_split :
    (m : MmuMap) (g after : Registers) (lo a : ℕ)
    → Sound m
    → is_split (classify_block m a (a + 2 ^ 21)) ≡ true
    → m.arena_next + 4096 ≤ m.arena_end
    → init_l3_loop 512 0
        (with_next m (m.arena_next + 4096))
        (write g lo (m.arena_next + tte_table))
        m.arena_next
        a
      ≡ some after
    → init_l2_entry m g lo a ≡ some (after, with_next m (m.arena_next + 4096))
unfolding init_l2_entry init_l3_table
l2_entry_split m g after lo a s split room below =
    let points : bit_or m.arena_next tte_table ≡ m.arena_next + tte_table =
      bit_or_disjoint 12 m.arena_next tte_table s.arena_page (omega arith) in
    rw (split, alloc_free m room s.arena_room, points, below) refl

-- One entry of a table of level 2.
l2_entry-Builds :
    (m : MmuMap) (g : Registers) (base section i lo a : ℕ)
    → Sound m
    → section % 2 ^ 30 ≡ 0
    → section + 2 ^ 30 ≤ 2 ^ 48
    → i < 512
    → lo ≡ base + 8 * i
    → a ≡ section + i * 2 ^ 21
    → lo + 8 ≤ m.arena_next
    → m.arena_next + 4096 * boundaries m a (a + 2 ^ 21) ≤ m.arena_end
    → (after : Registers) × (next : ℕ) × (init_l2_entry m g lo a ≡ some (after, with_next m next))
      × Builds
          (from walk2 base)
          m
          g
          lo
          (lo + 8)
          a
          (a + 2 ^ 21)
          (4096 * boundaries m a (a + 2 ^ 21))
          after
          next
unfolding init_l2_entry
l2_entry-Builds m g base section i lo a s hs hb hi el ea hn room =
    elim (Bool-cases (is_split (classify_block m a (a + 2 ^ 21)))) [
      | inl split ↦
          let some_inside : 1 ≤ boundaries m a (a + 2 ^ 21) =
            classify-split m a (a + 2 ^ 21) (omega arith) split in
          let m' = with_next m (m.arena_next + 4096) in
          let s' : Sound m' = taken-Sound m s in
          let (after, returns, below) =
            l3-Builds 512 0 m' (write g lo (m.arena_next + tte_table)) m.arena_next a m.arena_next
              (m.arena_next + 4096) a (a + 2 ^ 21) s' (omega arith) (omega arith) (omega arith)
              (omega arith) (omega arith) (omega arith) (omega arith) (omega arith) in
          (
            after,
            m.arena_next + 4096,
            l2_entry_split m g after lo a s split (omega arith) returns,
            within-Builds (from walk2 base) m g lo (lo + 8) a (a + 2 ^ 21) (4096 + 0)
                (4096 * boundaries m a (a + 2 ^ 21)) after (m.arena_next + 4096) (omega arith)
                (table-Builds (from walk2 base) (from walk3 m.arena_next) m g lo a (a + 2 ^ 21) 0
                  after (m.arena_next + 4096) hn
                  (λ g' q va c d.
                    walk2-table g' base section i m.arena_next va (rw el at q) s.arena_page
                      (omega (arith, s.arena_room)) hs hi (omega arith) (omega arith))
                  below),
          )
      | inr whole ↦
          let v = a + (1 + attributes (classify_block m a (a + 2 ^ 21))) in
          (
            write g lo v,
            m.arena_next,
            rw
                (
                  whole,
                  write_mapping_lem g lo a 1 (classify_block m a (a + 2 ^ 21)) whole (omega arith)
                      (omega arith) (omega arith),
                )
                refl,
            within-Builds (from walk2 base) m g lo (lo + 8) a (a + 2 ^ 21) 0
                (4096 * boundaries m a (a + 2 ^ 21)) (write g lo v) m.arena_next (omega arith)
                (entry-Builds (from walk2 base) m g lo a (a + 2 ^ 21) v s (λ g' q va c d.
                  walk2-entry g' base section i va (classify_block m a (a + 2 ^ 21)) whole
                    (ap g' (sym el) ∙ q ∙ omega arith) hs hb hi (omega arith) (omega arith)
                  ∙ translated-block m a (a + 2 ^ 21) va s whole c d)),
          )
    ]

-- The loop of a table of level 2, from entry `i` on.
pub l2-Builds :
    (k i : ℕ) (m : MmuMap) (g : Registers) (base section lo hi a e : ℕ)
    → Sound m
    → section % 2 ^ 30 ≡ 0
    → section + 2 ^ 30 ≤ 2 ^ 48
    → i + k ≤ 512
    → lo ≡ base + 8 * i
    → hi ≡ lo + 8 * k
    → a ≡ section + i * 2 ^ 21
    → e ≡ a + k * 2 ^ 21
    → hi ≤ m.arena_next
    → m.arena_next + 4096 * boundaries m a e ≤ m.arena_end
    → (after : Registers) × (next : ℕ) × (init_l2_loop k i m g base section
        ≡ some (after, with_next m next))
      × Builds (from walk2 base) m g lo hi a e (4096 * boundaries m a e) after next
unfolding init_l2_loop
l2-Builds zero i m g base section lo hi a e s hs hb hi' el eh ea ee hn room = (
  g,
  m.arena_next,
  refl,
  within-Builds (from walk2 base) m g lo hi a e 0 (4096 * boundaries m a e) g m.arena_next
      (omega arith) (none-Builds (from walk2 base) m g lo hi a e s (omega arith)),
)
l2-Builds (suc k) i m g base section lo hi a e s hs hb hi' el eh ea ee hn room =
    let b = a + 2 ^ 21 in
    let sum : boundaries m a b + boundaries m b e ≤ boundaries m a e =
      boundaries-add m a b e (omega arith) (omega arith) in
    let (middle, taken, first_returns, first) =
      l2_entry-Builds m g base section i lo a s hs hb (omega arith) el ea (omega arith)
        (omega arith) in
    let u : taken ≤ m.arena_next + 4096 * boundaries m a b = first.uses in
    let v : m.arena_next ≤ taken = first.grows in
    let s' : Sound (with_next m taken) = later-Sound m taken s first.page in
    let (after, next, returns, rest) =
      l2-Builds k (i + 1) (with_next m taken) middle base section (lo + 8) hi b e s' hs hb
        (omega arith) (omega arith) (omega arith) (omega arith) (omega arith) (omega arith)
        (omega (arith, boundaries_later m taken b e)) in
    (
      after,
      next,
      rw (sym el, sym ea, first_returns) returns,
      within-Builds (from walk2 base) m g lo hi a e
          (4096 * boundaries m a b + 4096 * boundaries m b e) (4096 * boundaries m a e) after next
          (omega arith)
          (append-Builds (from walk2 base) m g lo (lo + 8) hi a b e (4096 * boundaries m a b)
            (4096 * boundaries m b e) middle after taken next (omega arith) (omega arith) hn first
            (within-Builds (from walk2 base) (with_next m taken) middle (lo + 8) hi b e
              (4096 * boundaries (with_next m taken) b e) (4096 * boundaries m b e) after next
              (omega (arith, boundaries_later m taken b e)) rest)),
    )
