-- ===== src/Arm64/Start.antt =====
-- Init: the tables as a whole, and the map that init makes.
use tamago.Prelude.{
  ℕ, ◌+◌, ◌*◌, ◌/◌, ◌%◌, ◌^◌, ◌<◌, ◌≤◌, ◌≡◌, true, ltb, inl, inr, ◌⊎◌, refl, ◌∙◌, sym, ap, arith,
  some, bit_or,
}
use tamago.Reg.{Registers, write}
use tamago.Arm64.{
  MmuMap, tte_table, init_l3_loop, init_l2_loop, init_l1_loop, init_l3_table, init_l2_table,
  init_l1_table, init_tables,
}
use tamago.Arm64.Walk.{walk1, walk2, walk3, region, flat}
use tamago.Arm64.Entries.{walk1-table, walk2-table, boundaries, boundaries-add}
use tamago.Arm64.Tables.{with_next, from, Sound, Kept, Builds, write_self, write_apart}
use tamago.Prelude.Disjoint.{bit_or_disjoint}
use native.Mathlib.Decide.{dec_lt}
use tamago.Arm64.{init_map}
use tamago.Arm64.Pages.{l3-Builds}
use tamago.Arm64.Blocks.{l2-Builds}
use tamago.Arm64.Gigabytes.{l1-Builds}
use tamago.Arm64.Arena.{later-Sound, boundaries_later}
use tamago.Arm64.Map.{boundaries-le, flat_above, init_map-Sound}

flat_null :
    (m : MmuMap) (g : Registers) (l3 va : ℕ)
    → g (l3 + 8 * 0) ≡ 0
    → va < 4096
    → walk3 g l3 va ≡ flat m va
unfolding flat walk3
flat_null m g l3 va e h =
    let low : ltb va 4096 ≡ true = ground arith in
    let place : va / 2 ^ 12 % 512 ≡ 0 = omega arith in rw (low, place, e) refl

init_tables_lem :
    (m : MmuMap) (g g4 g5 g6 : Registers) (n1 n2 : ℕ)
    → Sound m
    → m.arena_next ≡ m.ram_start + 0x7000
    → m.arena_next ≤ m.arena_end
    → init_l1_loop 511 1 m
        (write
          (write
            (write g (m.ram_start + 0x4000) (m.ram_start + 0x5000 + tte_table))
            (m.ram_start + 0x5000)
            (m.ram_start + 0x6000 + tte_table))
          (m.ram_start + 0x6000)
          0)
        (m.ram_start + 0x4000)
        0
      ≡ some (g4, with_next m n1)
    → init_l2_loop 511 1 (with_next m n1) g4 (m.ram_start + 0x5000) 0 ≡ some (g5, with_next m n2)
    → init_l3_loop 511 1 (with_next m n2) g5 (m.ram_start + 0x6000) 0 ≡ some g6
    → init_tables m g ≡ some (g6, with_next m n2, m.ram_start + 0x4000)
unfolding init_tables init_l1_table init_l2_table init_l3_table
init_tables_lem m g g4 g5 g6 n1 n2 s ha room r1 r2 r3 =
    let p : bit_or (m.ram_start + 0x5000) tte_table ≡ m.ram_start + 0x5000 + tte_table =
      bit_or_disjoint 12 (m.ram_start + 0x5000) tte_table (omega (arith, s.start_page))
        (omega arith) in
    let q : bit_or (m.ram_start + 0x6000) tte_table ≡ m.ram_start + 0x6000 + tte_table =
      bit_or_disjoint 12 (m.ram_start + 0x6000) tte_table (omega (arith, s.start_page))
        (omega arith) in
    rw (p, q, r1, r2, r3) refl

-- The entries that Init writes first.
abbrev to_l2 : Registers → ℕ → ℕ → Registers
to_l2 g l1 l2 = write g l1 (l2 + tte_table)

abbrev to_l3 : Registers → ℕ → ℕ → ℕ → Registers
to_l3 g l1 l2 l3 = write (to_l2 g l1 l2) l2 (l3 + tte_table)

-- The three tables of Init, once their loops have run.
module _ (m : MmuMap) (g g4 g5 g6 : Registers) (n1 n2 l1 l2 l3 : ℕ)
    (el1 : l1 ≡ m.ram_start + 0x4000) (el2 : l2 ≡ m.ram_start + 0x5000)
    (el3 : l3 ≡ m.ram_start + 0x6000) (ha : m.arena_next ≡ m.ram_start + 0x7000)
    (page : m.ram_start % 4096 ≡ 0) (small : m.arena_end ≤ 2 ^ 48) (w1 : m.arena_next ≤ n1)
    (w2 : n1 ≤ n2) (fits : n2 ≤ m.arena_end)
    (b1 : Builds
      (from walk1 l1)
      m
      (write (to_l3 g l1 l2 l3) l3 0)
      (l1 + 8)
      (l1 + 4096)
      (2 ^ 30)
      (2 ^ 39)
      (8192 * boundaries m (2 ^ 30) (2 ^ 39))
      g4
      n1)
    (b2 : Builds
      (from walk2 l2)
      (with_next m n1)
      g4
      (l2 + 8)
      (l2 + 4096)
      (2 ^ 21)
      (2 ^ 30)
      (4096 * boundaries (with_next m n1) (2 ^ 21) (2 ^ 30))
      g5
      n2)
    (b3 : Builds
      (from walk3 l3)
      (with_next m n2)
      g5
      (l3 + 8)
      (l3 + 4096)
      4096
      (2 ^ 21)
      0
      g6
      n2) where
  -- The tables, once set up, are left alone.
  from_l2 : (x : ℕ) → (x < n1) ⊎ (n2 ≤ x) → (x < l2 + 8) ⊎ (l3 + 4096 ≤ x) → g6 x ≡ g4 x
  from_l2 x h p = b3.same x (ground arith) (ground arith) ∙ b2.same x (ground arith) (ground arith)

  untouched : (x : ℕ) → (x < l1) ⊎ (n2 ≤ x) → g6 x ≡ g x
  untouched x h =
      from_l2 x (ground arith) (ground arith)
      ∙ b1.same x (ground arith) (ground arith)
      ∙ write_apart (to_l3 g l1 l2 l3) l3 0 x (ground arith)
      ∙ write_apart (to_l2 g l1 l2) l2 (l3 + tte_table) x (ground arith)
      ∙ write_apart g l1 (l2 + tte_table) x (ground arith)

  first_l1 : g6 l1 ≡ l2 + tte_table
  first_l1 =
      from_l2 l1 (inl (omega arith)) (inl (omega arith))
      ∙ b1.same l1 (inl (omega arith)) (inl (omega arith))
      ∙ write_apart (to_l3 g l1 l2 l3) l3 0 l1 (inl (omega arith))
      ∙ write_apart (to_l2 g l1 l2) l2 (l3 + tte_table) l1 (inl (omega arith))
      ∙ write_self g l1 (l2 + tte_table)

  first_l2 : g6 l2 ≡ l3 + tte_table
  first_l2 =
      from_l2 l2 (inl (omega arith)) (inl (omega arith))
      ∙ b1.same l2 (inl (omega arith)) (inr (omega arith))
      ∙ write_apart (to_l3 g l1 l2 l3) l3 0 l2 (inl (omega arith))
      ∙ write_self (to_l2 g l1 l2) l2 (l3 + tte_table)

  first_l3 : g6 l3 ≡ 0
  first_l3 =
      b3.same l3 (inl (omega arith)) (inl (omega arith))
      ∙ b2.same l3 (inl (omega arith)) (inr (omega arith))
      ∙ b1.same l3 (inl (omega arith)) (inr (omega arith))
      ∙ write_self (to_l3 g l1 l2 l3) l3 0

  above_block : (va : ℕ) → 2 ^ 30 ≤ va → va < 2 ^ 39 → walk1 g6 l1 va ≡ flat m va
  unfolding Kept
  above_block va p h =
      b1.walks g6 (λ x i j. from_l2 x (inl (omega arith)) (inl (omega arith)))
        (λ x i j. from_l2 x (inl (omega arith)) (inr (omega arith))) va p h
      ∙ flat_above m va (omega arith)

  first_block : (va : ℕ) → 2 ^ 21 ≤ va → va < 2 ^ 30 → walk2 g6 l2 va ≡ flat m va
  unfolding Kept flat region
  first_block va p h =
      b2.walks g6 (λ x i j. b3.same x (inl (omega arith)) (inl (omega arith)))
        (λ x i j. b3.same x (inl (omega arith)) (inr (omega arith))) va p h
      ∙ flat_above m va (omega arith)

  first_pages : (va : ℕ) → va < 2 ^ 21 → walk3 g6 l3 va ≡ flat m va
  unfolding Kept flat region
  first_pages va h = elim (dec_lt va 4096) [
    | no p ↦
        b3.walks g6 (λ x i j. refl) (λ x i j. refl) va (omega arith) h
        ∙ flat_above m va (omega arith)
    | yes p ↦ flat_null m g6 l3 va (ap g6 (omega arith) ∙ first_l3) p
  ]

  all_flat : (va : ℕ) → va < 2 ^ 39 → walk1 g6 l1 va ≡ flat m va
  all_flat va h = elim (dec_lt va (2 ^ 30)) [
    | no p ↦ above_block va (omega arith) h
    | yes p ↦
        walk1-table g6 l1 0 0 l2 va (ap g6 (omega arith) ∙ first_l1) (omega arith) (omega arith)
          refl (omega arith) (omega arith) (omega arith)
        ∙ elim (dec_lt va (2 ^ 21)) [
          | no q ↦ first_block va (omega arith) p
          | yes q ↦
              walk2-table g6 l2 0 0 l3 va (ap g6 (omega arith) ∙ first_l2) (omega arith)
                (omega arith) refl (omega arith) (omega arith) (omega arith)
              ∙ first_pages va q
        ]
  ]

init_tables-flat :
    (m : MmuMap) (g : Registers)
    → Sound m
    → m.arena_next ≡ m.ram_start + 0x7000
    → m.arena_next + 0x6000 ≤ m.arena_end
    → (after : Registers) × (next : ℕ) × (init_tables m g
        ≡ some (after, with_next m next, m.ram_start + 0x4000))
      × (next ≤ m.arena_end)
      × ((va : ℕ) → va < 2 ^ 39 → walk1 after (m.ram_start + 0x4000) va ≡ flat m va)
      × ((x : ℕ) → (x < m.ram_start + 0x4000) ⊎ (m.arena_end ≤ x) → after x ≡ g x)
init_tables-flat m g s ha room =
    let l1 = m.ram_start + 0x4000 in
    let l2 = m.ram_start + 0x5000 in
    let l3 = m.ram_start + 0x6000 in
    let g1 = write g l1 (l2 + tte_table) in
    let g2 = write g1 l2 (l3 + tte_table) in
    let g3 = write g2 l3 0 in
    let few : boundaries m (2 ^ 21) (2 ^ 30) + boundaries m (2 ^ 30) (2 ^ 39) ≤ 3 = omega (
      arith,
      boundaries-add m (2 ^ 21) (2 ^ 30) (2 ^ 39) (omega arith) (omega arith),
      boundaries-le m (2 ^ 21) (2 ^ 39),
    ) in
    let (g4, n1, r1, b1) =
      l1-Builds 511 1 m g3 l1 0 (l1 + 8) (l1 + 4096) (2 ^ 30) (2 ^ 39) s refl (omega arith)
        (omega arith) (omega arith) (omega arith) refl refl (omega arith) (omega arith) in
    let m1 = with_next m n1 in
    let u1 : n1 ≤ m.arena_next + 8192 * boundaries m (2 ^ 30) (2 ^ 39) = b1.uses in
    let w1 : m.arena_next ≤ n1 = b1.grows in
    let s1 : Sound m1 = later-Sound m n1 s b1.page in
    let (g5, n2, r2, b2) =
      l2-Builds 511 1 m1 g4 l2 0 (l2 + 8) (l2 + 4096) (2 ^ 21) (2 ^ 30) s1 refl (omega arith)
        (omega arith) (omega arith) (omega arith) refl refl (omega arith)
        (omega (arith, boundaries_later m n1 (2 ^ 21) (2 ^ 30))) in
    let m2 = with_next m n2 in
    let u2 : n2 ≤ n1 + 4096 * boundaries m1 (2 ^ 21) (2 ^ 30) = b2.uses in
    let w2 : n1 ≤ n2 = b2.grows in
    let s2 : Sound m2 = later-Sound m n2 s b2.page in
    let (g6, r3, b3) =
      l3-Builds 511 1 m2 g5 l3 0 (l3 + 8) (l3 + 4096) 4096 (2 ^ 21) s2 refl (omega arith)
        (omega arith) (omega arith) (omega arith) refl refl (omega arith) in
    let fits : n2 ≤ m.arena_end =
      omega (arith, u1, u2, few, boundaries_later m n1 (2 ^ 21) (2 ^ 30)) in
    (
      g6,
      n2,
      init_tables_lem m g g4 g5 g6 n1 n2 s ha (omega arith) r1 r2 r3,
      fits,
      all_flat m g g4 g5 g6 n1 n2 l1 l2 l3 refl refl refl ha s.start_page s.arena_room w1 w2 fits b1
          b2 b3,
      (λ x h.
          untouched m g g4 g5 g6 n1 n2 l1 l2 l3 refl refl refl ha s.start_page s.arena_room w1 w2
            fits b1 b2 b3 x (ground arith)),
    )

-- When `init` accepts a memory below 2^48, with a text below it that ends after it starts, and six pages
-- are free below the text, Init returns: the walker translates each of the 2^39 addresses to itself,
-- executable and normal memory from the start of memory to the end of the text (rounded up to a page),
-- normal and never executable from there to the end of memory, a device that is never executable
-- elsewhere, but for a fault in the first page; and no address is written below the tables, nor from the
-- text on.
pub init-flat :
    (rs re ts te : ℕ) (m : MmuMap) (g : Registers)
    → init_map rs re ts te ≡ some m
    → re ≤ 2 ^ 48
    → ts ≤ te
    → te ≤ 2 ^ 48
    → m.arena_next + 0x6000 ≤ m.arena_end
    → (after : Registers) × (next : ℕ) × (init_tables m g
        ≡ some (after, with_next m next, rs + 0x4000))
      × (next ≤ m.arena_end)
      × ((va : ℕ) → va < 2 ^ 39 → walk1 after (rs + 0x4000) va ≡ flat m va)
      × ((x : ℕ) → (x < rs + 0x4000) ⊎ (m.arena_end ≤ x) → after x ≡ g x)
init-flat rs re ts te m g h br o bt room =
    let (s, start, next) = init_map-Sound rs re ts te m h br o bt in
    rw (sym start) (init_tables-flat m g s (rw start next) room)
