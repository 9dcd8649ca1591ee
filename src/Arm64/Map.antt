-- ===== src/Arm64/Map.antt =====
-- The map that init makes (arm64/mmu.go).
use tamago.Prelude.{
  ℕ, ◌+◌, ◌-◌, ◌%◌, ◌^◌, ◌<◌, ◌≤◌, ◌≡◌, false, ◌&&◌, ◌||◌, bit_and, ltb, ◌==◌, refl, sym, arith,
  some, add64, ◌>>◌, guard, guard-passes, not,
}
use tamago.Arm64.{MmuMap}
use tamago.Arm64.Walk.{region, translated, flat}
use tamago.Arm64.Entries.{boundaries}
use tamago.Arm64.Tables.{Sound}
use tamago.Prelude.Disjoint.{bit_and_complement}
use tamago.Prelude.Align.{bit_and_low_mask}
use native.Mathlib.Nat.{pow-le-pow_right}
use tamago.Prelude.Shifts.{pow_pos}
use tamago.Arm64.{align_down, align_up, init_map, page_table_size}

-- An alignment by a power of two takes the remainder away.
pub align_down_lem : (k x : ℕ) → k ≤ 64 → x < 2 ^ 64 → align_down x (2 ^ k) ≡ x - x % 2 ^ k
unfolding align_down
align_down_lem k x hk hx =
    let p : 0 < 2 ^ k = pow_pos k in
    let q : 2 ^ k ≤ 2 ^ 64 = pow-le-pow_right {n = 2} (omega arith) {i = k} {j = 64} hk in
    omega (arith, bit_and_complement 64 x (2 ^ k - 1) hx (omega arith), bit_and_low_mask k x)

pub boundaries-le : (m : MmuMap) (a e : ℕ) → boundaries m a e ≤ 3
unfolding boundaries
boundaries-le m a e = ground arith

pub flat_above : (m : MmuMap) (va : ℕ) → 4096 ≤ va → translated (region m va) va ≡ flat m va
unfolding flat
flat_above m va h = let e : ltb va 4096 ≡ false = ground arith in rw e refl

-- What `init` returns.
pub init_map-Sound :
    (rs re ts te : ℕ) (m : MmuMap)
    → init_map rs re ts te ≡ some m
    → re ≤ 2 ^ 48
    → ts ≤ te
    → te ≤ 2 ^ 48
    → Sound m × (m.ram_start ≡ rs) × (m.arena_next ≡ rs + 0x7000)
unfolding init_map align_up
init_map-Sound rs re ts te m h br o bt =
    let ts' = align_down ts page_table_size in
    let te' = align_up te page_table_size in
    let an = add64 rs 0x7000 in
    let built : MmuMap = record {
      ram_start = rs;
      ram_end = re;
      text_start = ts';
      text_end = te';
      arena_next = an;
      arena_end = ts';
    } in
    let (pages, h1) =
      guard-passes (bit_and rs (page_table_size - 1) == 0 && bit_and re (page_table_size - 1) == 0)
        (guard (not (ltb ts' rs || ltb re te')) >> (guard (ltb an ts') >> some built)) m h in
    let (inside, h2) =
      guard-passes (not (ltb ts' rs || ltb re te')) (guard (ltb an ts') >> some built) m h1 in
    let (room, h3) = guard-passes (ltb an ts') (some built) m h2 in
    let eq : built ≡ m = cc in
    let et : ts' ≡ ts - ts % 4096 = align_down_lem 12 ts (omega arith) (omega arith) in
    let sum : add64 te 4095 ≡ te + 4095 = ground arith in
    let ee : te' ≡ te + 4095 - (te + 4095) % 4096 =
      rw sum (align_down_lem 12 (te + 4095) (omega arith) (omega arith)) in
    let start : rs % 4096 ≡ 0 = ground (arith, bit_and_low_mask 12 rs) in
    let finish : re % 4096 ≡ 0 = ground (arith, bit_and_low_mask 12 re) in
    let below : rs ≤ ts' = ground arith in
    let within : te' ≤ re = ground arith in
    let next : an ≡ rs + 0x7000 = ground arith in
    rw (sym eq) (
      record {
        start_page = start;
        text_page = omega arith;
        end_page = finish;
        start_text = omega arith;
        text_end = within;
        arena_page = omega arith;
        arena_room = omega arith;
      },
      refl,
      next,
    )
