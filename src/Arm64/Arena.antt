-- ===== src/Arm64/Arena.antt =====
-- Pages of the arena (alloc in arm64/mmu.go), and what taking them leaves.
use tamago.Prelude.{ℕ, ◌+◌, ◌%◌, ◌^◌, ◌≤◌, ◌≡◌, true, leb, refl, arith, some, add64}
use tamago.Arm64.{MmuMap, alloc}
use tamago.Arm64.Entries.{boundaries}
use tamago.Arm64.Tables.{with_next, Sound}

-- A page that is there.
pub alloc_free :
    (m : MmuMap)
    → m.arena_next + 4096 ≤ m.arena_end
    → m.arena_end ≤ 2 ^ 48
    → alloc m ≡ some (m.arena_next, with_next m (m.arena_next + 4096))
unfolding alloc
alloc_free m h bound =
    let small : add64 m.arena_next 4096 ≡ m.arena_next + 4096 = ground arith in
    let fits : leb (m.arena_next + 4096) m.arena_end ≡ true = ground arith in rw (small, fits) refl

-- Pages of the arena may be taken.
pub later-Sound : (m : MmuMap) (n : ℕ) → Sound m → n % 4096 ≡ 0 → Sound (with_next m n)
later-Sound m n s h = record {
  start_page = s.start_page;
  text_page = s.text_page;
  end_page = s.end_page;
  start_text = s.start_text;
  text_end = s.text_end;
  arena_page = h;
  arena_room = s.arena_room;
}

pub boundaries_later : (m : MmuMap) (n a e : ℕ) → boundaries (with_next m n) a e ≡ boundaries m a e
unfolding boundaries
boundaries_later m n a e = refl

pub taken-Sound : (m : MmuMap) → Sound m → Sound (with_next m (m.arena_next + 4096))
taken-Sound m s = later-Sound m (m.arena_next + 4096) s (omega (arith, s.arena_page))
