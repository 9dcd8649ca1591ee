-- ===== src/Rng/Tests.antt =====
-- Fill on a concrete buffer (internal/rng).
use tamago.Prelude.{
  ℕ, ◌+◌, ◌-◌, ◌/◌, ◌%◌, ◌^◌, ◌≡◌, refl, ◌&&◌, min, some, List, [], ◌∷◌, length, get_elem?, ltb,
  leb, if◌then◌else◌,
}
use tamago.Rng.{fill_loop, fill}
use tamago.Rng.Laws.{fill-bytes}

abbrev six : List ℕ
six = 0 ∷ 0 ∷ 0 ∷ 0 ∷ 0 ∷ 0 ∷ []

fill_runs : fill six 1 0x11223344 ≡ (0 ∷ 0x44 ∷ 0x33 ∷ 0x22 ∷ 0x11 ∷ 0 ∷ [], 5)
unfolding fill fill_loop
fill_runs = refl

-- The last word of a buffer is cut short.
fill_end : fill six 4 0x11223344 ≡ (0 ∷ 0 ∷ 0 ∷ 0 ∷ 0x44 ∷ 0x33 ∷ [], 6)
unfolding fill fill_loop
fill_end = refl

fill-bytes_example :
    (get_elem? (fill six 4 0x11223344).0 5 ≡ (
      if leb 4 5 && (ltb 5 (length six) && ltb 5 (4 + 4))
      then some (0x11223344 / 256 ^ (5 - 4) % 256)
      else get_elem? six 5))
    × ((fill six 4 0x11223344).1 ≡ (if ltb 4 (length six) then min (4 + 4) (length six) else 4))
    × (length (fill six 4 0x11223344).0 ≡ length six)
fill-bytes_example = fill-bytes six 4 0x11223344 5
