-- ===== src/Dma/Start.antt =====
-- NewRegion: which ranges of memory it accepts.
use tamago.Prelude.{
  ℕ, ◌+◌, ◌<◌, ◌^◌, ◌≡◌, ◌↔◌, true, false, ◌&&◌, none, some, arith, ltb, if◌then◌else◌,
}
use tamago.Dma.{init, new_region}

-- Without the unsafe flag, NewRegion refuses a range that is not empty and ends below 2 ^ 64 exactly
-- when it shares a byte with the memory of the Go runtime, which is not empty either; with the flag,
-- and for every range that it accepts, it returns the fresh region.
pub new_region_overlap :
    (start size ram_start ram_end : ℕ)
    → 0 < size
    → start + size < 2 ^ 64
    → ram_start < ram_end
    → ((new_region start size false ram_start ram_end ≡ none)
        ↔ ((start < ram_end) × (ram_start < start + size)))
      × (new_region start size true ram_start ram_end ≡ some (init start size))
      × (new_region start size false ram_start ram_end ≡ (
          if ltb start ram_end && ltb ram_start (start + size)
          then none
          else some (init start size)))
unfolding new_region
new_region_overlap start size ram_start ram_end pos fits ram =
    ((λ e. ground arith, λ h. ground arith), ground arith, ground arith)
