-- ===== src/Dma/Memory/Buffers.antt =====
-- Alloc: it takes a block as Reserve does, and fills it with the buffer.
use tamago.Prelude.{
  ℕ, ◌<◌, ◌^◌, ◌≡◌, refl, ◌∙◌, length, ◌==◌, false, inl, if◌then◌else◌, arith, add64,
}
use mathlib.Core.Path.{subst}
use native.Mathlib.Decide.{ℕ_discrete}
use tamago.Dma.{
  Block, Region, Outcome, ok, panic, out_of_memory, assign, reserved, alloc, alignment, free,
  free_block,
}
use tamago.Dma.Tiling.{IsValid}
use tamago.Dma.Split.{AllSmall}
use tamago.Dma.Alloc.{alloc-IsAllocated, alloc-panic}
use tamago.Dma.Reserve.{IsTaken, assign-IsTaken}
use tamago.Dma.Cycle.{free_block-assign}
use tamago.Dma.Free.{free_block-ignored}
use tamago.Dma.Memory.{Memory, Buffer, slice_of, load, block_write, alloc_buffer}
use tamago.Dma.Memory.Laws.{load-store_self}

-- What Alloc returns, on each outcome: on success also that the block holds the buffer, and that Free
-- of its address, unless it is 0, gives back the region.
abbrev pub Allocates : Region → Buffer → ℕ → Outcome (ℕ × Region × Memory) → Type 0
Allocates r buf align (ok (addr, r', m')) =
    IsTaken r (length buf.bytes) align addr false r'
    × (load m' addr (length buf.bytes) ≡ buf.bytes)
    × (free r' addr ≡ (if addr == 0 then r' else r))
Allocates r buf align (panic f) =
    (f ≡ out_of_memory) × AllSmall (length buf.bytes) (alignment align) r.free_blocks

module _ (r : Region) (m : Memory) (buf : Buffer) (align : ℕ) (v : IsValid r)
    (pos : 0 < length buf.bytes) (hs : length buf.bytes < 2 ^ 63) (ha : align < 2 ^ 64)
    (apart : reserved r (slice_of buf) ≡ false) where
  nonzero : (length buf.bytes == 0) ≡ false
  nonzero = ground arith

  by_outcome :
      (o : Outcome (Block × Region))
      → alloc r (length buf.bytes) align ≡ o
      → Allocates r buf align (alloc_buffer r m buf align)
  unfolding alloc_buffer block_write free
  by_outcome (panic f) e =
      rw (nonzero, apart, e) (alloc-panic r (length buf.bytes) align v hs ha pos f e)
  by_outcome (ok (b, r')) e =
      let t = alloc-IsAllocated r (length buf.bytes) align v hs ha pos b r' e in
      let plain : record b { res = false } ≡ b = ground (arith, t.plain) in
      let at : add64 b.addr 0 ≡ b.addr = omega (arith, v.fits, t.high) in
      let after : Region = record r' { used_blocks = assign b.addr b r'.used_blocks } in
      rw (nonzero, apart, e)
        (
          subst
              (λ (c : Block).
                IsTaken r (length buf.bytes) align b.addr false
                  (record r' { used_blocks = assign b.addr c r'.used_blocks }))
              plain (assign-IsTaken r r' (length buf.bytes) align b false v pos t),
          rw at (load-store_self m b.addr buf.bytes),
          elim (ℕ_discrete b.addr 0) [
            | yes z ↦ free_block-ignored after b.addr false (inl z) ∙ ground arith
            | no nz ↦
                subst
                  (λ (c : Block).
                    free_block (record r' { used_blocks = assign b.addr c r'.used_blocks }) b.addr
                      false
                    ≡ r)
                  plain (free_block-assign r v (length buf.bytes) align pos hs ha b r' false e nz)
                ∙ ground arith
          ],
        )

  -- On a valid region Alloc of a buffer that is not empty and stands outside of the region either
  -- panics for lack of memory, and then no free block has room for it; or it takes a block of its
  -- length from the first free block with room, aligned as asked and under the kind of Free, fills
  -- it with the buffer's bytes, and keeps the region valid; Free of the address, unless it is 0, then
  -- gives back the region as it was.
  pub alloc_buffer-Allocates : Allocates r buf align (alloc_buffer r m buf align)
  alloc_buffer-Allocates = by_outcome (alloc r (length buf.bytes) align) refl
