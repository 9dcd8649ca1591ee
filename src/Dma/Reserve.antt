-- ===== src/Dma/Reserve.antt =====
-- What Reserve does: the allocated block enters the map of used blocks, and the invariant holds.
use tamago.Prelude.{
  ℕ, ◌+◌, ◌%◌, ◌^◌, ◌<◌, ◌≡◌, refl, Bool, true, false, none, some, arith, ◌==◌, if◌then◌else◌,
}
use tamago.Dma.{
  Block, Region, Place, Slice, Outcome, ok, panic, out_of_memory, alignment, alloc, reserve, assign,
  find,
}
use tamago.Dma.Tiling.{
  covers, covers_free, covers_used, IsValid, region_limit, covers_used-assign, IsKeyed-assign,
  find-none_of_uncovered, find-assign,
}
use tamago.Dma.Split.{AllSmall, IsPlace}
use tamago.Dma.Alloc.{IsAllocated, alloc-IsAllocated, alloc-panic}

-- What Reserve and Alloc do to the region: `size` bytes of the first free block with room, from its
-- first aligned address on, become the used block at `addr`, and nothing else changes.
pub record IsTaken (r : Region) (size align addr : ℕ) (res : Bool) (r' : Region) : Type 0 where
  pub aligned : addr % alignment align ≡ 0
  pub first :
      (p : Place) × IsPlace size (alignment align) r.free_blocks p × (addr ≡ p.found.addr + p.pad)
  pub used :
      (k : ℕ)
      → find k r'.used_blocks ≡ (
          if addr == k
          then some (record { addr = addr; size = size; res = res })
          else find k r.used_blocks)
  pub taken :
      (a : ℕ)
      → covers a (record { addr = addr; size = size; res = res }) + covers_free a r'.free_blocks
        ≡ covers_free a r.free_blocks
  pub start_kept : r'.start ≡ r.start
  pub size_kept : r'.size ≡ r.size
  pub valid : IsValid r'

-- The block that `alloc` hands out stands under no key yet.
pub alloc-unused :
    (r r' : Region) (size align : ℕ) (b : Block)
    → IsValid r
    → 0 < size
    → IsAllocated r size align b r'
    → find b.addr r.used_blocks ≡ none
alloc-unused r r' size align b v pos t =
    find-none_of_uncovered r.start (region_limit r) b.addr r.used_blocks v.keyed
      (ground (arith, v.tiled b.addr, t.taken b.addr, t.sized))

pub assign-IsTaken :
    (r r' : Region) (size align : ℕ) (b : Block) (res : Bool)
    → IsValid r
    → 0 < size
    → IsAllocated r size align b r'
    → IsTaken r size align b.addr res
        (record r' { used_blocks = assign b.addr (record b { res = res }) r'.used_blocks })
assign-IsTaken r r' size align b res v pos t =
    let used : Block = record b { res = res } in
    let uncovered : covers_used b.addr r.used_blocks ≡ 0 =
      ground (arith, v.tiled b.addr, t.taken b.addr, t.sized) in
    let unused : find b.addr r.used_blocks ≡ none =
      find-none_of_uncovered r.start (region_limit r) b.addr r.used_blocks v.keyed uncovered in
    record {
      aligned = t.aligned;
      first = (t.first.0, t.first.1, t.first.2);
      used = λ k. ground (arith, find-assign k b.addr used r'.used_blocks, t.used_kept, t.sized);
      taken = λ a. rw (← t.sized) (t.taken a);
      start_kept = t.start_kept;
      size_kept = t.size_kept;
      valid = record {
        fits = omega (arith, v.fits, t.start_kept, t.size_kept);
        gapped = rw (t.start_kept, t.size_kept) t.gapped;
        keyed =
            rw (t.start_kept, t.size_kept, t.used_kept)
              (IsKeyed-assign r.start (region_limit r) used r.used_blocks (omega (arith, t.sized))
                t.low t.high v.keyed);
        tiled = λ a.
            rw
              (
                t.start_kept,
                t.size_kept,
                t.used_kept,
                covers_used-assign a b.addr used r.used_blocks unused,
              )
              (omega (arith, v.tiled a, t.taken a));
      };
    }

-- What Reserve returns, on each outcome.
abbrev pub Reserves : Region → ℕ → ℕ → Outcome (ℕ × Slice × Region) → Type 0
Reserves r size align (ok (addr, s, r')) =
    IsTaken r size align addr true r' × (s ≡ record { ptr = addr; len = size })
Reserves r size align (panic f) =
    (f ≡ out_of_memory) × AllSmall size (alignment align) r.free_blocks

reserve_step :
    (r : Region) (size align : ℕ)
    → IsValid r
    → 0 < size
    → size < 2 ^ 63
    → align < 2 ^ 64
    → (o : Outcome (Block × Region)) → alloc r size align ≡ o
    → Reserves r size align (reserve r size align)
unfolding reserve
reserve_step r size align v pos hs ha (ok (b, r')) e =
    let nonzero : (size == 0) ≡ false = ground arith in
    let t = alloc-IsAllocated r size align v hs ha pos b r' e in
    rw (nonzero, e) (assign-IsTaken r r' size align b true v pos t, rw t.sized refl)
reserve_step r size align v pos hs ha (panic f) e =
    let nonzero : (size == 0) ≡ false = ground arith in
    rw (nonzero, e) (alloc-panic r size align v hs ha pos f e)

-- On a valid region Reserve, asked for a size that is neither 0 nor negative, either panics for lack
-- of memory, and then no free block has room for the size and its padding; or it returns the address
-- and the slice of a used block of that size, aligned as asked. The block is cut from the first free
-- block with room, exactly its bytes leave the free list, every other used block stays, and the
-- region is valid again.
pub reserve-Reserves :
    (r : Region) (size align : ℕ)
    → IsValid r
    → 0 < size
    → size < 2 ^ 63
    → align < 2 ^ 64
    → Reserves r size align (reserve r size align)
reserve-Reserves r size align v pos hs ha =
    reserve_step r size align v pos hs ha (alloc r size align) refl
