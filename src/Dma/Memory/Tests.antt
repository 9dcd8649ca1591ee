-- ===== src/Dma/Memory/Tests.antt =====
-- Runs of the allocator on small regions, and the theorems at concrete inputs.
use tamago.Prelude.{
  ℕ, ◌+◌, ◌-◌, ◌<◌, ◌^◌, ◌≡◌, ◌↔◌, refl, true, false, List, [], ◌∷◌, arith, none, some, ltb, ◌&&◌,
  if◌then◌else◌,
}
use tamago.Dma.{
  Block, Region, ok, panic, out_of_memory, init, new_region, reserve, alloc, find, assign,
  free_block, release, reserved, find_place, alignment, padding, carve,
}
use tamago.Dma.Tiling.{IsValid}
use tamago.Dma.Reserve.{Reserves, reserve-Reserves}
use tamago.Dma.Free.{IsFreed, free_block-IsFreed, free_block-twice}
use tamago.Dma.Cycle.{release-reserve}
use tamago.Dma.Start.{new_region_overlap}
use tamago.Dma.Memory.{
  Memory, Buffer, store, alloc_buffer, read, write, block_read, block_write, block_read_arm64,
  block_write_arm64, copy_aligned,
}
use tamago.Dma.Memory.Laws.{block_copy_arm64}
use tamago.Dma.Memory.Access.{read-write, read-write_other, write_before_block}
use tamago.Dma.Memory.Buffers.{Allocates, alloc_buffer-Allocates}
use tamago.Dma.Memory.History.{
  Call, reserving, allocating, writing, freeing, releasing, run, init-IsValid, run-init-IsValid,
}

abbrev fresh : Region
fresh = init 0x1001 0x100

abbrev blank : Memory
blank a = 0

fresh-IsValid : IsValid fresh
fresh-IsValid = init-IsValid 0x1001 0x100 (omega arith) (omega arith)

abbrev block_of : ℕ → ℕ → Block
block_of a n = record { addr = a; size = n; res = false }

-- After Reserve(0x20, 0): the byte before the aligned address stays free.
abbrev reserved_once : Region
reserved_once = record {
  start = 0x1001;
  size = 0x100;
  free_blocks = block_of 0x1001 7 ∷ block_of 0x1028 0xd9 ∷ [];
  used_blocks = (0x1008, record { addr = 0x1008; size = 0x20; res = true }) ∷ [];
}

reserve_runs :
    reserve fresh 0x20 0 ≡ ok (0x1008, record { ptr = 0x1008; len = 0x20 }, reserved_once)
unfolding reserve alloc init find_place alignment padding carve assign
reserve_runs = refl

reserve_too_much : reserve fresh 0xfa 0 ≡ panic out_of_memory
unfolding reserve alloc init find_place alignment padding carve assign
reserve_too_much = refl

-- A size of -1 passes the search: its sum with the padding wraps.
reserve_negative :
    reserve fresh (2 ^ 64 - 1) 0
    ≡ ok (
      0x1008,
      record { ptr = 0x1008; len = 2 ^ 64 - 1 },
      record {
        start = 0x1001;
        size = 0x100;
        free_blocks = block_of 0x1001 7 ∷ block_of 0x1007 0xfa ∷ [];
        used_blocks = (0x1008, record { addr = 0x1008; size = 2 ^ 64 - 1; res = true }) ∷ [];
      },
    )
unfolding reserve alloc init find_place alignment padding carve assign
reserve_negative = refl

reserve-Reserves_example : Reserves fresh 0x20 0 (reserve fresh 0x20 0)
reserve-Reserves_example =
    reserve-Reserves fresh 0x20 0 fresh-IsValid (omega arith) (omega arith) (omega arith)

reserved_once-IsValid : IsValid reserved_once
unfolding reserve alloc init find_place alignment padding carve assign
reserved_once-IsValid = reserve-Reserves_example.0.valid

release-reserve_example : release reserved_once 0x1008 ≡ fresh
release-reserve_example =
    release-reserve fresh reserved_once 0x20 0 0x1008 (record { ptr = 0x1008; len = 0x20 })
      fresh-IsValid (omega arith) (omega arith) (omega arith) reserve_runs (omega arith)

abbrev once : Block
once = record { addr = 0x1008; size = 0x20; res = true }

once_found : find 0x1008 reserved_once.used_blocks ≡ some once
unfolding find
once_found = refl

free_block-IsFreed_example :
    IsFreed reserved_once 0x1008 once (free_block reserved_once 0x1008 true)
free_block-IsFreed_example =
    free_block-IsFreed reserved_once 0x1008 true once reserved_once-IsValid (omega arith) once_found
      refl

free_block-twice_example :
    free_block (free_block reserved_once 0x1008 true) 0x1008 false
    ≡ free_block reserved_once 0x1008 true
free_block-twice_example =
    free_block-twice reserved_once 0x1008 true false once reserved_once-IsValid (omega arith)
      once_found refl

abbrev outside : List ℕ → Buffer
outside bytes = record { ptr = 0x9000; bytes = bytes }

alloc_buffer-Allocates_example :
    Allocates fresh
      (outside (1 ∷ 2 ∷ 3 ∷ []))
      16
      (alloc_buffer fresh blank (outside (1 ∷ 2 ∷ 3 ∷ [])) 16)
unfolding reserved init
alloc_buffer-Allocates_example =
    alloc_buffer-Allocates fresh blank (outside (1 ∷ 2 ∷ 3 ∷ [])) 16 fresh-IsValid (omega arith)
      (omega arith) (omega arith) refl

read-write_example :
    (m' : Memory) × (write reserved_once blank 0x1008 4 (5 ∷ 6 ∷ []) ≡ ok m')
    × (read reserved_once m' 0x1008 4 (outside (0 ∷ 0 ∷ [])) ≡ ok (5 ∷ 6 ∷ []))
unfolding reserved
read-write_example =
    read-write reserved_once blank 0x1008 4 (5 ∷ 6 ∷ []) (outside (0 ∷ 0 ∷ [])) once
      reserved_once-IsValid (omega arith) once_found (omega arith) (omega arith) refl refl

write_runs : write reserved_once blank 0x1008 4 (5 ∷ []) ≡ ok (store blank 0x100c (5 ∷ []))
unfolding write find block_write
write_runs = refl

-- After a second Reserve(0x10, 0x10) another block stands at 0x1030.
abbrev reserved_twice : Region
reserved_twice = record {
  start = 0x1001;
  size = 0x100;
  free_blocks = block_of 0x1001 7 ∷ block_of 0x1028 8 ∷ block_of 0x1040 0xc1 ∷ [];
  used_blocks =
      (0x1008, record { addr = 0x1008; size = 0x20; res = true })
      ∷ (0x1030, record { addr = 0x1030; size = 0x10; res = true })
      ∷ [];
}

reserved_twice-IsValid : IsValid reserved_twice
unfolding reserve alloc init find_place alignment padding carve assign
reserved_twice-IsValid =
    (reserve-Reserves reserved_once 0x10 0x10 reserved_once-IsValid (omega arith) (omega arith)
      (omega arith)).0.valid

write_twice : write reserved_twice blank 0x1008 4 (5 ∷ []) ≡ ok (store blank 0x100c (5 ∷ []))
unfolding write find block_write
write_twice = refl

read-write_other_example :
    read reserved_twice (store blank 0x100c (5 ∷ [])) 0x1030 0 (outside (0 ∷ []))
    ≡ read reserved_twice blank 0x1030 0 (outside (0 ∷ []))
read-write_other_example =
    read-write_other reserved_twice blank (store blank 0x100c (5 ∷ [])) 0x1008 0x1030 4 0 (5 ∷ [])
      (outside (0 ∷ [])) reserved_twice-IsValid (omega arith) (omega arith) (omega arith)
      (omega arith) (omega arith) write_twice

-- Write at offset -1.
write_before_block_example :
    write reserved_once blank 0x1008 (2 ^ 64 - 1) (5 ∷ 6 ∷ [])
    ≡ ok (store blank 0x1007 (5 ∷ 6 ∷ []))
write_before_block_example =
    write_before_block reserved_once blank 0x1008 1 (5 ∷ 6 ∷ []) once reserved_once-IsValid
      (omega arith) once_found (omega arith) (omega arith) (omega arith) (omega arith) (omega arith)

block_copy_arm64_example :
    (block_read_arm64 once blank 3 (outside (1 ∷ 2 ∷ []))
      ≡ some (block_read once blank 3 (1 ∷ 2 ∷ [])))
    × (block_write_arm64 once blank 3 (outside (1 ∷ 2 ∷ []))
        ≡ some (block_write once blank 3 (1 ∷ 2 ∷ [])))
block_copy_arm64_example = block_copy_arm64 once blank 3 (outside (1 ∷ 2 ∷ [])) (omega arith)

-- An empty buffer at an aligned offset: the panic of `&src[0]`.
block_write_arm64_empty : block_write_arm64 once blank 8 (outside []) ≡ none
unfolding block_write_arm64 copy_aligned
block_write_arm64_empty = refl

new_region_overlap_example :
    ((new_region 0x1000 0x100 false 0x1080 0x2000 ≡ none)
      ↔ ((0x1000 < 0x2000) × (0x1080 < 0x1000 + 0x100)))
    × (new_region 0x1000 0x100 true 0x1080 0x2000 ≡ some (init 0x1000 0x100))
    × (new_region 0x1000 0x100 false 0x1080 0x2000 ≡ (
        if ltb 0x1000 0x2000 && ltb 0x1080 (0x1000 + 0x100)
        then none
        else some (init 0x1000 0x100)))
new_region_overlap_example =
    new_region_overlap 0x1000 0x100 0x1080 0x2000 (omega arith) (omega arith) (omega arith)

abbrev calls : List Call
calls =
    reserving 0x20 0
    ∷ allocating (outside (1 ∷ 2 ∷ [])) 64
    ∷ writing 0x1040 1 (9 ∷ [])
    ∷ releasing 0x1008
    ∷ freeing 0x1040
    ∷ []

run-init-IsValid_example : IsValid (run calls (init 0x1001 0x100, blank)).0
run-init-IsValid_example =
    run-init-IsValid 0x1001 0x100 blank calls (omega arith) (omega arith) (omega arith)
