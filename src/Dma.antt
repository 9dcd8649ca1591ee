-- ===== src/Dma.antt =====
-- Package dma, the allocator (dma/region.go and the constructor of dma/dma.go): the region, its free
-- list and its map of used blocks. `Memory` has the copies to and from the blocks; the other modules
-- hold what is proved.
-- A `uint` is a number below 2 ^ 64 and wraps; an `int` argument is its 64-bit pattern, so that the
-- conversions between the two change nothing. The mutex makes each operation one step. A method that
-- changes the region returns the new one; a panic is an `Outcome`, and leaves the region as it was.
pub mod Tiling
pub mod Split
pub mod Alloc
pub mod Reserve
pub mod Merge
pub mod Free
pub mod Cycle
pub mod Start
pub mod Memory
use tamago.Prelude.{
  ℕ, Bool, true, false, not, ◌&&◌, ◌||◌, Option, none, some, List, [], ◌∷◌, ◌++◌, bit_and, ltb, leb,
  ◌==◌, if◌then◌else◌, add64, sub64, neg64,
}

pub record Block : Type 0 where
  pub addr : ℕ
  pub size : ℕ
  pub res : Bool

-- `usedBlocks` is a map: a list with one entry for each key.
pub record Region : Type 0 where
  pub start : ℕ
  pub size : ℕ
  pub free_blocks : List Block
  pub used_blocks : List (ℕ × Block)

pub data Fault : Type 0 where
  out_of_memory unallocated_read invalid_read invalid_write : Fault

pub data Outcome {ℓ} (A : Type ℓ) : Type ℓ where
  ok : A → Outcome A
  panic : Fault → Outcome A

abbrev pub default_alignment : ℕ
default_alignment = 8

-- `&block{addr: a, size: n}`
abbrev pub new_block : ℕ → ℕ → Block
new_block a n = record { addr = a; size = n; res = false }

pub init : ℕ → ℕ → Region
init start size = record {
  start = start;
  size = size;
  free_blocks = new_block start size ∷ [];
  used_blocks = [];
}

pub region_end : Region → ℕ
region_end r = add64 r.start r.size

-- `none` is the error; the two numbers before the flag are what runtime.MemRegion returns.
pub new_region : ℕ → ℕ → Bool → ℕ → ℕ → Option Region
new_region start size unsafe ram_start ram_end =
    let end = add64 start size in
    if not unsafe && not (leb ram_end start || (ltb start ram_start && leb end ram_start))
    then none
    else some (init start size)

-- A map assignment, a lookup and `delete`.
pub assign : ℕ → Block → List (ℕ × Block) → List (ℕ × Block)
assign k b [] = (k, b) ∷ []
assign k b ((j, c) ∷ m) = if j == k then (k, b) ∷ m else (j, c) ∷ assign k b m

pub find : ℕ → List (ℕ × Block) → Option Block
find k [] = none
find k ((j, c) ∷ m) = if j == k then some c else find k m

pub delete : ℕ → List (ℕ × Block) → List (ℕ × Block)
delete k [] = []
delete k ((j, c) ∷ m) = if j == k then m else (j, c) ∷ delete k m

-- The first test of `alloc`.
unfoldable pub alignment : ℕ → ℕ
alignment align =
    if align == 0 || not (bit_and align (sub64 align 1) == 0) then default_alignment else align

-- `-b.addr & (align - 1)`
pub padding : Block → ℕ → ℕ
padding b align = bit_and (neg64 b.addr) (sub64 align 1)

-- A position in the free list: `found` is the element `e`, with what stands on each side of it.
pub record Place : Type 0 where
  pub before : List Block
  pub found : Block
  pub pad : ℕ
  pub after : List Block

abbrev pub past : Block → Option Place → Option Place
past b none = none
past b (some p) = some (record p { before = b ∷ p.before })

-- The loop of `alloc` over the free list.
pub find_place : ℕ → ℕ → List Block → Option Place
find_place size align [] = none
find_place size align (b ∷ bs) =
    let pad = padding b align in
    if leb (add64 size pad) b.size
    then some (record { before = []; found = b; pad = pad; after = bs })
    else past b (find_place size align bs)

-- A new block in the free list, unless it would be empty.
abbrev pub piece : ℕ → ℕ → List Block
piece a n = if n == 0 then [] else new_block a n ∷ []

-- The rest of `alloc`: the block that it returns, and the free list around it.
pub carve : ℕ → Place → Block × List Block
carve size p =
    let b = p.found in
    let total = add64 size p.pad in
    let n = sub64 b.size total in
    let sized = record b { size = if n == 0 then b.size else total } in
    let claimed =
      if p.pad == 0
      then sized
      else record sized { addr = add64 b.addr p.pad; size = sub64 sized.size p.pad } in
    (claimed, p.before ++ (piece b.addr p.pad ++ (piece (add64 b.addr total) n ++ p.after)))

pub alloc : Region → ℕ → ℕ → Outcome (Block × Region)
alloc r size align = elim (find_place size (alignment align) r.free_blocks) [
  | none ↦ panic out_of_memory
  | some p ↦ let (b, free) = carve size p in ok (b, record r { free_blocks = free })
]

-- A slice: the address of its first byte, and its length.
pub record Slice : Type 0 where
  pub ptr : ℕ
  pub len : ℕ

-- For size 0 the results are the zero values.
pub reserve : Region → ℕ → ℕ → Outcome (ℕ × Slice × Region)
reserve r size align =
    if size == 0 then ok (0, record { ptr = 0; len = 0 }, r) else elim (alloc r size align) [
      | panic f ↦ panic f
      | ok (b, r') ↦
          let b' = record b { res = true } in
          ok (
            b'.addr,
            record { ptr = b'.addr; len = b'.size },
            record r' { used_blocks = assign b'.addr b' r'.used_blocks },
          )
    ]

unfoldable pub reserved : Region → Slice → Bool
reserved r s = leb r.start s.ptr && leb (add64 s.ptr s.len) (add64 r.start r.size)

-- The loop of `defrag`, with `prevBlock` in its argument.
pub merge : Block → List Block → List Block
merge prev [] = prev ∷ []
merge prev (b ∷ bs) = elim (add64 prev.addr prev.size == b.addr) [
  | true ↦ merge (record prev { size = add64 prev.size b.size }) bs
  | false ↦ prev ∷ merge b bs
]

pub defrag : List Block → List Block
defrag [] = []
defrag (b ∷ bs) = merge b bs

-- The loop of `free` with its insertions.
pub insert_block : Block → List Block → List Block
insert_block u [] = u ∷ []
insert_block u (b ∷ bs) = if ltb u.addr b.addr then u ∷ (b ∷ bs) else b ∷ insert_block u bs

pub free_used : Region → Block → Region
free_used r u = record r {
  free_blocks = defrag (insert_block (record u { res = false }) r.free_blocks);
}

-- `==` on Booleans.
abbrev pub same : Bool → Bool → Bool
same true b = b
same false b = not b

pub free_block : Region → ℕ → Bool → Region
free_block r addr res = if addr == 0 then r else elim (find addr r.used_blocks) [
  | none ↦ r
  | some b ↦
      if same b.res res
      then (let r' = free_used r b in record r' { used_blocks = delete addr r'.used_blocks })
      else r
]

pub free : Region → ℕ → Region
free r addr = free_block r addr false

pub release : Region → ℕ → Region
release r addr = free_block r addr true
