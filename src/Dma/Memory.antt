-- ===== src/Dma/Memory.antt =====
-- The copies between caller buffers and blocks (dma/block.go, dma/block_arm64.go), and the methods of
-- dma/region.go that make them: Alloc, Read and Write.
-- Memory is one byte at each address. A caller's buffer is its address and its bytes; it is apart
-- from the memory that a block covers. The `copy` of arm64 is `copy_aligned`.
pub mod Copy
pub mod Laws
pub mod Access
pub mod Buffers
pub mod History
mod Tests
use tamago.Prelude.{
  ℕ, zero, suc, ◌+◌, ◌-◌, ◌%◌, min, ◌||◌, ◌&&◌, ◌>>=◌, ◌>>◌, guard, Bool, true, false, not, Option,
  none, some, List, [], ◌∷◌, ◌++◌, length, set, get_elem?, take, drop, ltb, leb, ◌==◌,
  if◌then◌else◌, add64,
}
use tamago.Dma.{
  Block, Region, Slice, Outcome, ok, panic, unallocated_read, invalid_read, invalid_write, alloc,
  assign, find, reserved,
}

abbrev pub Memory : Type 0
Memory = ℕ → ℕ

-- The slice of `n` bytes at `a`.
unfoldable pub load : Memory → ℕ → ℕ → List ℕ
load m a zero = []
load m a (suc n) = m a ∷ load m (a + 1) n

abbrev pub update : Memory → ℕ → ℕ → Memory
update m a x j = if j == a then x else m j

unfoldable pub store : Memory → ℕ → List ℕ → Memory
store m a [] = m
store m a (x ∷ xs) = store (update m a x) (a + 1) xs

-- `copy(dst, src)` on the generic platforms: both slices have the length of the buffer.
pub block_read : Block → Memory → ℕ → List ℕ → List ℕ
block_read b m off buf = load m (add64 b.addr off) (length buf)

pub block_write : Block → Memory → ℕ → List ℕ → Memory
block_write b m off buf = store m (add64 b.addr off) buf

abbrev pub chunk : ℕ
chunk = 960

-- `copy(dst[i:j], src[i:j])`, the segment `src[i:j]` being `xs`.
pub splice : List ℕ → ℕ → List ℕ → List ℕ
splice dst i [] = dst
splice dst i (x ∷ xs) = splice (set dst i x) (i + 1) xs

-- `for i := 0; i < n; i += chunk`, from `i` on; the first number is fuel.
pub copy_chunks : ℕ → ℕ → ℕ → List ℕ → List ℕ → List ℕ
copy_chunks zero i n dst src = dst
copy_chunks (suc f) i n dst src =
    let end = min (i + chunk) n in
    let rest = copy_chunks f (i + chunk) n (splice dst i (take (end - i) (drop i src))) src in
    if ltb i n then rest else dst

-- `for i := range r`, from `i` on, with `k` rounds left.
pub copy_bytes : ℕ → ℕ → ℕ → List ℕ → List ℕ → List ℕ
copy_bytes zero i n dst src = dst
copy_bytes (suc k) i n dst src =
    copy_bytes k (i + 1) n (splice dst (n + i) (take 1 (drop (n + i) src))) src

-- The `copy` of dma/block_arm64.go; `addr` is the address of the caller's buffer, which is `src` in a
-- write and `dst` in a read. The result is what `dst` holds; `none` is the panic of `&src[0]` or `&dst[0]`
-- on an empty buffer, which only an aligned offset reaches.
pub copy_aligned : List ℕ → List ℕ → ℕ → ℕ → ℕ → Bool → Option (List ℕ)
copy_aligned dst src align off addr write =
    let r = length src % align in
    let n = length src - r in
    let buf = if write then src else dst in
    let split = if not (off % align == 0) then true else not (addr % align == 0) in
    let dst' = if split then copy_chunks (n + 1) 0 n dst src else splice dst 0 (take n src) in
    guard (not (off % align == 0 && length buf == 0)) >> some (copy_bytes r 0 n dst' src)

pub record Buffer : Type 0 where
  pub ptr : ℕ
  pub bytes : List ℕ

abbrev pub slice_of : Buffer → Slice
slice_of buf = record { ptr = buf.ptr; len = length buf.bytes }

-- `block.read` and `block.write` of dma/block_arm64.go.
pub block_read_arm64 : Block → Memory → ℕ → Buffer → Option (List ℕ)
block_read_arm64 b m off buf =
    copy_aligned buf.bytes (load m (add64 b.addr off) (length buf.bytes)) 8 off buf.ptr false

pub block_write_arm64 : Block → Memory → ℕ → Buffer → Option Memory
block_write_arm64 b m off buf = do
  let at = add64 b.addr off
  bytes ← copy_aligned (load m at (length buf.bytes)) buf.bytes 8 off buf.ptr true
  some (store m at bytes)

-- Alloc: the address, and the new region and memory.
pub alloc_buffer : Region → Memory → Buffer → ℕ → Outcome (ℕ × Region × Memory)
alloc_buffer r m buf align =
    if length buf.bytes == 0
    then ok (0, r, m)
    else if reserved r (slice_of buf)
    then ok (buf.ptr, r, m)
    else elim (alloc r (length buf.bytes) align) [
      | panic f ↦ panic f
      | ok (b, r') ↦ ok (
        b.addr,
        record r' { used_blocks = assign b.addr b r'.used_blocks },
        block_write b m 0 buf.bytes,
      )
    ]

-- Read: what the buffer holds afterwards.
pub read : Region → Memory → ℕ → ℕ → Buffer → Outcome (List ℕ)
read r m addr off buf =
    if addr == 0 || length buf.bytes == 0
    then ok buf.bytes
    else if reserved r (slice_of buf)
    then ok buf.bytes
    else elim (find addr r.used_blocks) [
      | none ↦ panic unallocated_read
      | some b ↦
          if ltb b.size (add64 off (length buf.bytes))
          then panic invalid_read
          else ok (block_read b m off buf.bytes)
    ]

-- Write: the memory afterwards.
pub write : Region → Memory → ℕ → ℕ → List ℕ → Outcome Memory
write r m addr off buf =
    if addr == 0 || length buf == 0 then ok m else elim (find addr r.used_blocks) [
      | none ↦ ok m
      | some b ↦
          if ltb b.size (add64 off (length buf))
          then panic invalid_write
          else ok (block_write b m off buf)
    ]
