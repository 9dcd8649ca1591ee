-- ===== src/Dma/Memory/Access.antt =====
-- Alloc, Read and Write on a valid region.
use tamago.Prelude.{
  ℕ, ◌+◌, ◌-◌, ◌≤◌, ◌<◌, ◌^◌, ◌≡◌, ◌≢◌, refl, sym, ap, ◌∙◌, ◌⊎◌, inl, inr, List, length, ◌==◌, ltb,
  ◌||◌, false, Bool-cases, Option-cases, some, arith, add64,
}
use native.Mathlib.Decide.{dec_lt}
use tamago.Dma.{Block, Region, ok, find, delete, reserved}
use tamago.Dma.Tiling.{IsValid, IsKeyed-find, covers, end_of, region_limit, covers_used-delete}
use tamago.Dma.Free.{find-delete_ne}
use tamago.Dma.Memory.{Memory, Buffer, slice_of, load, store, block_read, block_write, read, write}
use tamago.Dma.Memory.Laws.{load-store_self, load-store_apart}

-- Two used blocks under different keys have no byte in common.
pub used-apart :
    (r : Region) (k j : ℕ) (b c : Block)
    → IsValid r
    → k ≢ j
    → find k r.used_blocks ≡ some b
    → find j r.used_blocks ≡ some c
    → (end_of b ≤ c.addr) ⊎ (end_of c ≤ b.addr)
used-apart r k j b c v ne eb ec =
    let in_b = IsKeyed-find r.start (region_limit r) k b r.used_blocks v.keyed eb in
    let in_c = IsKeyed-find r.start (region_limit r) j c r.used_blocks v.keyed ec in
    let other : find j (delete k r.used_blocks) ≡ some c =
      find-delete_ne j k r.used_blocks (λ e. ne (sym e)) ∙ ec in
    let both : (a : ℕ) → covers a b + covers a c ≤ 1 = λ a. ground (
      arith,
      v.tiled a,
      covers_used-delete a k b r.used_blocks eb,
      covers_used-delete a j c (delete k r.used_blocks) other,
    ) in
    let at_b = both b.addr in
    let at_c = both c.addr in
    elim (dec_lt b.addr c.addr) [ yes p ↦ inl (ground arith) | no p ↦ inr (ground arith) ]

-- What Read returns from a used block, by the two tests that it makes.
read_lem :
    (r : Region) (m : Memory) (addr off : ℕ) (buf : Buffer) (b : Block)
    → addr ≢ 0
    → 0 < length buf.bytes
    → reserved r (slice_of buf) ≡ false
    → find addr r.used_blocks ≡ some b
    → add64 off (length buf.bytes) ≤ b.size
    → read r m addr off buf ≡ ok (load m (add64 b.addr off) (length buf.bytes))
unfolding read block_read
read_lem r m addr off buf b nz pos apart e fits =
    let small : ltb b.size (add64 off (length buf.bytes)) ≡ false = ground arith in
    let test : (addr == 0 || length buf.bytes == 0) ≡ false = ground arith in
    rw (test, apart, e, small) refl

write_lem :
    (r : Region) (m : Memory) (addr off : ℕ) (buf : List ℕ) (b : Block)
    → addr ≢ 0
    → 0 < length buf
    → find addr r.used_blocks ≡ some b
    → add64 off (length buf) ≤ b.size
    → write r m addr off buf ≡ ok (store m (add64 b.addr off) buf)
unfolding write block_write
write_lem r m addr off buf b nz pos e fits =
    let small : ltb b.size (add64 off (length buf)) ≡ false = ground arith in
    let test : (addr == 0 || length buf == 0) ≡ false = ground arith in rw (test, e, small) refl

-- Within a used block of a valid region, Write succeeds, and Read with the same offset into a buffer of
-- the same length outside of the region then returns what was written.
pub read-write :
    (r : Region) (m : Memory) (addr off : ℕ) (buf : List ℕ) (into : Buffer) (b : Block)
    → IsValid r
    → addr ≢ 0
    → find addr r.used_blocks ≡ some b
    → 0 < length buf
    → off + length buf ≤ b.size
    → length into.bytes ≡ length buf
    → reserved r (slice_of into) ≡ false
    → (m' : Memory) × (write r m addr off buf ≡ ok m') × (read r m' addr off into ≡ ok buf)
read-write r m addr off buf into b v nz e pos fits len apart =
    let in_b = IsKeyed-find r.start (region_limit r) addr b r.used_blocks v.keyed e in
    let sum : add64 off (length buf) ≡ off + length buf = omega (arith, v.fits) in
    let into_fits : add64 off (length into.bytes) ≤ b.size = rw (len, sum) fits in
    let stored = store m (add64 b.addr off) buf in
    (
      stored,
      write_lem r m addr off buf b nz pos e (rw sum fits),
      read_lem r stored addr off into b nz (omega arith) apart e into_fits
          ∙ ap ok (rw len (load-store_self m (add64 b.addr off) buf)),
    )

-- A negative offset -k, up to the length of the buffer, passes the test of Write: the buffer goes to the
-- address `k` below the block, and its first `k` bytes outside of it.
pub write_before_block :
    (r : Region) (m : Memory) (addr k : ℕ) (buf : List ℕ) (b : Block)
    → IsValid r
    → addr ≢ 0
    → find addr r.used_blocks ≡ some b
    → 0 < k
    → k ≤ addr
    → k ≤ length buf
    → length buf - k ≤ b.size
    → length buf < 2 ^ 63
    → write r m addr (2 ^ 64 - k) buf ≡ ok (store m (addr - k) buf)
write_before_block r m addr k buf b v nz e pos low long fits small =
    let in_b = IsKeyed-find r.start (region_limit r) addr b r.used_blocks v.keyed e in
    let sum : add64 (2 ^ 64 - k) (length buf) ≡ length buf - k = omega arith in
    let at : add64 b.addr (2 ^ 64 - k) ≡ addr - k = omega (arith, v.fits) in
    write_lem r m addr (2 ^ 64 - k) buf b nz (omega arith) e (rw sum fits)
    ∙ ap (λ (x : ℕ). ok (store m x buf)) at

read-store_apart :
    (r : Region) (m : Memory) (k j off at : ℕ) (buf : List ℕ) (into : Buffer) (b : Block)
    → IsValid r
    → k ≢ j
    → find k r.used_blocks ≡ some b
    → b.addr ≤ at
    → at + length buf ≤ end_of b
    → off < 2 ^ 63
    → length into.bytes < 2 ^ 63
    → read r (store m at buf) j off into ≡ read r m j off into
unfolding read block_read
read-store_apart r m k j off at buf into b v ne e lo hi ho hl =
    elim (Option-cases (find j r.used_blocks)) [
      | inl missing ↦ rw missing refl
      | inr (c, found) ↦
          let in_c = IsKeyed-find r.start (region_limit r) j c r.used_blocks v.keyed found in
          elim (Bool-cases (ltb c.size (add64 off (length into.bytes)))) [
            | inl large ↦ rw (found, large) refl
            | inr small ↦
                let sum : off + length into.bytes ≤ c.size = ground arith in
                let start : add64 c.addr off ≡ c.addr + off = omega (arith, v.fits) in
                let away : (add64 c.addr off + length into.bytes ≤ at)
                    ⊎ (at + length buf ≤ add64 c.addr off) =
                  ground (arith, used-apart r k j b c v ne e found) in
                rw
                  (
                    found,
                    small,
                    load-store_apart m at (add64 c.addr off) (length into.bytes) buf away,
                  )
                  refl
          ]
    ]

-- A Write that does not panic changes nothing or stores the buffer in the block.
write_cases :
    (r : Region) (m m' : Memory) (addr off : ℕ) (buf : List ℕ)
    → write r m addr off buf ≡ ok m'
    → (m' ≡ m)
      ⊎ ((b : Block) × (find addr r.used_blocks ≡ some b)
          × (add64 off (length buf) ≤ b.size)
          × (m' ≡ store m (add64 b.addr off) buf))
unfolding write block_write
write_cases r m m' addr off buf e = elim (Bool-cases (addr == 0 || length buf == 0)) [
  | inl nothing ↦ inl (ground arith)
  | inr some_bytes ↦ elim (Option-cases (find addr r.used_blocks)) [
    | inl missing ↦ inl (ground arith)
    | inr (b, found) ↦ elim (Bool-cases (ltb b.size (add64 off (length buf)))) [
      | inl large ↦ absurd (ground arith)
      | inr small ↦ inr (b, found, ground arith, ground arith)
    ]
  ]
]

-- A Write to one block never changes what Read returns, or that it panics, for another address, when the
-- offsets of the Write and of the Read are not negative.
pub read-write_other :
    (r : Region) (m m' : Memory) (addr other off off' : ℕ) (buf : List ℕ) (into : Buffer)
    → IsValid r
    → addr ≢ other
    → off < 2 ^ 63
    → length buf < 2 ^ 63
    → off' < 2 ^ 63
    → length into.bytes < 2 ^ 63
    → write r m addr off buf ≡ ok m'
    → read r m' other off' into ≡ read r m other off' into
read-write_other r m m' addr other off off' buf into v ne ho hl ho' hl' e =
    elim (write_cases r m m' addr off buf e) [
      | inl kept ↦ ap (λ (t : Memory). read r t other off' into) kept
      | inr (b, found, fits, stored) ↦
          let in_b = IsKeyed-find r.start (region_limit r) addr b r.used_blocks v.keyed found in
          let at : add64 b.addr off ≡ b.addr + off = omega (arith, v.fits) in
          ap (λ (t : Memory). read r t other off' into) stored
          ∙ read-store_apart r m addr other off' (add64 b.addr off) buf into b v ne found
              (omega arith) (omega arith) ho' hl'
    ]
