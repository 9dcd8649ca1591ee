-- ===== src/Dma/Memory/Laws.antt =====
-- Loads and stores of byte sequences, and the copies between buffers and blocks on the two kinds of
-- platform.
use tamago.Prelude.{
  ℕ, zero, suc, ◌+◌, ◌≤◌, ◌<◌, ◌≡◌, refl, sym, ap, ◌∙◌, ◌⊎◌, inl, inr, List, [], ◌∷◌, length, arith,
  some, true, false, add64,
}
use tamago.Dma.{Block}
use tamago.Dma.Memory.{
  Memory, Buffer, update, load, store, block_read, block_write, block_read_arm64, block_write_arm64,
}
use tamago.Dma.Memory.Copy.{copy_aligned_lem}

pub length-load : (m : Memory) (a n : ℕ) → length (load m a n) ≡ n
unfolding load
length-load m a zero = refl
length-load m a (suc n) = ap suc (length-load m (a + 1) n)

-- A store changes no byte outside its range.
pub store-outside :
    (m : Memory) (a j : ℕ) (xs : List ℕ) → (j < a) ⊎ (a + length xs ≤ j) → store m a xs j ≡ m j
unfolding store
store-outside m a j [] h = refl
store-outside m a j (x ∷ xs) (inl h) =
    store-outside (update m a x) (a + 1) j xs (inl (omega arith)) ∙ ground arith
store-outside m a j (x ∷ xs) (inr h) =
    store-outside (update m a x) (a + 1) j xs (inr (omega arith)) ∙ ground arith

pub load-cong :
    (m m' : Memory) (a n : ℕ)
    → ((j : ℕ) → a ≤ j → j < a + n → m j ≡ m' j)
    → load m a n ≡ load m' a n
unfolding load
load-cong m m' a zero h = refl
load-cong m m' a (suc n) h = rw (
  h a (omega arith) (omega arith),
  load-cong m m' (a + 1) n (λ j p q. h j (omega arith) (omega arith)),
)

-- A load of what was stored.
pub load-store_self : (m : Memory) (a : ℕ) (xs : List ℕ) → load (store m a xs) a (length xs) ≡ xs
unfolding load store
load-store_self m a [] = refl
load-store_self m a (x ∷ xs) =
    let first : store (update m a x) (a + 1) xs a ≡ x =
      store-outside (update m a x) (a + 1) a xs (inl (omega arith)) ∙ ground arith in
    rw (first, load-store_self (update m a x) (a + 1) xs)

-- A load away from what was stored.
pub load-store_apart :
    (m : Memory) (a b n : ℕ) (xs : List ℕ)
    → (b + n ≤ a) ⊎ (a + length xs ≤ b)
    → load (store m a xs) b n ≡ load m b n
load-store_apart m a b n xs (inl h) =
    load-cong (store m a xs) m b n (λ j p q. store-outside m a j xs (inl (omega arith)))
load-store_apart m a b n xs (inr h) =
    load-cong (store m a xs) m b n (λ j p q. store-outside m a j xs (inr (omega arith)))

-- For a buffer that is not empty, the aligned, chunked copies of arm64 do not panic, and read and write the
-- same bytes as the plain copies of the other platforms, whatever the offset and the address of the
-- caller's buffer.
pub block_copy_arm64 :
    (b : Block) (m : Memory) (off : ℕ) (buf : Buffer)
    → 0 < length buf.bytes
    → (block_read_arm64 b m off buf ≡ some (block_read b m off buf.bytes))
      × (block_write_arm64 b m off buf ≡ some (block_write b m off buf.bytes))
unfolding block_read_arm64 block_write_arm64 block_read block_write
block_copy_arm64 b m off buf pos =
    let at = add64 b.addr off in
    let size = length-load m at (length buf.bytes) in
    (
      copy_aligned_lem buf.bytes (load m at (length buf.bytes)) 8 off buf.ptr false (sym size)
          (rw size pos),
      rw (copy_aligned_lem (load m at (length buf.bytes)) buf.bytes 8 off buf.ptr true size pos)
          refl,
    )
