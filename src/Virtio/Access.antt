-- ===== src/Virtio/Access.antt =====
-- Words in memory: what the driver and the device see in the rings.
use native.Mathlib.Decide.{dec_lt}
use tamago.Prelude.{
  ℕ, ◌+◌, ◌^◌, ◌≤◌, ◌<◌, ◌≡◌, refl, sym, ap, ◌∙◌, ◌⊎◌, inl, inr, some, List, length, set, ltb, leb,
  true, arith,
}
use tamago.Prelude.Endian.{le_bytes, le_value, length-le_bytes, le_value-le_bytes}
use tamago.Dma.{Slice}
use tamago.Dma.Memory.{Memory, load, store}
use tamago.Dma.Memory.Laws.{load-store_self, load-store_apart}
use tamago.Virtio.{put, fetch, set_ring}

-- The `n` bytes at `a` as a number.
abbrev pub word : ℕ → Memory → ℕ → ℕ
word n m a = le_value (load m a n)

pub put_lem :
    (n : ℕ) (m : Memory) (s : Slice) (off v : ℕ)
    → off + n ≤ s.len
    → put n m s off v ≡ some (store m (s.ptr + off) (le_bytes n v))
unfolding put
put_lem n m s off v h = let e : leb (off + n) s.len ≡ true = ground arith in rw e refl

pub fetch_lem :
    (n : ℕ) (m : Memory) (s : Slice) (off : ℕ)
    → off + n ≤ s.len
    → fetch n m s off ≡ some (word n m (s.ptr + off))
unfolding fetch
fetch_lem n m s off h = let e : leb (off + n) s.len ≡ true = ground arith in rw e refl

pub set_ring_lem {ℓ} :
    {A : Type ℓ} (xs : List A) (n : ℕ) (v : A) → n < length xs → set_ring xs n v ≡ some (set xs n v)
unfolding set_ring
set_ring_lem xs n v h = let e : ltb n (length xs) ≡ true = ground arith in rw e refl

pub word-store_self :
    (n : ℕ) (m : Memory) (a v : ℕ) → v < 256 ^ n → word n (store m a (le_bytes n v)) a ≡ v
word-store_self n m a v h =
    sym (ap (λ (k : ℕ). le_value (load (store m a (le_bytes n v)) a k)) (length-le_bytes n v))
    ∙ ap le_value (load-store_self m a (le_bytes n v))
    ∙ le_value-le_bytes n v h

pub word-store_apart :
    (n : ℕ) (m : Memory) (a b : ℕ) (xs : List ℕ)
    → (b + n ≤ a) ⊎ (a + length xs ≤ b)
    → word n (store m a xs) b ≡ word n m b
word-store_apart n m a b xs h = ap le_value (load-store_apart m a b n xs h)

pub in_range : (a lo hi : ℕ) → ((lo ≤ a) × (a < hi)) ⊎ ((a < lo) ⊎ (hi ≤ a))
in_range a lo hi = elim (dec_lt a lo) [
  | yes p ↦ inr (inl p)
  | no p ↦ elim (dec_lt a hi) [ yes b ↦ inl (omega arith, b) | no b ↦ inr (inr (omega arith)) ]
]
