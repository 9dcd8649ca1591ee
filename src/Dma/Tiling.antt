-- ===== src/Dma/Tiling.antt =====
-- The invariant of the allocator: the free blocks stand in address order with gaps between them, and
-- free and used blocks together cover each byte of the region exactly once.
use tamago.Prelude.{
  ℕ, ◌+◌, ◌≤◌, ◌<◌, ◌^◌, ◌≡◌, refl, false, ◌&&◌, List, [], ◌∷◌, ◌++◌, some, none, arith, ltb, leb,
  ◌==◌, if◌then◌else◌,
}
use tamago.Dma.{Block, Region, assign, find, delete, piece}

abbrev pub end_of : Block → ℕ
end_of b = b.addr + b.size

-- How often a block covers the byte at `a`: 0 or 1.
abbrev pub covers : ℕ → Block → ℕ
covers a b = if leb b.addr a && ltb a (end_of b) then 1 else 0

abbrev pub covers_free : ℕ → List Block → ℕ
covers_free a [] = 0
covers_free a (b ∷ bs) = covers a b + covers_free a bs

abbrev pub covers_used : ℕ → List (ℕ × Block) → ℕ
covers_used a [] = 0
covers_used a ((k, b) ∷ m) = covers a b + covers_used a m

-- Blocks in address order within the bounds; each is not empty and not reserved, and has at least
-- one byte between its end and the next block.
abbrev pub IsGapped : ℕ → ℕ → List Block → Type 0
IsGapped lo hi [] = Unit {0}
IsGapped lo hi (b ∷ bs) =
    (lo ≤ b.addr) × (0 < b.size) × (end_of b ≤ hi) × (b.res ≡ false) × IsGapped (end_of b + 1) hi bs

-- The same with blocks that may touch.
abbrev pub IsOrdered : ℕ → ℕ → List Block → Type 0
IsOrdered lo hi [] = Unit {0}
IsOrdered lo hi (b ∷ bs) =
    (lo ≤ b.addr) × (0 < b.size) × (end_of b ≤ hi) × (b.res ≡ false) × IsOrdered (end_of b) hi bs

-- Each used block stands under its address and is not empty.
abbrev pub IsKeyed : ℕ → ℕ → List (ℕ × Block) → Type 0
IsKeyed lo hi [] = Unit {0}
IsKeyed lo hi ((k, b) ∷ m) =
    (k ≡ b.addr) × (0 < b.size) × (lo ≤ b.addr) × (end_of b ≤ hi) × IsKeyed lo hi m

abbrev pub region_limit : Region → ℕ
region_limit r = r.start + r.size

pub record IsValid (r : Region) : Type 0 where
  pub fits : region_limit r < 2 ^ 64
  pub gapped : IsGapped r.start (region_limit r) r.free_blocks
  pub keyed : IsKeyed r.start (region_limit r) r.used_blocks
  pub tiled :
      (a : ℕ)
      → covers_free a r.free_blocks + covers_used a r.used_blocks
        ≡ (if leb r.start a && ltb a (region_limit r) then 1 else 0)

pub IsGapped-weaken :
    (lo lo' hi : ℕ) (bs : List Block) → lo ≤ lo' → IsGapped lo' hi bs → IsGapped lo hi bs
IsGapped-weaken lo lo' hi [] h g = tt
IsGapped-weaken lo lo' hi (b ∷ bs) h g = (omega arith, g.1, g.2, g.3, g.4)

pub covers_free-append :
    (a : ℕ) (xs ys : List Block) → covers_free a (xs ++ ys) ≡ covers_free a xs + covers_free a ys
covers_free-append a [] ys = omega arith
covers_free-append a (x ∷ xs) ys = omega (arith, covers_free-append a xs ys)

-- A piece of the free list covers its range.
pub covers_free-piece :
    (a x n : ℕ) → covers_free a (piece x n) ≡ (if leb x a && ltb a (x + n) then 1 else 0)
covers_free-piece a x n = ground arith

-- Under a key that it does not hold, an assignment adds a block.
pub covers_used-assign :
    (a k : ℕ) (b : Block) (m : List (ℕ × Block))
    → find k m ≡ none
    → covers_used a (assign k b m) ≡ covers a b + covers_used a m
unfolding assign find
covers_used-assign a k b [] h = refl
covers_used-assign a k b ((j, c) ∷ m) h = ground (arith, covers_used-assign a k b m)

-- What a key finds is taken out by `delete`.
pub covers_used-delete :
    (a k : ℕ) (b : Block) (m : List (ℕ × Block))
    → find k m ≡ some b
    → covers_used a m ≡ covers a b + covers_used a (delete k m)
unfolding delete find
covers_used-delete a k b [] h = cc
covers_used-delete a k b ((j, c) ∷ m) h = ground (arith, covers_used-delete a k b m)

pub IsKeyed-assign :
    (lo hi : ℕ) (b : Block) (m : List (ℕ × Block))
    → 0 < b.size
    → lo ≤ b.addr
    → end_of b ≤ hi
    → IsKeyed lo hi m
    → IsKeyed lo hi (assign b.addr b m)
unfolding assign
IsKeyed-assign lo hi b [] s l h g = (refl, s, l, h, tt)
IsKeyed-assign lo hi b ((j, c) ∷ m) s l h g = ground (arith, IsKeyed-assign lo hi b m)

pub IsKeyed-delete :
    (lo hi k : ℕ) (m : List (ℕ × Block)) → IsKeyed lo hi m → IsKeyed lo hi (delete k m)
unfolding delete
IsKeyed-delete lo hi k [] g = tt
IsKeyed-delete lo hi k ((j, c) ∷ m) g = ground (arith, IsKeyed-delete lo hi k m)

-- A block that a key finds stands under that key, within the bounds.
pub IsKeyed-find :
    (lo hi k : ℕ) (b : Block) (m : List (ℕ × Block))
    → IsKeyed lo hi m
    → find k m ≡ some b
    → (k ≡ b.addr) × (0 < b.size) × (lo ≤ b.addr) × (end_of b ≤ hi)
unfolding find
IsKeyed-find lo hi k b [] g h = cc
IsKeyed-find lo hi k b ((j, c) ∷ m) g h = ground (arith, IsKeyed-find lo hi k b m)

-- An address that no used block covers is no key.
pub find-none_of_uncovered :
    (lo hi k : ℕ) (m : List (ℕ × Block)) → IsKeyed lo hi m → covers_used k m ≡ 0 → find k m ≡ none
unfolding find
find-none_of_uncovered lo hi k [] g h = refl
find-none_of_uncovered lo hi k ((j, c) ∷ m) g h = ground (arith, find-none_of_uncovered lo hi k m)

-- Every key but the assigned one finds what it found before.
pub find-assign :
    (j k : ℕ) (b : Block) (m : List (ℕ × Block))
    → find j (assign k b m) ≡ (if k == j then some b else find j m)
unfolding find assign
find-assign j k b [] = ground arith
find-assign j k b ((i, c) ∷ m) = ground (arith, find-assign j k b m)

-- A block of the free list lies within its bounds and is not reserved.
pub IsGapped-found :
    (lo hi : ℕ) (before : List Block) (b : Block) (after : List Block)
    → IsGapped lo hi (before ++ (b ∷ after))
    → (lo ≤ b.addr) × (end_of b ≤ hi) × (b.res ≡ false)
IsGapped-found lo hi [] b after g = (g.0, g.2, g.3)
IsGapped-found lo hi (x ∷ before) b after g =
    let inner = IsGapped-found (end_of x + 1) hi before b after g.4 in
    (omega arith, inner.1, inner.2)
