-- ===== src/Dma/Free.antt =====
-- What Free and Release do to the region.
use native.Mathlib.Decide.{ℕ_discrete}
use tamago.Prelude.{
  ℕ, ◌+◌, ◌≡◌, ◌≢◌, refl, ◌∙◌, ◌⊎◌, inl, inr, Bool, true, false, List, [], ◌∷◌, arith, ◌==◌,
  if◌then◌else◌, Option-cases, none, some,
}
use tamago.Dma.{Block, Region, defrag, insert_block, free_used, free_block, find, delete, same}
use tamago.Dma.Tiling.{
  covers, covers_free, IsValid, region_limit, covers_used-delete, IsKeyed-delete, IsKeyed-find,
  find-none_of_uncovered,
}
use tamago.Dma.Merge.{insert-IsOrdered, covers_free-insert, defrag-IsGapped, covers_free-defrag}

pub find-delete_ne : (j k : ℕ) (m : List (ℕ × Block)) → j ≢ k → find j (delete k m) ≡ find j m
unfolding find delete
find-delete_ne j k [] h = refl
find-delete_ne j k ((i, c) ∷ m) h = ground (arith, find-delete_ne j k m)

-- The used block `b` at `addr` has become free space, and nothing else has changed.
pub record IsFreed (r : Region) (addr : ℕ) (b : Block) (r' : Region) : Type 0 where
  pub used : (k : ℕ) → find k r'.used_blocks ≡ (if addr == k then none else find k r.used_blocks)
  pub given : (a : ℕ) → covers_free a r'.free_blocks ≡ covers a b + covers_free a r.free_blocks
  pub start_kept : r'.start ≡ r.start
  pub size_kept : r'.size ≡ r.size
  pub valid : IsValid r'

-- On a valid region Free of a block of Alloc, or Release of a block of Reserve, takes the block out of
-- the used map and gives exactly its bytes to the free list; all other used blocks stay, and the
-- region is valid again, so that touching free blocks have been joined.
pub free_block-IsFreed :
    (r : Region) (addr : ℕ) (res : Bool) (b : Block)
    → IsValid r
    → addr ≢ 0
    → find addr r.used_blocks ≡ some b
    → b.res ≡ res
    → IsFreed r addr b (free_block r addr res)
unfolding free_block free_used
free_block-IsFreed r addr res b v nz e k =
    let kind : same b.res res ≡ true = ground arith in
    let nonzero : (addr == 0) ≡ false = ground arith in
    let lo = r.start in
    let hi = region_limit r in
    let u : Block = record b { res = false } in
    let where_b = IsKeyed-find lo hi addr b r.used_blocks v.keyed e in
    let without = λ (a : ℕ). covers_used-delete a addr b r.used_blocks e in
    let ordered =
      insert-IsOrdered lo hi u r.free_blocks where_b.2 where_b.1 where_b.3 refl
        (λ a. ground (arith, v.tiled a, without a)) v.gapped in
    let covered : (a : ℕ)
        → covers_free a (defrag (insert_block u r.free_blocks))
          ≡ covers a b + covers_free a r.free_blocks =
      λ a.
        covers_free-defrag a lo hi (insert_block u r.free_blocks) v.fits ordered
        ∙ covers_free-insert a u r.free_blocks in
    let gone : find addr (delete addr r.used_blocks) ≡ none =
      find-none_of_uncovered lo hi addr (delete addr r.used_blocks)
        (IsKeyed-delete lo hi addr r.used_blocks v.keyed)
        (ground (arith, v.tiled addr, without addr, where_b.0)) in
    rw (nonzero, e, kind)
      (record {
        used = λ j. ground (arith, gone, find-delete_ne j addr r.used_blocks);
        given = covered;
        start_kept = refl;
        size_kept = refl;
        valid = record {
          fits = v.fits;
          gapped = defrag-IsGapped lo hi (insert_block u r.free_blocks) v.fits ordered;
          keyed = IsKeyed-delete lo hi addr r.used_blocks v.keyed;
          tiled = λ a. omega (arith, v.tiled a, covered a, without a);
        };
      })

same-ne : (a b : Bool) → a ≢ b → same a b ≡ false
same-ne true true h = absurd (h refl)
same-ne true false h = refl
same-ne false true h = refl
same-ne false false h = absurd (h refl)

Bool-discrete : Discrete Bool
Bool-discrete = hlevel

-- Free and Release leave the region as it is for the address 0, for an address that is not in the
-- used map, and for a block of the other kind.
pub free_block-ignored :
    (r : Region) (addr : ℕ) (res : Bool)
    → (addr ≡ 0)
      ⊎ (find addr r.used_blocks ≡ none)
      ⊎ ((b : Block) × (find addr r.used_blocks ≡ some b) × (b.res ≢ res))
    → free_block r addr res ≡ r
unfolding free_block
free_block-ignored r addr res (inl e) = ground arith
free_block-ignored r addr res (inr (inl e)) = ground arith
free_block-ignored r addr res (inr (inr (b, e, h))) = ground (arith, e, same-ne b.res res h)

-- Whatever is freed, the region stays valid.
pub free_block-IsValid :
    (r : Region) (addr : ℕ) (res : Bool) → IsValid r → IsValid (free_block r addr res)
free_block-IsValid r addr res v = elim (ℕ_discrete addr 0) [
  | yes z ↦ rw (free_block-ignored r addr res (inl z)) v
  | no nz ↦ elim (Option-cases (find addr r.used_blocks)) [
    | inl e ↦ rw (free_block-ignored r addr res (inr (inl e))) v
    | inr (b, e) ↦ elim (Bool-discrete b.res res) [
      | yes k ↦ (free_block-IsFreed r addr res b v nz e k).valid
      | no k ↦ rw (free_block-ignored r addr res (inr (inr (b, e, k)))) v
    ]
  ]
]

-- Freeing a second time does nothing: on a valid region, after a block of Alloc is freed, or one of Reserve
-- released, both Free and Release of its address leave the region as it is.
pub free_block-twice :
    (r : Region) (addr : ℕ) (res again : Bool) (b : Block)
    → IsValid r
    → addr ≢ 0
    → find addr r.used_blocks ≡ some b
    → b.res ≡ res
    → free_block (free_block r addr res) addr again ≡ free_block r addr res
free_block-twice r addr res again b v nz e k =
    let gone : find addr (free_block r addr res).used_blocks ≡ none =
      ground (arith, (free_block-IsFreed r addr res b v nz e k).used addr) in
    free_block-ignored (free_block r addr res) addr again (inr (inl gone))
