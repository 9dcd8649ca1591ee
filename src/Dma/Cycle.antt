-- ===== src/Dma/Cycle.antt =====
-- Releasing what was just reserved: the pieces that the split left join up again.
use tamago.Prelude.{
  ℕ, ◌+◌, ◌-◌, ◌≤◌, ◌<◌, ◌^◌, ◌≡◌, ◌≢◌, refl, sym, ap, ◌∙◌, inl, inr, Bool, true, false, List, [],
  ◌∷◌, ◌++◌, arith, ◌==◌, Bool-cases, none, some,
}
use tamago.Dma.{
  Block, Region, Slice, Outcome, ok, panic, new_block, merge, defrag, insert_block, free_used,
  free_block, find, assign, delete, piece, alloc, reserve, release, same,
}
use tamago.Dma.Tiling.{
  end_of, IsGapped, IsValid, region_limit, IsGapped-weaken, IsGapped-found, find-assign,
}
use mathlib.Core.Path.{subst, subst₂}
use tamago.Dma.Reserve.{alloc-unused}
use tamago.Dma.Alloc.{alloc-IsAllocated}
use tamago.Dma.Split.{IsGapped-piece}
use tamago.Dma.Merge.{merge-touch, merge-gap}

-- A block in front of the whole list goes to its head.
insert-front :
    (lo hi : ℕ) (u : Block) (bs : List Block)
    → IsGapped lo hi bs
    → u.addr < lo
    → insert_block u bs ≡ u ∷ bs
unfolding insert_block
insert-front lo hi u [] g h = refl
insert-front lo hi u (b ∷ bs) g h = ground arith

-- A block is passed whose address is not higher.
insert-past :
    (u b : Block) (bs : List Block)
    → b.addr ≤ u.addr
    → insert_block u (b ∷ bs) ≡ b ∷ insert_block u bs
unfolding insert_block
insert-past u b bs h = ground arith

-- A list with gaps is left as it is.
merge-gapped :
    (lo hi : ℕ) (p : Block) (bs : List Block)
    → hi < 2 ^ 64
    → IsGapped lo hi (p ∷ bs)
    → merge p bs ≡ p ∷ bs
merge-gapped lo hi p [] w g = unfold merge in refl
merge-gapped lo hi p (b ∷ bs) w g =
    merge-gap p b bs (omega arith) (omega arith)
    ∙ ap (◌∷◌ p) (merge-gapped (end_of p + 1) hi b bs w g.4)

IsGapped-after :
    (lo hi : ℕ) (before : List Block) (b : Block) (after : List Block)
    → IsGapped lo hi (before ++ (b ∷ after))
    → IsGapped b.addr hi (b ∷ after)
IsGapped-after lo hi [] b after g = (omega arith, g.1, g.2, g.3, g.4)
IsGapped-after lo hi (x ∷ before) b after g = IsGapped-after (end_of x + 1) hi before b after g.4

module _ (hi : ℕ) (b : Block) (after : List Block) (w : hi < 2 ^ 64) where
  -- The front part of `b` joins with the piece behind it.
  merge-rest :
      (n : ℕ) (q : Block)
      → IsGapped b.addr hi (b ∷ after)
      → q.addr ≡ b.addr
      → end_of q + n ≡ end_of b
      → q.res ≡ false
      → merge q (piece (end_of q) n ++ after) ≡ b ∷ after
  merge-rest n q g ea es er = elim (Bool-cases (n == 0)) [
    | inl e ↦
        let whole : q ≡ b = ground arith in rw e (rw whole (merge-gapped b.addr hi b after w g))
    | inr e ↦
        let joined : record q { size = q.size + n } ≡ b = ground arith in
        rw e (
          merge-touch q (new_block (end_of q) n) after refl (omega arith)
          ∙ ap (λ t. merge t after) joined
          ∙ merge-gapped b.addr hi b after w g)
  ]

  module _ (pad size : ℕ) (g : IsGapped b.addr hi (b ∷ after)) (pos : 0 < size)
      (room : size + pad ≤ b.size) where
    abbrev taken : Block
    taken = record { addr = b.addr + pad; size = size; res = false }

    abbrev rest : List Block
    rest = piece (end_of taken) (b.size - (size + pad)) ++ after

    -- The whole of `b`, from its three parts.
    defrag-parts : defrag (piece b.addr pad ++ (taken ∷ rest)) ≡ b ∷ after
    unfolding defrag
    defrag-parts = elim (Bool-cases (pad == 0)) [
      | inl e ↦ rw e (merge-rest (b.size - (size + pad)) taken g (ground arith) (omega arith) refl)
      | inr e ↦
          let n = b.size - (size + pad) in
          let front = record taken { addr = b.addr; size = pad + size } in
          let same_end : end_of taken ≡ end_of front = omega arith in
          rw e (
            merge-touch (new_block b.addr pad) taken rest refl (omega arith)
            ∙ ap (λ (x : ℕ). merge front (piece x n ++ after)) same_end
            ∙ merge-rest n front g refl (omega arith) refl)
    ]

    merge-parts :
        (p : Block)
        → end_of p < b.addr
        → merge p (piece b.addr pad ++ (taken ∷ rest)) ≡ p ∷ (b ∷ after)
    unfolding defrag
    merge-parts p h = elim (Bool-cases (pad == 0)) [
      | inl e ↦
          let joined : merge taken rest ≡ b ∷ after = rw e at defrag-parts in
          rw e (merge-gap p taken rest (omega arith) (omega arith) ∙ ap (◌∷◌ p) joined)
      | inr e ↦
          let joined : merge (new_block b.addr pad) (taken ∷ rest) ≡ b ∷ after =
            rw e at defrag-parts in
          rw e
            (merge-gap p (new_block b.addr pad) (taken ∷ rest) h (omega arith) ∙ ap (◌∷◌ p) joined)
    ]

    insert-parts :
        insert_block taken (piece b.addr pad ++ rest) ≡ piece b.addr pad ++ (taken ∷ rest)
    insert-parts =
        let behind : IsGapped (end_of taken) hi rest =
          IsGapped-piece (end_of taken) hi (end_of taken) (b.size - (size + pad)) after
            (omega arith) (omega arith)
            (IsGapped-weaken _ (end_of b + 1) hi after (omega arith) g.4) in
        let front = insert-front (end_of taken) hi taken rest behind (omega arith) in
        elim (Bool-cases (pad == 0)) [
          | inl e ↦ rw e front
          | inr e ↦ rw e (
              insert-past taken (new_block b.addr pad) rest (omega arith)
              ∙ ap (◌∷◌ (new_block b.addr pad)) front)
        ]

    -- The same behind the blocks that stand in front of `b`.
    insert-before :
        (lo : ℕ) (before : List Block)
        → IsGapped lo hi (before ++ (b ∷ after))
        → insert_block taken (before ++ (piece b.addr pad ++ rest))
          ≡ before ++ (piece b.addr pad ++ (taken ∷ rest))
    insert-before lo [] h = insert-parts
    insert-before lo (x ∷ before) h =
        insert-past taken x _ (omega (arith, IsGapped-found (end_of x + 1) hi before b after h.4))
        ∙ ap (◌∷◌ x) (insert-before (end_of x + 1) before h.4)

    merge-before :
        (lo : ℕ) (x : Block) (before : List Block)
        → IsGapped lo hi (x ∷ (before ++ (b ∷ after)))
        → merge x (before ++ (piece b.addr pad ++ (taken ∷ rest))) ≡ x ∷ (before ++ (b ∷ after))
    merge-before lo x [] h = merge-parts x (omega arith)
    merge-before lo x (y ∷ before) h =
        merge-gap x y (before ++ (piece b.addr pad ++ (taken ∷ rest))) (omega arith) (omega arith)
        ∙ ap (◌∷◌ x) (merge-before (end_of x + 1) y before h.4)

    pub defrag-before :
        (lo : ℕ) (before : List Block)
        → IsGapped lo hi (before ++ (b ∷ after))
        → defrag (insert_block taken (before ++ (piece b.addr pad ++ rest))) ≡ before ++ (b ∷ after)
    defrag-before lo [] h = ap defrag insert-parts ∙ defrag-parts
    defrag-before lo (x ∷ before) h =
        ap defrag (insert-before lo (x ∷ before) h) ∙ unfold defrag in merge-before lo x before h

same_self : (b : Bool) → same b b ≡ true
same_self true = refl
same_self false = refl

delete-assign :
    (k : ℕ) (b : Block) (m : List (ℕ × Block)) → find k m ≡ none → delete k (assign k b m) ≡ m
unfolding delete assign find
delete-assign k b [] h = ground arith
delete-assign k b ((j, c) ∷ m) h = ground (arith, delete-assign k b m)

module _ (r : Region) (v : IsValid r) (size align : ℕ) (pos : 0 < size) (hs : size < 2 ^ 63)
    (ha : align < 2 ^ 64) where
  -- The free list that `free` makes of what `alloc` left is the one before both.
  free_list-cycle :
      (b : Block) (r' : Region)
      → alloc r size align ≡ ok (b, r')
      → defrag (insert_block (record b { res = false }) r'.free_blocks) ≡ r.free_blocks
  free_list-cycle b r' e =
      let t = alloc-IsAllocated r size align v hs ha pos b r' e in
      let p = t.first.0 in
      let hi = region_limit r in
      let g : IsGapped r.start hi (p.before ++ (p.found ∷ p.after)) =
        subst (IsGapped r.start hi) t.first.1.whole v.gapped in
      let found : IsGapped p.found.addr hi (p.found ∷ p.after) =
        IsGapped-after r.start hi p.before p.found p.after g in
      let block : record b { res = false }
          ≡ record { addr = p.found.addr + p.pad; size = size; res = false } =
        ground (arith, t.first.2, t.sized) in
      let cut : r'.free_blocks
          ≡ p.before
            ++ (piece p.found.addr p.pad
                ++ (piece (p.found.addr + p.pad + size) (p.found.size - (size + p.pad))
                    ++ p.after)) =
        t.first.4
        ∙ ap
            (λ (x : ℕ).
              p.before
              ++ (piece p.found.addr p.pad ++ (piece x (p.found.size - (size + p.pad)) ++ p.after)))
            (omega arith) in
      rw (block, cut)
        (defrag-before hi p.found p.after v.fits p.pad size found pos t.first.3 r.start p.before g
          ∙ sym t.first.1.whole)

  -- Freeing the block that `alloc` handed out, once it is in the used map.
  pub free_block-assign :
      (b : Block) (r' : Region) (res : Bool)
      → alloc r size align ≡ ok (b, r')
      → b.addr ≢ 0
      → free_block
          (record r' { used_blocks = assign b.addr (record b { res = res }) r'.used_blocks })
          b.addr
          res
        ≡ r
  unfolding free_block free_used
  free_block-assign b r' res e nz =
      let t = alloc-IsAllocated r size align v hs ha pos b r' e in
      let used : Block = record b { res = res } in
      let unused : find b.addr r'.used_blocks ≡ none =
        rw t.used_kept (alloc-unused r r' size align b v pos t) in
      let listed : find b.addr (assign b.addr used r'.used_blocks) ≡ some used =
        ground (arith, find-assign b.addr b.addr used r'.used_blocks) in
      let nonzero : (b.addr == 0) ≡ false = ground arith in
      rw (nonzero, listed, same_self res)
        (ground (
          arith,
          delete-assign b.addr used r'.used_blocks unused,
          free_list-cycle b r' e,
          t.start_kept,
          t.size_kept,
          t.used_kept,
        ))

-- On a valid region, releasing an address that Reserve has just returned gives back the region as it
-- was before, its free list block by block included, unless the address is 0, which Release ignores.
pub release-reserve :
    (r r' : Region) (size align addr : ℕ) (s : Slice)
    → IsValid r
    → 0 < size
    → size < 2 ^ 63
    → align < 2 ^ 64
    → reserve r size align ≡ ok (addr, s, r')
    → addr ≢ 0
    → release r' addr ≡ r
unfolding reserve release
release-reserve r r' size align addr s v pos hs ha e nz = by_outcome (alloc r size align) refl
  where
    by_outcome : (o : Outcome (Block × Region)) → alloc r size align ≡ o → release r' addr ≡ r
    by_outcome (panic f) a = ground arith
    by_outcome (ok (b, q)) a =
        let nonzero : (size == 0) ≡ false = ground arith in
        let back = free_block-assign r v size align pos hs ha b q true a in
        let here : b.addr ≡ addr = ground arith in
        let region : record q {
          used_blocks = assign b.addr (record b { res = true }) q.used_blocks;
        }
            ≡ r' =
          ground arith in
        subst₂ (λ (x : ℕ) (t : Region). free_block t x true ≡ r) here region
          (back (λ z. nz (sym here ∙ z)))
