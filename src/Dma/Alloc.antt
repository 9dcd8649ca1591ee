-- ===== src/Dma/Alloc.antt =====
-- What `alloc` returns, and that Reserve keeps the invariant.
use native.Mathlib.Nat.{pow-le-pow_right}
use tamago.Prelude.{
  ℕ, ◌+◌, ◌-◌, ◌%◌, ◌^◌, ◌≤◌, ◌<◌, ◌≡◌, refl, sym, ap, ◌↔◌, ◌∙◌, inl, inr, false, List, ◌++◌, arith,
  Option-cases,
}
use mathlib.Core.Path.{subst, subst₂}
use tamago.Prelude.Align.{pow-lt_exponent}
use tamago.Dma.{
  Block, Region, Place, Outcome, ok, panic, Fault, out_of_memory, alignment, padding, find_place,
  carve, piece, alloc,
}
use tamago.Dma.Tiling.{end_of, covers, covers_free, IsGapped, IsGapped-found, IsValid, region_limit}
use tamago.Dma.Split.{
  alignment_power, padding_lem, AllSmall, IsPlace, find_place-IsPlace, find_place-none, carve_lem,
  IsGapped-pieces, covers-pieces,
}

-- What `alloc` hands out from the region `r`, leaving `r'`.
pub record IsAllocated (r : Region) (size align : ℕ) (b : Block) (r' : Region) : Type 0 where
  pub sized : b.size ≡ size
  pub plain : b.res ≡ false
  pub aligned : b.addr % alignment align ≡ 0
  pub first :
      (p : Place) × IsPlace size (alignment align) r.free_blocks p
      × (b.addr ≡ p.found.addr + p.pad)
      × (size + p.pad ≤ p.found.size)
      × (r'.free_blocks
          ≡ p.before
            ++ (piece p.found.addr p.pad
                ++ (piece (p.found.addr + (size + p.pad)) (p.found.size - (size + p.pad))
                    ++ p.after)))
  pub low : r.start ≤ b.addr
  pub high : end_of b ≤ region_limit r
  pub start_kept : r'.start ≡ r.start
  pub size_kept : r'.size ≡ r.size
  pub used_kept : r'.used_blocks ≡ r.used_blocks
  pub gapped : IsGapped r.start (region_limit r) r'.free_blocks
  pub taken : (a : ℕ) → covers a b + covers_free a r'.free_blocks ≡ covers_free a r.free_blocks

alignment-lt : (a : ℕ) → a < 2 ^ 64 → alignment a < 2 ^ 64
unfolding alignment
alignment-lt a h = ground arith

-- A request that is not negative does not wrap when the padding is added to it.
request_fits :
    (b : Block) (size align : ℕ)
    → b.addr < 2 ^ 64
    → size < 2 ^ 63
    → align < 2 ^ 64
    → (size + padding b (alignment align) < 2 ^ 64)
      × ((b.addr + padding b (alignment align)) % alignment align ≡ 0)
request_fits b size align hb hs ha =
    let (k, e) = alignment_power align ha in
    let bound = alignment-lt align ha in
    let small : 2 ^ k ≤ 2 ^ 63 =
      pow-le-pow_right {n = 2} (omega arith) {j = 63}
        (omega (arith, pow-lt_exponent k 64 (omega arith))) in
    let pad = padding_lem b (alignment align) k hb bound e in (omega arith, pad.1)

ok-injective :
    (b c : Block) (r q : Region)
    → ◌≡◌ {A = Outcome (Block × Region)} (ok (b, r)) (ok (c, q))
    → (b ≡ c) × (r ≡ q)
ok-injective b c r q e = (cc, cc)

module _ (r : Region) (size align : ℕ) (v : IsValid r) (hs : size < 2 ^ 63) (ha : align < 2 ^ 64)
    (pos : 0 < size) where
  place-IsAllocated :
      (p : Place) (b : Block) (free : List Block)
      → IsPlace size (alignment align) r.free_blocks p
      → carve size p ≡ (b, free)
      → IsAllocated r size align b (record r { free_blocks = free })
  place-IsAllocated p b free q e =
      let inside =
        IsGapped-found r.start (region_limit r) p.before p.found p.after
          (subst (IsGapped r.start (region_limit r)) q.whole v.gapped) in
      let request = request_fits p.found size align (omega (arith, v.fits)) hs ha in
      let room : size + p.pad ≤ p.found.size = omega (arith, q.roomy, q.padded) in
      let split = carve_lem size (region_limit r) p room inside.1 v.fits in
      subst
        (λ (t : Block × List Block). IsAllocated r size align t.0 (record r { free_blocks = t.1 }))
        (sym split ∙ e)
        (record {
          sized = refl;
          plain = inside.2;
          aligned = rw q.padded request.1;
          first = (p, q, refl, room, refl);
          low = omega arith;
          high = omega arith;
          start_kept = refl;
          size_kept = refl;
          used_kept = refl;
          gapped =
              IsGapped-pieces r.start (region_limit r) p.pad size p.before p.found p.after pos room
                (subst (IsGapped r.start (region_limit r)) q.whole v.gapped);
          taken = λ a.
              covers-pieces a p.pad size p.before p.found p.after room
              ∙ ap (covers_free a) (sym q.whole);
        })

  pub alloc-IsAllocated :
      (b : Block) (r' : Region) → alloc r size align ≡ ok (b, r') → IsAllocated r size align b r'
  unfolding alloc
  alloc-IsAllocated b r' e = elim (Option-cases (find_place size (alignment align) r.free_blocks)) [
    | inl nowhere ↦ ground arith
    | inr (p, found) ↦
        let c : Block = (carve size p).0 in
        let free : List Block = (carve size p).1 in
        let result =
          ok-injective c b (record r { free_blocks = free }) r' (rw (found, alloc) at e) in
        let block : c ≡ b = result.0 in
        let region : record r { free_blocks = free } ≡ r' = result.1 in
        subst₂ (IsAllocated r size align) block region (
          place-IsAllocated p c free
            (find_place-IsPlace size (alignment align) r.free_blocks p found) refl)
  ]

  -- The only fault of `alloc` is lack of memory.
  pub alloc-panic :
      (f : Fault)
      → alloc r size align ≡ panic f
      → (f ≡ out_of_memory) × AllSmall size (alignment align) r.free_blocks
  unfolding alloc
  alloc-panic f e =
      let search = find_place-none size (alignment align) r.free_blocks in
      elim (Option-cases (find_place size (alignment align) r.free_blocks)) [
        | inl nowhere ↦ (ground arith, search.0 nowhere)
        | inr (p, found) ↦ absurd (ground arith)
      ]

  -- `alloc` panics when no free block has room, and only then.
  pub alloc-out_of_memory :
      (alloc r size align ≡ panic out_of_memory) ↔ AllSmall size (alignment align) r.free_blocks
  unfolding alloc
  alloc-out_of_memory =
      let search = find_place-none size (alignment align) r.free_blocks in
      elim (Option-cases (find_place size (alignment align) r.free_blocks)) [
        | inl nowhere ↦ (λ _. search.0 nowhere, λ _. ground arith)
        | inr (p, found) ↦ (λ e. absurd (ground arith), λ h. let e = search.1 h in ground arith)
      ]
