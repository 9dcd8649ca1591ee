-- ===== src/Dma/Merge.antt =====
-- `free` and `defrag` on the free list: the freed block goes to its place, and neighbours that touch
-- become one.
use native.Mathlib.Decide.{ℕ_discrete}
use tamago.Prelude.{
  ℕ, ◌+◌, ◌≤◌, ◌<◌, ◌^◌, ◌≡◌, refl, inl, inr, true, false, List, [], ◌∷◌, arith, ltb, ◌==◌,
  Bool-cases, add64,
}
use tamago.Dma.{Block, merge, defrag, insert_block}
use tamago.Dma.Tiling.{end_of, covers, covers_free, IsGapped, IsOrdered, IsGapped-weaken}

IsOrdered-of_gapped :
    (lo lo' hi : ℕ) (bs : List Block) → lo' ≤ lo → IsGapped lo hi bs → IsOrdered lo' hi bs
IsOrdered-of_gapped lo lo' hi [] h g = tt
IsOrdered-of_gapped lo lo' hi (b ∷ bs) h g = (
  omega arith,
  g.1,
  g.2,
  g.3,
  IsOrdered-of_gapped (end_of b + 1) (end_of b) hi bs (omega arith) g.4,
)

-- A block that no free block overlaps is inserted in address order.
pub insert-IsOrdered :
    (lo hi : ℕ) (u : Block) (bs : List Block)
    → lo ≤ u.addr
    → 0 < u.size
    → end_of u ≤ hi
    → u.res ≡ false
    → ((a : ℕ) → covers a u + covers_free a bs ≤ 1)
    → IsGapped lo hi bs
    → IsOrdered lo hi (insert_block u bs)
unfolding insert_block
insert-IsOrdered lo hi u [] l s h e apart g = (l, s, h, e, tt)
insert-IsOrdered lo hi u (b ∷ bs) l s h e apart g =
    let at_u = apart u.addr in
    let at_b = apart b.addr in
    elim (Bool-cases (ltb u.addr b.addr)) [
      | inl below ↦ rw below (
        l,
        s,
        h,
        e,
        (
          ground arith,
          g.1,
          g.2,
          g.3,
          IsOrdered-of_gapped (end_of b + 1) (end_of b) hi bs (omega arith) g.4,
        ),
      )
      | inr above ↦ rw above (
        g.0,
        g.1,
        g.2,
        g.3,
        insert-IsOrdered (end_of b) hi u bs (ground arith) s h e (λ a. omega (arith, apart a))
            (IsGapped-weaken (end_of b) (end_of b + 1) hi bs (omega arith) g.4),
      )
    ]

pub covers_free-insert :
    (a : ℕ) (u : Block) (bs : List Block)
    → covers_free a (insert_block u bs) ≡ covers a u + covers_free a bs
unfolding insert_block
covers_free-insert a u [] = refl
covers_free-insert a u (b ∷ bs) = ground (arith, covers_free-insert a u bs)

-- One round of `defrag`, for blocks that touch and for blocks that do not.
pub merge-touch :
    (p b : Block) (bs : List Block)
    → end_of p ≡ b.addr
    → end_of b < 2 ^ 64
    → merge p (b ∷ bs) ≡ merge (record p { size = p.size + b.size }) bs
unfolding merge
merge-touch p b bs e w =
    let test : (add64 p.addr p.size == b.addr) ≡ true = ground arith in
    let sum : add64 p.size b.size ≡ p.size + b.size = omega arith in rw (test, merge) (rw sum refl)

pub merge-gap :
    (p b : Block) (bs : List Block)
    → end_of p < b.addr
    → end_of b < 2 ^ 64
    → merge p (b ∷ bs) ≡ p ∷ merge b bs
unfolding merge
merge-gap p b bs e w =
    let test : (add64 p.addr p.size == b.addr) ≡ false = ground arith in rw (test, merge) refl

-- `defrag` leaves a gap between any two blocks.
pub merge-IsGapped :
    (lo hi : ℕ) (p : Block) (bs : List Block)
    → hi < 2 ^ 64
    → IsOrdered lo hi (p ∷ bs)
    → IsGapped lo hi (merge p bs)
merge-IsGapped lo hi p [] w g = unfold merge in g
merge-IsGapped lo hi p (b ∷ bs) w g = elim (ℕ_discrete (end_of p) b.addr) [
  | yes touch ↦
      let joined = record p { size = p.size + b.size } in
      let same_end : end_of joined ≡ end_of b = omega arith in
      rw (merge-touch p b bs touch (omega arith))
        (merge-IsGapped lo hi joined bs w (g.0, omega arith, omega arith, g.3, rw same_end g.4.4))
  | no apart ↦ rw (merge-gap p b bs (omega arith) (omega arith)) (
    g.0,
    g.1,
    g.2,
    g.3,
    merge-IsGapped (end_of p + 1) hi b bs w (omega arith, g.4.1, g.4.2, g.4.3, g.4.4),
  )
]

-- `defrag` covers the bytes that were covered.
pub covers_free-merge :
    (a lo hi : ℕ) (p : Block) (bs : List Block)
    → hi < 2 ^ 64
    → IsOrdered lo hi (p ∷ bs)
    → covers_free a (merge p bs) ≡ covers a p + covers_free a bs
covers_free-merge a lo hi p [] w g = unfold merge in refl
covers_free-merge a lo hi p (b ∷ bs) w g = elim (ℕ_discrete (end_of p) b.addr) [
  | yes touch ↦
      let joined = record p { size = p.size + b.size } in
      let same_end : end_of joined ≡ end_of b = omega arith in
      rw (merge-touch p b bs touch (omega arith)) (
        ground (
          arith,
          covers_free-merge a lo hi joined bs w
              (g.0, omega arith, omega arith, g.3, rw same_end g.4.4),
        ))
  | no apart ↦
      rw (merge-gap p b bs (omega arith) (omega arith))
        (ground (arith, covers_free-merge a (end_of p) hi b bs w g.4))
]

-- The two together, on a list that is empty or not.
pub defrag-IsGapped :
    (lo hi : ℕ) (bs : List Block) → hi < 2 ^ 64 → IsOrdered lo hi bs → IsGapped lo hi (defrag bs)
unfolding defrag
defrag-IsGapped lo hi [] w g = tt
defrag-IsGapped lo hi (b ∷ bs) w g = merge-IsGapped lo hi b bs w g

pub covers_free-defrag :
    (a lo hi : ℕ) (bs : List Block)
    → hi < 2 ^ 64
    → IsOrdered lo hi bs
    → covers_free a (defrag bs) ≡ covers_free a bs
unfolding defrag
covers_free-defrag a lo hi [] w g = refl
covers_free-defrag a lo hi (b ∷ bs) w g = covers_free-merge a lo hi b bs w g
