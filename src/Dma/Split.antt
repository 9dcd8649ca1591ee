-- ===== src/Dma/Split.antt =====
-- The search and the split of `alloc`: where it allocates, and what becomes of the free list.
use native.Mathlib.Nat.{mod-lt, add-mod-mod, zero-mod}
use native.Mathlib.Decide.{dec_lt}
use tamago.Prelude.{
  ℕ, ◌+◌, ◌-◌, ◌%◌, ◌^◌, ◌≤◌, ◌<◌, ◌≡◌, refl, ap, ◌↔◌, ◌∙◌, not, ◌||◌, inl, inr, List, [], ◌∷◌,
  ◌++◌, Option, none, some, arith, leb, ◌==◌, add64, sub64, neg64, bit_and, Bool-cases,
}
use tamago.Prelude.Align.{power_of_two, bit_and_low_mask, pow-mod_pow, pow-lt_exponent}
use tamago.Prelude.Shifts.{pow_pos}
use tamago.Dma.{Block, Place, alignment, padding, past, find_place, carve, piece}
use mathlib.Core.Path.{subst}
use tamago.Dma.Tiling.{end_of, covers, covers_free, covers_free-append, IsGapped, IsGapped-weaken}

-- Whatever is asked for, the alignment that `alloc` works with is a power of two.
pub alignment_power : (align : ℕ) → align < 2 ^ 64 → (k : ℕ) × (alignment align ≡ 2 ^ k)
unfolding alignment
alignment_power align h =
    elim (Bool-cases (align == 0 || not (bit_and align (sub64 align 1) == 0))) [
      | inl e ↦ (3, rw e refl)
      | inr e ↦
          let less : sub64 align 1 ≡ align - 1 = ground arith in
          let test : bit_and align (sub64 align 1) ≡ 0 = ground arith in
          let zero_and : bit_and align (align - 1) ≡ 0 = rw less at test in
          let (k, p) = power_of_two align (ground arith) zero_and in (k, rw e p)
    ]

-- The padding is less than the alignment, and reaches the next multiple of it.
pub padding_lem :
    (b : Block) (align k : ℕ)
    → b.addr < 2 ^ 64
    → align < 2 ^ 64
    → align ≡ 2 ^ k
    → (padding b align < align) × ((b.addr + padding b align) % align ≡ 0)
unfolding padding
padding_lem b align k hb ha e =
    let pos : 0 < 2 ^ k = pow_pos k in
    let less : sub64 align 1 ≡ 2 ^ k - 1 = omega arith in
    let low : bit_and (neg64 b.addr) (sub64 align 1) ≡ neg64 b.addr % 2 ^ k =
      rw less (bit_and_low_mask k (neg64 b.addr)) in
    let exponent : k ≤ 64 = omega (arith, pow-lt_exponent k 64 (omega arith)) in
    let whole : (b.addr + neg64 b.addr) % 2 ^ k ≡ 0 = elim (dec_lt 0 b.addr) [
      | yes p ↦
          let round : b.addr + neg64 b.addr ≡ 2 ^ 64 = omega arith in
          rw round (pow-mod_pow 64 k exponent)
      | no p ↦
          let none_left : b.addr + neg64 b.addr ≡ 0 = omega arith in rw none_left (zero-mod (2 ^ k))
    ] in
    (
      rw low (rw e (mod-lt (neg64 b.addr) pos)),
      rw low (rw e (add-mod-mod b.addr (neg64 b.addr) (2 ^ k) ∙ whole)),
    )

-- A free block that `alloc` passes over, for the alignment that it works with.
abbrev pub IsSmall : ℕ → ℕ → Block → Type 0
IsSmall size align b = b.size < add64 size (padding b align)

abbrev pub AllSmall : ℕ → ℕ → List Block → Type 0
AllSmall size align [] = Unit {0}
AllSmall size align (b ∷ bs) = IsSmall size align b × AllSmall size align bs

-- What the search found in the free list `bs`.
pub record IsPlace (size align : ℕ) (bs : List Block) (p : Place) : Type 0 where
  pub whole : bs ≡ p.before ++ (p.found ∷ p.after)
  pub padded : p.pad ≡ padding p.found align
  pub roomy : add64 size p.pad ≤ p.found.size
  pub passed : AllSmall size align p.before

past-IsPlace :
    (size align : ℕ) (b : Block) (bs : List Block) (q : Option Place) (p : Place)
    → IsSmall size align b
    → ((p' : Place) → q ≡ some p' → IsPlace size align bs p')
    → past b q ≡ some p
    → IsPlace size align (b ∷ bs) p
past-IsPlace size align b bs none p h f e = cc
past-IsPlace size align b bs (some q) p h f e =
    let inner = f q refl in
    let same_place : record q { before = b ∷ q.before } ≡ p = cc in
    subst (IsPlace size align (b ∷ bs)) same_place (record {
      whole = ap (◌∷◌ b) inner.whole;
      padded = inner.padded;
      roomy = inner.roomy;
      passed = (h, inner.passed);
    })

pub find_place-IsPlace :
    (size align : ℕ) (bs : List Block) (p : Place)
    → find_place size align bs ≡ some p
    → IsPlace size align bs p
unfolding find_place
find_place-IsPlace size align [] p e = cc
find_place-IsPlace size align (b ∷ bs) p e =
    elim (Bool-cases (leb (add64 size (padding b align)) b.size)) [
      | inl fits ↦
          let found : record { before = []; found = b; pad = padding b align; after = bs } ≡ p =
            ground arith in
          subst (IsPlace size align (b ∷ bs)) found
            (record { whole = refl; padded = refl; roomy = ground arith; passed = tt })
      | inr small ↦
          past-IsPlace size align b bs (find_place size align bs) p (ground arith)
            (find_place-IsPlace size align bs) (ground arith)
    ]

-- The search fails when no block is large enough, and only then.
pub find_place-none :
    (size align : ℕ) (bs : List Block) → (find_place size align bs ≡ none) ↔ AllSmall size align bs
unfolding find_place
find_place-none size align [] = (λ _. tt, λ _. refl)
find_place-none size align (b ∷ bs) = (
  λ e. (ground arith, (find_place-none size align bs).0 (ground arith)),
  λ h. ground (arith, (find_place-none size align bs).1 h.1),
)

-- Within 64 bits the split takes `size` bytes from the first aligned address of the block.
pub carve_lem :
    (size hi : ℕ) (p : Place)
    → size + p.pad ≤ p.found.size
    → end_of p.found ≤ hi
    → hi < 2 ^ 64
    → carve size p ≡ (
      record p.found { addr = p.found.addr + p.pad; size = size },
      p.before
          ++ (piece p.found.addr p.pad
              ++ (piece (p.found.addr + (size + p.pad)) (p.found.size - (size + p.pad))
                  ++ p.after)),
    )
unfolding carve
carve_lem size hi p h k w =
    let total : add64 size p.pad ≡ size + p.pad = omega arith in
    let left : sub64 p.found.size (size + p.pad) ≡ p.found.size - (size + p.pad) = omega arith in
    let past_it : add64 p.found.addr (size + p.pad) ≡ p.found.addr + (size + p.pad) = omega arith in
    rw (total, left, past_it) (ground arith)

pub IsGapped-piece :
    (lo hi x n : ℕ) (bs : List Block)
    → lo ≤ x
    → x + n ≤ hi
    → IsGapped (x + n + 1) hi bs
    → IsGapped lo hi (piece x n ++ bs)
IsGapped-piece lo hi x n bs l h g = elim (Bool-cases (n == 0)) [
  | inl e ↦ rw e (IsGapped-weaken lo (x + n + 1) hi bs (omega arith) g)
  | inr e ↦ rw e (l, ground arith, h, refl, g)
]

-- Pieces that leave out the bytes between them keep the list in order.
pub IsGapped-pieces :
    (lo hi pad size : ℕ) (before : List Block) (b : Block) (after : List Block)
    → 0 < size
    → size + pad ≤ b.size
    → IsGapped lo hi (before ++ (b ∷ after))
    → IsGapped lo hi (
        before
        ++ (piece b.addr pad ++ (piece (b.addr + (size + pad)) (b.size - (size + pad)) ++ after)))
IsGapped-pieces lo hi pad size [] b after s h g =
    let last : b.addr + (size + pad) + (b.size - (size + pad)) ≡ end_of b = omega arith in
    IsGapped-piece lo hi b.addr pad _ g.0 (omega arith) (
      IsGapped-piece (b.addr + pad + 1) hi (b.addr + (size + pad)) (b.size - (size + pad)) after
        (omega arith) (omega arith) (rw last g.4))
IsGapped-pieces lo hi pad size (x ∷ before) b after s h g =
    (g.0, g.1, g.2, g.3, IsGapped-pieces (end_of x + 1) hi pad size before b after s h g.4)

-- The bytes that a split takes out of the free list are those of the block that it returns.
pub covers-pieces :
    (a pad size : ℕ) (before : List Block) (b : Block) (after : List Block)
    → size + pad ≤ b.size
    → covers a (record b { addr = b.addr + pad; size = size })
        + covers_free a (
            before
            ++ (piece b.addr pad
                ++ (piece (b.addr + (size + pad)) (b.size - (size + pad)) ++ after)))
      ≡ covers_free a (before ++ (b ∷ after))
covers-pieces a pad size before b after h = ground (
  arith,
  covers_free-append a before (b ∷ after),
  covers_free-append a before
      (piece b.addr pad ++ (piece (b.addr + (size + pad)) (b.size - (size + pad)) ++ after)),
  covers_free-append a (piece b.addr pad)
      (piece (b.addr + (size + pad)) (b.size - (size + pad)) ++ after),
  covers_free-append a (piece (b.addr + (size + pad)) (b.size - (size + pad))) after,
)
