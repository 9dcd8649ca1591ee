-- ===== src/Enet/Read.antt =====
-- Read (soc/nxp/enet/dma.go) fills the front of the caller's buffer.
use tamago.Prelude.{
  ℕ, zero, suc, ◌+◌, ◌-◌, ◌%◌, ◌≤◌, ◌<◌, ◌≡◌, refl, sym, ap, ◌∙◌, true, false, some, List, [], ◌∷◌,
  ◌++◌, ltb, leb, length, drop, set, get_elem?, get_elem?-lt, arith,
}
use tamago.Dma.{Slice}
use tamago.Dma.Memory.{Memory, load}
use tamago.Dma.Memory.Laws.{length-load}
use tamago.Enet.{BufferDescriptor, too_small, count, read_bytes, read}

load_one_more : (m : Memory) (a n : ℕ) → load m a (suc n) ≡ load m a n ++ (m (a + n) ∷ [])
unfolding load
load_one_more m a zero = ap (λ k. m k ∷ []) {x = a} {y = a + 0} (omega arith)
load_one_more m a (suc n) =
    ap (λ t. m a ∷ t)
      (load_one_more m (a + 1) n
        ∙ ap (λ k. load m (a + 1) n ++ (m k ∷ [])) {x = a + 1 + n} {y = a + suc n} (omega arith))

set_after : (xs ys : List ℕ) (y v : ℕ) → set (xs ++ (y ∷ ys)) (length xs) v ≡ (xs ++ (v ∷ [])) ++ ys
set_after [] ys y v = refl
set_after (x ∷ xs) ys y v = ap (λ t. x ∷ t) (set_after xs ys y v)

drop_one : (xs : List ℕ) (j x : ℕ) → get_elem? xs j ≡ some x → drop j xs ≡ x ∷ drop (suc j) xs
drop_one [] j x h = cc
drop_one (y ∷ xs) zero x h = let e : y ≡ x = cc in rw e refl
drop_one (y ∷ xs) (suc j) x h = drop_one xs j x h

-- The buffer after `n` bytes of the frame.
abbrev pub filled : Memory → ℕ → List ℕ → ℕ → List ℕ
filled m ptr buf n = load m ptr n ++ drop n buf

filled_one_more :
    (m : Memory) (ptr : ℕ) (buf : List ℕ) (n : ℕ)
    → n < length buf
    → set (filled m ptr buf n) n (m (ptr + n)) ≡ filled m ptr buf (suc n)
filled_one_more m ptr buf n h =
    let (x, e) = get_elem?-lt buf n h in
    ap (λ t. set (load m ptr n ++ t) n (m (ptr + n))) (drop_one buf n x e)
    ∙ ap (λ k. set (load m ptr n ++ (x ∷ drop (suc n) buf)) k (m (ptr + n)))
        (sym (length-load m ptr n))
    ∙ set_after (load m ptr n) (drop (suc n) buf) x (m (ptr + n))
    ∙ ap (λ t. t ++ drop (suc n) buf) (sym (load_one_more m ptr n))

read_bytes_lem :
    (k i n : ℕ) (m : Memory) (s : Slice) (buf : List ℕ)
    → n + i + k ≤ length buf
    → n + i + k ≤ s.len
    → read_bytes k i n m s (filled m s.ptr buf (n + i)) ≡ some (filled m s.ptr buf (n + i + k))
unfolding read_bytes
read_bytes_lem zero i n m s buf h room =
    ap (λ t. some (filled m s.ptr buf t)) {x = n + i} {y = n + i + 0} (omega arith)
read_bytes_lem (suc k) i n m s buf h room =
    let inside : ltb (n + i) s.len ≡ true = ground arith in
    rw inside (
      ap (read_bytes k (i + 1) n m s) (
        filled_one_more m s.ptr buf (n + i) (omega arith)
        ∙ ap (filled m s.ptr buf) {x = suc (n + i)} {y = n + (i + 1)} (omega arith))
      ∙ read_bytes_lem k (i + 1) n m s buf (omega arith) (omega arith)
      ∙ ap (λ t. some (filled m s.ptr buf t)) {x = n + (i + 1) + k} {y = n + i + suc k}
          (omega arith))

-- Read of a frame that fits: all of it but its checksum, in front of what the buffer held.
pub read_lem :
    (bd : BufferDescriptor) (m : Memory) (buf : List ℕ)
    → 4 ≤ bd.length
    → bd.length - 4 ≤ length buf
    → bd.length ≤ bd.data_buffer.len
    → read bd m buf ≡ some (count (bd.length - 4) (filled m bd.data_buffer.ptr buf (bd.length - 4)))
unfolding read
read_lem bd m buf h l room =
    let n = bd.length - 4 in
    let r = n % 8 in
    let s = bd.data_buffer in
    let some_bytes : ltb bd.length 4 ≡ false = ground arith in
    let fits : ltb (length buf) n ≡ false = ground arith in
    let whole : n - r + r ≡ n = omega arith in
    let inside : leb (n - r) s.len ≡ true = ground arith in
    let start : filled m s.ptr buf (n - r) ≡ filled m s.ptr buf (n - r + 0) =
      ap (filled m s.ptr buf) (omega arith) in
    let rest : read_bytes r 0 (n - r) m s (filled m s.ptr buf (n - r))
        ≡ some (filled m s.ptr buf n) =
      ap (read_bytes r 0 (n - r) m s) start
      ∙ read_bytes_lem r 0 (n - r) m s buf (omega arith) (omega arith)
      ∙ ap (λ t. some (filled m s.ptr buf t)) {x = n - r + 0 + r} {y = n} (omega arith) in
    rw (some_bytes, fits, inside, rest, whole) refl

pub read_small :
    (bd : BufferDescriptor) (m : Memory) (buf : List ℕ)
    → 4 ≤ bd.length
    → ltb (length buf) (bd.length - 4) ≡ true
    → read bd m buf ≡ some too_small
unfolding read
read_small bd m buf h small =
    let some_bytes : ltb bd.length 4 ≡ false = ground arith in rw (some_bytes, small) refl
