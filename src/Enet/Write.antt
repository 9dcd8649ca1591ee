-- ===== src/Enet/Write.antt =====
-- Write (soc/nxp/enet/dma.go) is a store of the whole buffer.
use tamago.Prelude.{
  ℕ, zero, suc, ◌+◌, ◌-◌, ◌%◌, ◌≤◌, ◌≡◌, refl, sym, ap, ◌∙◌, min, true, some, List, [], ◌∷◌, ◌++◌,
  ltb, length, take, get_elem?, get_elem?-lt, take-length, arith,
}
use tamago.Dma.{Slice}
use tamago.Dma.Memory.{Memory, store, update}
use tamago.Enet.{BufferDescriptor, write_bytes, write}

take_one_more :
    {A : Type 0} (xs : List A) (j : ℕ) (x : A)
    → get_elem? xs j ≡ some x
    → take (suc j) xs ≡ take j xs ++ (x ∷ [])
take_one_more [] j x h = cc
take_one_more (y ∷ xs) zero x h = let e : y ≡ x = cc in rw e refl
take_one_more (y ∷ xs) (suc j) x h = rw (take_one_more xs j x h) refl

store_one_more :
    (m : Memory) (a : ℕ) (xs : List ℕ) (x : ℕ)
    → store m a (xs ++ (x ∷ [])) ≡ update (store m a xs) (a + length xs) x
unfolding store
store_one_more m a [] x = ap (λ k. update m k x) (omega arith)
store_one_more m a (y ∷ xs) x =
    store_one_more (update m a y) (a + 1) xs x
    ∙ ap (λ k. update (store (update m a y) (a + 1) xs) k x) (omega arith)

length_take : (j : ℕ) (xs : List ℕ) → j ≤ length xs → length (take j xs) ≡ j
length_take zero xs h = refl
length_take (suc j) [] h = absurd (omega arith)
length_take (suc j) (x ∷ xs) h = omega (arith, length_take j xs (omega arith))

-- The loop puts the bytes after those that are there.
write_bytes_lem :
    (k i n : ℕ) (m : Memory) (s : Slice) (buf : List ℕ)
    → n + i + k ≤ length buf
    → length buf ≤ s.len
    → write_bytes k i n (store m s.ptr (take (n + i) buf)) s buf
      ≡ some (store m s.ptr (take (n + i + k) buf))
unfolding write_bytes
write_bytes_lem zero i n m s buf h l = ap (λ j. some (store m s.ptr (take j buf))) (omega arith)
write_bytes_lem (suc k) i n m s buf h l =
    let (b, e) = get_elem?-lt buf (n + i) (omega arith) in
    let inside : ltb (n + i) s.len ≡ true = ground arith in
    let more : update (store m s.ptr (take (n + i) buf)) (s.ptr + (n + i)) b
        ≡ store m s.ptr (take (n + (i + 1)) buf) =
      ap (λ j. update (store m s.ptr (take (n + i) buf)) (s.ptr + j) b)
        (sym (length_take (n + i) buf (omega arith)))
      ∙ sym (store_one_more m s.ptr (take (n + i) buf) b)
      ∙ ap (store m s.ptr) (sym (take_one_more buf (n + i) b e))
      ∙ ap (λ j. store m s.ptr (take j buf)) {x = suc (n + i)} {y = n + (i + 1)} (omega arith) in
    rw (inside, e, more)
      (write_bytes_lem k (i + 1) n m s buf (omega arith) l
        ∙ ap (λ j. some (store m s.ptr (take j buf))) (omega arith))

-- Write is a store of the whole buffer.
pub write_lem :
    (bd : BufferDescriptor) (m : Memory) (buf : List ℕ)
    → length buf ≤ bd.data_buffer.len
    → write bd m buf ≡ some (store m bd.data_buffer.ptr buf)
unfolding write
write_lem bd m buf h =
    let r = length buf % 8 in
    let n = length buf - r in
    let part : min bd.data_buffer.len n ≡ n + 0 = omega arith in
    rw part (
      write_bytes_lem r 0 n m bd.data_buffer buf (omega arith) h
      ∙ ap (λ j. some (store m bd.data_buffer.ptr (take j buf))) {x = n + 0 + r} {y = length buf}
          (omega arith)
      ∙ rw (take-length buf) refl)
