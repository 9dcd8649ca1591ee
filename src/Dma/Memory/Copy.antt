-- ===== src/Dma/Memory/Copy.antt =====
-- The copy of dma/block_arm64.go, in chunks and single bytes, is a plain copy.
use tamago.Prelude.{
  ℕ, zero, suc, ◌+◌, ◌-◌, ◌%◌, ◌≤◌, ◌<◌, ◌≡◌, refl, sym, ap, ap₂, ◌∙◌, min, true, false, not, inl,
  inr, List, [], ◌∷◌, ◌++◌, length, set, take, drop, length-append, length-take, length-drop,
  take-append-drop, ltb, ◌==◌, ◌&&◌, Bool, some, if◌then◌else◌, Bool-cases, arith,
}
use native.Mathlib.Nat.{mod-le}
use native.Mathlib.Decide.{dec_lt}
use mathlib.Core.List.{append_assoc}
use tamago.Dma.Memory.{chunk, splice, copy_chunks, copy_bytes, copy_aligned}

set-append : (pre ds : List ℕ) (d x : ℕ) → set (pre ++ (d ∷ ds)) (length pre) x ≡ pre ++ (x ∷ ds)
set-append [] ds d x = refl
set-append (p ∷ pre) ds d x = ap (◌∷◌ p) (set-append pre ds d x)

pub drop-append : (pre xs : List ℕ) → drop (length pre) (pre ++ xs) ≡ xs
drop-append [] xs = refl
drop-append (p ∷ pre) xs = drop-append pre xs

-- A segment written behind `pre` replaces what stood there.
splice-append :
    (pre rest seg : List ℕ)
    → length seg ≤ length rest
    → splice (pre ++ rest) (length pre) seg ≡ pre ++ (seg ++ drop (length seg) rest)
unfolding splice
splice-append pre rest [] h = refl
splice-append pre [] (x ∷ seg) h = absurd (omega arith)
splice-append pre (d ∷ rest) (x ∷ seg) h =
    let next : length pre + 1 ≡ length (pre ++ (x ∷ [])) =
      omega (arith, length-append pre (x ∷ [])) in
    let one = splice-append (pre ++ (x ∷ [])) rest seg (omega arith) in
    rw (set-append pre rest d x, next, ← append_assoc pre (x ∷ []) rest)
      (one ∙ append_assoc pre (x ∷ []) _)

-- A loop whose index has passed its end does nothing.
copy_chunks-done : (f i n : ℕ) (dst src : List ℕ) → n ≤ i → copy_chunks f i n dst src ≡ dst
unfolding copy_chunks
copy_chunks-done zero i n dst src h = refl
copy_chunks-done (suc f) i n dst src h = ground arith

take-nil : (k : ℕ) → take {A = ℕ} k [] ≡ []
take-nil zero = refl
take-nil (suc k) = refl

drop-nil : (k : ℕ) → drop {A = ℕ} k [] ≡ []
drop-nil zero = refl
drop-nil (suc k) = refl

take-append-take :
    (m k : ℕ) (xs : List ℕ) → k ≤ m → take k xs ++ take (m - k) (drop k xs) ≡ take m xs
take-append-take m zero xs h = ap (λ (t : ℕ). take t xs) (omega arith)
take-append-take zero (suc k) xs h = absurd (omega arith)
take-append-take (suc m) (suc k) [] h = take-nil (suc m - suc k)
take-append-take (suc m) (suc k) (x ∷ xs) h = ap (◌∷◌ x) (
    ap (λ (t : ℕ). take k xs ++ take t (drop k xs)) (omega arith)
    ∙ take-append-take m k xs (omega arith))

drop-drop : (m k : ℕ) (xs : List ℕ) → drop m (drop k xs) ≡ drop (k + m) xs
drop-drop m zero xs = ap (λ (t : ℕ). drop t xs) (omega arith)
drop-drop m (suc k) [] = drop-nil m ∙ sym (drop-nil (suc k + m))
drop-drop m (suc k) (x ∷ xs) =
    let count : suc k + m ≡ suc (k + m) = omega arith in rw count (drop-drop m k xs)

module _ (m : ℕ) (pre rest more : List ℕ) (e : length rest ≡ length more)
    (l : m ≤ length more) where
  -- One round of the loop copies a chunk, or what is left of the slice.
  copy_round :
      splice (pre ++ rest) (length pre) (
        take
          (min (length pre + chunk) (length pre + m) - length pre)
          (drop (length pre) (pre ++ more)))
      ≡ pre ++ (take (min chunk m) more ++ drop (min chunk m) rest)
  copy_round =
      let count : min (length pre + chunk) (length pre + m) - length pre ≡ min chunk m =
        omega arith in
      let size : length (take (min chunk m) more) ≡ min chunk m =
        omega (arith, length-take (min chunk m) more) in
      rw (count, drop-append pre more)
        (splice-append pre rest (take (min chunk m) more) (omega arith)
          ∙ ap (λ (t : ℕ). pre ++ (take (min chunk m) more ++ drop t rest)) size)

  -- A chunk and what the later rounds copy are together what the loop copies.
  copy_rounds :
      (k : ℕ)
      → k ≤ m
      → (pre ++ take k more) ++ (take (m - k) (drop k more) ++ drop (m - k) (drop k rest))
        ≡ pre ++ (take m more ++ drop m rest)
  copy_rounds k h =
      let all : k + (m - k) ≡ m = omega arith in
      append_assoc pre (take k more) _
      ∙ ap (λ t. pre ++ t)
          (sym (append_assoc (take k more) (take (m - k) (drop k more)) _)
            ∙ ap₂ (λ a b. a ++ b) (take-append-take m k more h)
                (drop-drop (m - k) k rest ∙ ap (λ (t : ℕ). drop t rest) all))

copy_chunks_lem :
    (f m : ℕ) (pre rest more : List ℕ)
    → m < f
    → length rest ≡ length more
    → m ≤ length more
    → copy_chunks f (length pre) (length pre + m) (pre ++ rest) (pre ++ more)
      ≡ pre ++ (take m more ++ drop m rest)
unfolding copy_chunks
copy_chunks_lem zero m pre rest more h e l = absurd (omega arith)
copy_chunks_lem (suc f) zero pre rest more h e l =
    let stop : ltb (length pre) (length pre + 0) ≡ false = ground arith in rw stop refl
copy_chunks_lem (suc f) (suc m) pre rest more h e l =
    let go : ltb (length pre) (length pre + suc m) ≡ true = ground arith in
    rw (go, copy_round (suc m) pre rest more e l)
      (elim (dec_lt chunk (suc m)) [
        | yes many ↦
            let size : length pre + chunk ≡ length (pre ++ take chunk more) =
              omega (arith, length-append pre (take chunk more), length-take chunk more) in
            let end : length pre + suc m ≡ length (pre ++ take chunk more) + (suc m - chunk) =
              omega arith in
            let least : min chunk (suc m) ≡ chunk = omega arith in
            let src : pre ++ more ≡ (pre ++ take chunk more) ++ drop chunk more =
              ap (λ t. pre ++ t) (sym (take-append-drop chunk more))
              ∙ sym (append_assoc pre (take chunk more) (drop chunk more)) in
            rw (least, ← append_assoc pre (take chunk more) (drop chunk rest), src, end, size)
              (copy_chunks_lem f (suc m - chunk) (pre ++ take chunk more) (drop chunk rest)
                  (drop chunk more) (omega arith)
                  (omega (arith, length-drop chunk rest, length-drop chunk more))
                  (omega (arith, length-drop chunk more))
                ∙ copy_rounds (suc m) pre rest more e l chunk (omega arith))
        | no few ↦
            let least : min chunk (suc m) ≡ suc m = omega arith in
            rw least (
              copy_chunks-done f (length pre + chunk) (length pre + suc m) _ (pre ++ more)
                (omega arith))
      ])

copy_bytes-suc :
    (k i n : ℕ) (dst src : List ℕ)
    → copy_bytes (suc k) i n dst src
      ≡ copy_bytes k (i + 1) n (splice dst (n + i) (take 1 (drop (n + i) src))) src
unfolding copy_bytes
copy_bytes-suc k i n dst src = refl

copy_bytes_lem :
    (i n : ℕ) (pre rest more : List ℕ)
    → length rest ≡ length more
    → n + i ≡ length pre
    → copy_bytes (length more) i n (pre ++ rest) (pre ++ more) ≡ pre ++ more
unfolding copy_bytes
copy_bytes_lem i n pre [] [] e h = refl
copy_bytes_lem i n pre [] (x ∷ more) e h = absurd (omega arith)
copy_bytes_lem i n pre (d ∷ rest) [] e h = absurd (omega arith)
copy_bytes_lem i n pre (d ∷ rest) (x ∷ more) e h =
    let next : n + (i + 1) ≡ length (pre ++ (x ∷ [])) = omega (arith, length-append pre (x ∷ [])) in
    let one = splice-append pre (d ∷ rest) (x ∷ []) (omega arith) in
    copy_bytes-suc (length more) i n (pre ++ (d ∷ rest)) (pre ++ (x ∷ more))
    ∙ rw
        (
          h,
          drop-append pre (x ∷ more),
          one,
          ← append_assoc pre (x ∷ []) rest,
          ← append_assoc pre (x ∷ []) more,
        )
        (copy_bytes_lem (i + 1) n (pre ++ (x ∷ [])) rest more (omega arith) next)

-- Whatever the alignments, between slices of one length that are not empty the copy in chunks and single bytes leaves
-- in the destination what the source holds.
pub copy_aligned_lem :
    (dst src : List ℕ) (align off addr : ℕ) (write : Bool)
    → length dst ≡ length src
    → 0 < length src
    → copy_aligned dst src align off addr write ≡ some src
unfolding copy_aligned
copy_aligned_lem dst src align off addr write e pos =
    let present : not (off % align == 0 && length (if write then src else dst) == 0) ≡ true =
      elim (Bool-cases write) [ inl w ↦ rw w (ground arith) | inr w ↦ rw w (ground arith) ] in
    let r = length src % align in
    let n = length src - r in
    let fits : r ≤ length src = mod-le (length src) align in
    let rest : length (drop n src) ≡ r = omega (arith, length-drop n src) in
    let size : length (take n src) ≡ n = omega (arith, length-take n src) in
    let bytes : copy_bytes r 0 n (take n src ++ drop n dst) src ≡ src =
      (rw (rest, take-append-drop n src) at
        (copy_bytes_lem 0 n (take n src) (drop n dst) (drop n src)
          (omega (arith, length-drop n src, length-drop n dst)) (omega arith))) in
    let chunks : copy_chunks (n + 1) 0 n dst src ≡ take n src ++ drop n dst =
      ap (λ (t : ℕ). copy_chunks (n + 1) 0 t dst src) (omega arith)
      ∙ copy_chunks_lem (n + 1) n [] dst src (omega arith) e (omega arith) in
    let whole : splice dst 0 (take n src) ≡ take n src ++ drop n dst =
      splice-append [] dst (take n src) (omega arith)
      ∙ ap (λ (t : ℕ). take n src ++ drop t dst) size in
    elim (Bool-cases (if not (off % align == 0) then true else not (addr % align == 0))) [
      | inl split ↦ rw (present, split, chunks) (ap some bytes)
      | inr plain ↦ rw (present, plain, whole) (ap some bytes)
    ]
