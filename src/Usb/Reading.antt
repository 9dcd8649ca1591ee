-- ===== src/Usb/Reading.antt =====
-- A chain of descriptors, each with its length in front, as the host reads it.
use tamago.Prelude.{
  ℕ, zero, suc, ◌≤◌, ◌≡◌, refl, sym, true, ◌&&◌, Option, none, some, List, [], ◌∷◌, ◌++◌, ltb, leb,
  length, take, drop, ◌>>=◌, ◌>>◌, guard, arith, length-append,
}
use mathlib.Core.List.{append_assoc}

-- The host's reading, of at most so many descriptors as the first number says.
unfoldable pub chain : ℕ → List ℕ → Option (List (List ℕ))
chain n [] = some []
chain zero (b ∷ bs) = none
chain (suc n) (b ∷ bs) =
    let rest = chain n (drop b (b ∷ bs)) in
    guard (ltb 0 b && leb b (length (b ∷ bs))) >> (rest >>= λ ds. some (take b (b ∷ bs) ∷ ds))

abbrev pub concat : List (List ℕ) → List ℕ
concat [] = []
concat (d ∷ ds) = d ++ concat ds

-- A descriptor starts with its own length.
unfoldable pub IsDescriptor : List ℕ → Type 0
IsDescriptor [] = ⊥
IsDescriptor (b ∷ bs) = b ≡ length (b ∷ bs)

unfoldable pub AllDescriptors : List (List ℕ) → Type 0
AllDescriptors [] = Unit
AllDescriptors (d ∷ ds) = IsDescriptor d × AllDescriptors ds

take-append : (xs ys : List ℕ) → take (length xs) (xs ++ ys) ≡ xs
take-append [] ys = refl
take-append (x ∷ xs) ys = rw (take-append xs ys) refl

drop-append : (xs ys : List ℕ) → drop (length xs) (xs ++ ys) ≡ ys
drop-append [] ys = refl
drop-append (x ∷ xs) ys = drop-append xs ys

pub chain-concat :
    (n : ℕ) (ds : List (List ℕ)) → length ds ≤ n → AllDescriptors ds → chain n (concat ds) ≡ some ds
unfolding chain AllDescriptors IsDescriptor
chain-concat n [] h a = refl
chain-concat zero (d ∷ ds) h a = absurd (omega arith)
chain-concat (suc n) ([] ∷ ds) h a = absurd a.0
chain-concat (suc n) ((b ∷ bs) ∷ ds) h a =
    let e : b ≡ suc (length bs) = a.0 in
    let test : (ltb 0 b && leb b (length ((b ∷ bs) ++ concat ds))) ≡ true =
      ground (arith, length-append (b ∷ bs) (concat ds)) in
    rw
      (
        test,
        e,
        drop-append bs (concat ds),
        chain-concat n ds (omega arith) a.1,
        take-append bs (concat ds),
      )
      refl

pub concat-append : (ds es : List (List ℕ)) → concat (ds ++ es) ≡ concat ds ++ concat es
concat-append [] es = refl
concat-append (d ∷ ds) es = rw (concat-append ds es) (sym (append_assoc d (concat ds) (concat es)))

pub append-AllDescriptors :
    (ds es : List (List ℕ)) → AllDescriptors ds → AllDescriptors es → AllDescriptors (ds ++ es)
unfolding AllDescriptors
append-AllDescriptors [] es a b = b
append-AllDescriptors (d ∷ ds) es a b = (a.0, append-AllDescriptors ds es a.1 b)

-- Each descriptor has a byte at least.
pub length-concat : (ds : List (List ℕ)) → AllDescriptors ds → length ds ≤ length (concat ds)
unfolding AllDescriptors IsDescriptor
length-concat [] a = omega arith
length-concat ([] ∷ ds) a = absurd a.0
length-concat ((b ∷ bs) ∷ ds) a = omega (arith, length-concat ds a.1, length-append bs (concat ds))
