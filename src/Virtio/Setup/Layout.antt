-- ===== src/Virtio/Setup/Layout.antt =====
-- What the device reads in the memory that Init has filled.
use mathlib.Core.List.{append-nil, append_assoc}
use native.Mathlib.Nat.{mul-suc, mul-add}
use tamago.Prelude.{
  ℕ, zero, suc, ◌+◌, ◌-◌, ◌*◌, ◌/◌, ◌%◌, ◌^◌, ◌≤◌, ◌<◌, ◌≡◌, refl, sym, ap, ◌∙◌, ◌⊎◌, inl, inr,
  some, List, [], ◌∷◌, ◌++◌, length, replicate, get_elem?, ◌==◌, arith, Bool-cases, length-append,
}
use tamago.Prelude.Endian.{le_bytes}
use tamago.Dma.{Slice}
use tamago.Dma.Memory.{Memory, update, load, store}
use tamago.Dma.Memory.Laws.{store-outside}
use tamago.Virtio.{VirtualQueue}
use tamago.Virtio.Encoding.{
  table_bytes, entry_bytes, available_bytes, used_bytes, pad_page, queue_bytes, page_size,
}
use tamago.Virtio.Access.{word}
use tamago.Virtio.Ready.{AllApart}
use tamago.Virtio.Setup.Loop.{parts, numbers}

pub store-append :
    (m : Memory) (p : ℕ) (xs ys : List ℕ)
    → store m p (xs ++ ys) ≡ store (store m p xs) (p + length xs) ys
unfolding store
store-append m p [] ys = ap (λ (a : ℕ). store m a ys) (omega arith)
store-append m p (x ∷ xs) ys =
    let at : p + 1 + length xs ≡ p + suc (length xs) = omega arith in
    store-append (update m p x) (p + 1) xs ys
    ∙ ap (λ (a : ℕ). store (store (update m p x) (p + 1) xs) a ys) at

-- A word with bytes on both sides of it.
pub word-store_within :
    (m : Memory) (p v : ℕ) (xs zs : List ℕ)
    → v < 2 ^ 16
    → word 2 (store m p (xs ++ (le_bytes 2 v ++ zs))) (p + length xs) ≡ v
unfolding store load
word-store_within m p v xs zs h =
    let at = p + length xs in
    let m1 = update (update (store m p xs) at (v % 256)) (at + 1) (v / 256 % 256) in
    let first : store m1 (at + 1 + 1) zs at ≡ m1 at =
      store-outside m1 (at + 1 + 1) at zs (inl (omega arith)) in
    let second : store m1 (at + 1 + 1) zs (at + 1) ≡ m1 (at + 1) =
      store-outside m1 (at + 1 + 1) (at + 1) zs (inl (omega arith)) in
    rw (store-append m p xs (le_bytes 2 v ++ zs), first, second) (ground arith)

-- The words of a ring.
pub word-entry_bytes :
    (m : Memory) (p v i : ℕ) (xs ns zs : List ℕ)
    → get_elem? ns i ≡ some v
    → v < 2 ^ 16
    → word 2 (store m p (xs ++ (entry_bytes ns ++ zs))) (p + (length xs + i * 2)) ≡ v
unfolding entry_bytes
word-entry_bytes m p v i xs [] zs e h = ground arith
word-entry_bytes m p v zero xs (n ∷ ns) zs e h =
    let same : n ≡ v = ground arith in
    let at : length xs + 0 * 2 ≡ length xs = omega arith in
    rw (same, at) (word-store_within m p v xs (entry_bytes ns ++ zs) h)
word-entry_bytes m p v (suc i) xs (n ∷ ns) zs e h =
    let more = word-entry_bytes m p v i (xs ++ le_bytes 2 n) ns zs e h in
    let bytes : (xs ++ le_bytes 2 n) ++ (entry_bytes ns ++ zs)
        ≡ xs ++ (entry_bytes (n ∷ ns) ++ zs) =
      append_assoc xs (le_bytes 2 n) (entry_bytes ns ++ zs) in
    let at : length (xs ++ le_bytes 2 n) + i * 2 ≡ length xs + suc i * 2 =
      omega (arith, length-append xs (le_bytes 2 n)) in
    sym (ap (λ (ys : List ℕ). word 2 (store m p ys) (p + (length xs + suc i * 2))) bytes)
    ∙ sym (
        ap (λ (t : ℕ). word 2 (store m p ((xs ++ le_bytes 2 n) ++ (entry_bytes ns ++ zs))) (p + t))
          at)
    ∙ more

pad_page-append : (buf : List ℕ) → (zs : List ℕ) × (pad_page buf ≡ buf ++ zs)
unfolding pad_page
pad_page-append buf = elim (Bool-cases (length buf % page_size == 0)) [
  | inl e ↦ ([], rw e (sym (append-nil buf)))
  | inr e ↦ (replicate (page_size - length buf % page_size) 0, rw e refl)
]

-- A queue's bytes up to the entries of its available ring.
pub queue_bytes-prefix :
    (d : VirtualQueue)
    → (rest : List ℕ) × ((queue_bytes d).0
        ≡ table_bytes d.descriptors
          ++ (le_bytes 2 d.available.flags
              ++ (le_bytes 2 d.available.index ++ (entry_bytes d.available.ring ++ rest))))
unfolding queue_bytes available_bytes
queue_bytes-prefix d =
    let table = table_bytes d.descriptors in
    let ring = available_bytes d.available in
    let used = used_bytes d.used in
    let event = le_bytes 2 d.available.event_index in
    let (zs, padded) = pad_page-append (table ++ ring) in
    let outer : pad_page (table ++ ring) ++ used ≡ table ++ (ring ++ (zs ++ used)) =
      ap (λ (b : List ℕ). b ++ used) padded
      ∙ append_assoc (table ++ ring) zs used
      ∙ append_assoc table ring (zs ++ used) in
    let inner = append_assoc (entry_bytes d.available.ring) event (zs ++ used) in
    (
      event ++ (zs ++ used),
      outer
          ∙ ap
              (λ (b : List ℕ).
                table ++ (le_bytes 2 d.available.flags ++ (le_bytes 2 d.available.index ++ b)))
              inner,
    )

pub get_elem?-numbers : (k i j : ℕ) → j < k → get_elem? (numbers k i) j ≡ some ((i + j) % 2 ^ 16)
get_elem?-numbers zero i j h = absurd (omega arith)
get_elem?-numbers (suc k) i zero h =
    ap (λ (t : ℕ). some (t % 2 ^ 16)) {x = i} {y = i + 0} (omega arith)
get_elem?-numbers (suc k) i (suc j) h =
    get_elem?-numbers k (i + 1) j (omega arith)
    ∙ ap (λ (t : ℕ). some (t % 2 ^ 16)) {x = i + 1 + j} {y = i + suc j} (omega arith)

pub AllApart-parts :
    (buf : Slice) (n flags k i lo hi : ℕ)
    → n * (i + k) ≤ buf.len
    → (buf.ptr + buf.len ≤ lo) ⊎ (hi ≤ buf.ptr)
    → AllApart lo hi (parts buf n flags k i)
AllApart-parts buf n flags zero i lo hi h e = tt
AllApart-parts buf n flags (suc k) i lo hi h e =
    let split : n * (i + suc k) ≡ n * i + (n * k + n) =
      mul-add n i (suc k) ∙ ap (λ (t : ℕ). n * i + t) (mul-suc n k) in
    let moved : n * (i + 1 + k) ≡ n * (i + suc k) = ap (λ (t : ℕ). n * t) (omega arith) in
    (ground arith, AllApart-parts buf n flags k (i + 1) lo hi (omega arith) e)
