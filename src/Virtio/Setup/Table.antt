-- ===== src/Virtio/Setup/Table.antt =====
-- The descriptor table and the used ring that Init leaves for the device (kvm/virtio/queue.go).
use mathlib.Core.List.{append-nil, append_assoc}
use tamago.Prelude.{
  ℕ, zero, suc, ◌+◌, ◌*◌, ◌%◌, ◌^◌, ◌<◌, ◌≡◌, refl, sym, ap, ◌∙◌, inl, List, [], ◌∷◌, ◌++◌, length,
  replicate, arith, length-append,
}
use tamago.Prelude.Endian.{le_bytes}
use tamago.Dma.{Slice}
use tamago.Dma.Memory.{Memory, load, store}
use tamago.Dma.Memory.Laws.{load-store_self, load-store_apart}
use tamago.Virtio.Encoding.{
  descriptor_bytes, entry_bytes, table_bytes, available_bytes, ring_bytes, rings_bytes, used_bytes,
  pad_page, queue_bytes, length-used_bytes, length-table_bytes,
}
use tamago.Virtio.Setup.Loop.{parts, no_rings, length-parts, length-no_rings}
use tamago.Virtio.Setup.Layout.{store-append, queue_bytes-prefix}
use tamago.Virtio.Setup.Start.{filled, offsets, device_offset}

-- Bytes with others on both sides.
load-store_within :
    (m : Memory) (p : ℕ) (xs ys zs : List ℕ)
    → load (store m p (xs ++ (ys ++ zs))) (p + length xs) (length ys) ≡ ys
load-store_within m p xs ys zs =
    let at = p + length xs in
    let m1 = store m p xs in
    rw (store-append m p xs (ys ++ zs), store-append m1 at ys zs)
      (load-store_apart (store m1 at ys) (at + length ys) at (length ys) zs (inl (omega arith))
        ∙ load-store_self m1 at ys)

-- The sixteen bytes of a descriptor of `n` bytes at `a`.
abbrev pub table_entry : ℕ → ℕ → ℕ → List ℕ
table_entry a n flags =
    le_bytes 8 a ++ (le_bytes 4 (n % 2 ^ 32) ++ (le_bytes 2 flags ++ le_bytes 2 0))

table_bytes-split :
    (buf : Slice) (n flags k i j : ℕ)
    → j < k
    → (pre : List ℕ) × (post : List ℕ) × (length pre ≡ 16 * j)
      × (table_bytes (parts buf n flags k i)
          ≡ pre ++ (table_entry (buf.ptr + n * (i + j)) n flags ++ post))
unfolding table_bytes descriptor_bytes
table_bytes-split buf n flags zero i j h = absurd (omega arith)
table_bytes-split buf n flags (suc k) i zero h =
    let same : i ≡ i + 0 = omega arith in
    (
      [],
      table_bytes (parts buf n flags k (i + 1)),
      refl,
      ap
          (λ (t : ℕ).
            table_entry (buf.ptr + n * t) n flags ++ table_bytes (parts buf n flags k (i + 1)))
          same,
    )
table_bytes-split buf n flags (suc k) i (suc j) h =
    let (pre, post, size, shape) = table_bytes-split buf n flags k (i + 1) j (omega arith) in
    let first = table_entry (buf.ptr + n * i) n flags in
    let same : i + 1 + j ≡ i + suc j = omega arith in
    (
      first ++ pre,
      post,
      length-append first pre ∙ omega arith,
      ap (λ (t : List ℕ). first ++ t) shape
          ∙ sym (append_assoc first pre _)
          ∙ ap (λ (t : ℕ). (first ++ pre) ++ (table_entry (buf.ptr + n * t) n flags ++ post)) same,
    )

pub filled-table :
    (m : Memory) (buf : Slice) (area n flags size i : ℕ)
    → i < size
    → load (store m area (queue_bytes (filled buf n flags size)).0) (area + i * 16) 16
      ≡ table_entry (buf.ptr + n * i) n flags
filled-table m buf area n flags size i h =
    let d = filled buf n flags size in
    let (rest, shape) = queue_bytes-prefix d in
    let (pre, post, size_of, split) = table_bytes-split buf n flags size 0 i h in
    let entry = table_entry (buf.ptr + n * (0 + i)) n flags in
    let more =
      le_bytes 2 d.available.flags
      ++ (le_bytes 2 d.available.index ++ (entry_bytes d.available.ring ++ rest)) in
    let bytes : (queue_bytes d).0 ≡ pre ++ (entry ++ (post ++ more)) =
      shape
      ∙ ap (λ (t : List ℕ). t ++ more) split
      ∙ append_assoc pre (entry ++ post) more
      ∙ ap (λ (t : List ℕ). pre ++ t) (append_assoc entry post more) in
    let at : area + i * 16 ≡ area + length pre = omega arith in
    let same : 0 + i ≡ i = omega arith in
    rw (bytes, at)
      (load-store_within m area pre entry (post ++ more)
        ∙ ap (λ (t : ℕ). table_entry (buf.ptr + n * t) n flags) same)

pub filled-flags :
    (m : Memory) (buf : Slice) (area n flags size : ℕ)
    → load (store m area (queue_bytes (filled buf n flags size)).0) (area + 16 * size) 2
      ≡ 0 ∷ 0 ∷ []
filled-flags m buf area n flags size =
    let d = filled buf n flags size in
    let table = table_bytes d.descriptors in
    let (rest, shape) = queue_bytes-prefix d in
    let size_of : length table ≡ 16 * size =
      length-table_bytes d.descriptors ∙ ap (λ (k : ℕ). 16 * k) (length-parts buf n flags size 0) in
    let more = le_bytes 2 d.available.index ++ (entry_bytes d.available.ring ++ rest) in
    rw (shape, ← size_of) (load-store_within m area table (le_bytes 2 0) more)

replicate-append : (a b : ℕ) → replicate {A = ℕ} a 0 ++ replicate b 0 ≡ replicate (a + b) 0
replicate-append zero b = ap (λ (t : ℕ). replicate t 0) {x = b} {y = 0 + b} (omega arith)
replicate-append (suc a) b =
    ap (λ (t : List ℕ). 0 ∷ t) (replicate-append a b)
    ∙ ap (λ (t : ℕ). replicate t 0) {x = suc (a + b)} {y = suc a + b} (omega arith)

rings_bytes-zero : (k : ℕ) → rings_bytes (no_rings k) ≡ replicate (8 * k) 0
unfolding rings_bytes ring_bytes
rings_bytes-zero zero = refl
rings_bytes-zero (suc k) =
    ap (λ (t : List ℕ). replicate 8 0 ++ t) (rings_bytes-zero k)
    ∙ replicate-append 8 (8 * k)
    ∙ ap (λ (t : ℕ). replicate t 0) {x = 8 + 8 * k} {y = 8 * suc k} (omega arith)

used_bytes-zero :
    (buf : Slice) (n flags size : ℕ)
    → used_bytes (filled buf n flags size).used ≡ replicate (6 + 8 * size) 0
unfolding used_bytes
used_bytes-zero buf n flags size =
    ap (λ (t : List ℕ). replicate 4 0 ++ (t ++ replicate 2 0)) (rings_bytes-zero size)
    ∙ ap (λ (t : List ℕ). replicate 4 0 ++ t) (replicate-append (8 * size) 2)
    ∙ replicate-append 4 (8 * size + 2)
    ∙ ap (λ (t : ℕ). replicate t 0) {x = 4 + (8 * size + 2)} {y = 6 + 8 * size} (omega arith)

pub filled-used :
    (m : Memory) (buf : Slice) (area n flags size : ℕ)
    → load
        (store m area (queue_bytes (filled buf n flags size)).0)
        (area + device_offset size)
        (6 + 8 * size)
      ≡ replicate (6 + 8 * size) 0
unfolding queue_bytes
filled-used m buf area n flags size =
    let d = filled buf n flags size in
    let front = pad_page (table_bytes d.descriptors ++ available_bytes d.available) in
    let used = used_bytes d.used in
    let place = (offsets buf n flags size).1 in
    let long : length used ≡ 6 + 8 * size =
      length-used_bytes d.used ∙ ap (λ (k : ℕ). 6 + 8 * k) (length-no_rings size) in
    let whole : front ++ used ≡ front ++ (used ++ []) =
      ap (λ (t : List ℕ). front ++ t) (sym (append-nil used)) in
    rw (whole, ← place, ← long)
      (load-store_within m area front used []
        ∙ used_bytes-zero buf n flags size
        ∙ ap (λ (t : ℕ). replicate t 0) (sym long))
