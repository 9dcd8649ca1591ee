-- ===== src/Virtio/Supply.antt =====
-- The end of Pop and of Push: a descriptor enters the available ring, and the index moves on.
use native.Mathlib.Nat.{mod-lt, mod-eq_of_lt}
use native.Mathlib.Decide.{ℕ_discrete}
use tamago.Prelude.{
  ℕ, ◌+◌, ◌*◌, ◌%◌, ◌^◌, ◌≤◌, ◌<◌, ◌≡◌, refl, ◌∙◌, ◌⊎◌, inr, some, List, length, set, ◌==◌,
  if◌then◌else◌, arith,
}
use tamago.Prelude.Endian.{le_bytes, length-le_bytes}
use tamago.Dma.Memory.{Memory, load, store}
use tamago.Dma.Memory.Laws.{store-outside, load-store_apart}
use tamago.Virtio.{Available, VirtualQueue, set_ring_index, set_index}
use tamago.Virtio.Access.{word, put_lem, set_ring_lem, word-store_self, word-store_apart}
use tamago.Virtio.Ready.{IsLaid, IsReady, slot, entry}

-- The index after the next one.
abbrev pub next : VirtualQueue → ℕ
next q = (q.available.index + 1) % 2 ^ 16

pub slot-lt : (q : VirtualQueue) → IsLaid q → slot q < q.size
slot-lt q l = mod-lt q.available.index l.positive

pub set_ring_index_lem :
    (m : Memory) (q : VirtualQueue) (i id : ℕ)
    → IsLaid q
    → i < q.size
    → set_ring_index m q.available i id
      ≡ some (
        record q.available { ring = set q.available.ring i id },
        store m (entry q i) (le_bytes 2 id),
      )
unfolding set_ring_index
set_ring_index_lem m q i id l h =
    let off : (4 + i * 2) % 2 ^ 16 ≡ 4 + i * 2 = mod-eq_of_lt (omega (arith, l.bounded)) in
    rw
      (
        off,
        put_lem 2 m q.available.buf (4 + i * 2) id (omega (arith, l.available_room)),
        set_ring_lem q.available.ring i id (omega (arith, l.available)),
      )
      refl

pub set_index_lem :
    (m : Memory) (a : Available) (index : ℕ)
    → 4 ≤ a.buf.len
    → set_index m a index
      ≡ some (record a { index = index }, store m (a.buf.ptr + 2) (le_bytes 2 index))
unfolding set_index
set_index_lem m a index h = rw (put_lem 2 m a.buf 2 index (omega arith)) refl

-- The memory with the descriptor `id` in the next slot.
abbrev pub supplied : Memory → VirtualQueue → ℕ → Memory
supplied m q id =
    store (store m (entry q (slot q)) (le_bytes 2 id)) (q.available.buf.ptr + 2)
      (le_bytes 2 (next q))

pub supplied-next :
    (m : Memory) (q : VirtualQueue) (id : ℕ)
    → word 2 (supplied m q id) (q.available.buf.ptr + 2) ≡ next q
supplied-next m q id =
    word-store_self 2 (store m (entry q (slot q)) (le_bytes 2 id)) (q.available.buf.ptr + 2)
      (next q) (omega arith)

pub supplied-entry :
    (m : Memory) (q : VirtualQueue) (id i : ℕ)
    → id < 2 ^ 16
    → word 2 (supplied m q id) (entry q i) ≡ (if i == slot q then id else word 2 m (entry q i))
supplied-entry m q id i h =
    let m1 = store m (entry q (slot q)) (le_bytes 2 id) in
    let index_size = length-le_bytes 2 (next q) in
    let size = length-le_bytes 2 id in
    let skip : word 2 (supplied m q id) (entry q i) ≡ word 2 m1 (entry q i) =
      word-store_apart 2 m1 (q.available.buf.ptr + 2) (entry q i) (le_bytes 2 (next q))
        (inr (omega arith)) in
    skip ∙ elim (ℕ_discrete i (slot q)) [
      | yes e ↦ rw e (word-store_self 2 m (entry q (slot q)) id (omega arith) ∙ ground arith)
      | no ne ↦
          word-store_apart 2 m (entry q (slot q)) (entry q i) (le_bytes 2 id) (ground arith)
          ∙ ground arith
    ]

pub supplied-outside :
    (m : Memory) (q : VirtualQueue) (id a : ℕ)
    → IsLaid q
    → (a < q.available.buf.ptr) ⊎ (q.available.buf.ptr + q.available.buf.len ≤ a)
    → supplied m q id a ≡ m a
supplied-outside m q id a l h =
    let s = slot-lt q l in
    let index_size = length-le_bytes 2 (next q) in
    let size = length-le_bytes 2 id in
    store-outside (store m (entry q (slot q)) (le_bytes 2 id)) (q.available.buf.ptr + 2) a
      (le_bytes 2 (next q)) (ground (arith, l.available_room))
    ∙ store-outside m (entry q (slot q)) a (le_bytes 2 id) (ground (arith, l.available_room))

-- Nothing is written but the slot and the index.
pub supplied-kept :
    (m : Memory) (q : VirtualQueue) (id a : ℕ)
    → (a < q.available.buf.ptr + 2) ⊎ (q.available.buf.ptr + 4 ≤ a)
    → (a < entry q (slot q)) ⊎ (entry q (slot q) + 2 ≤ a)
    → supplied m q id a ≡ m a
supplied-kept m q id a out_index out_slot =
    let index_size = length-le_bytes 2 (next q) in
    let size = length-le_bytes 2 id in
    store-outside (store m (entry q (slot q)) (le_bytes 2 id)) (q.available.buf.ptr + 2) a
      (le_bytes 2 (next q)) (ground arith)
    ∙ store-outside m (entry q (slot q)) a (le_bytes 2 id) (ground arith)

pub load-supplied_outside :
    (m : Memory) (q : VirtualQueue) (id a n : ℕ)
    → IsLaid q
    → (a + n ≤ q.available.buf.ptr) ⊎ (q.available.buf.ptr + q.available.buf.len ≤ a)
    → load (supplied m q id) a n ≡ load m a n
load-supplied_outside m q id a n l h =
    let s = slot-lt q l in
    let index_size = length-le_bytes 2 (next q) in
    let size = length-le_bytes 2 id in
    load-store_apart (store m (entry q (slot q)) (le_bytes 2 id)) (q.available.buf.ptr + 2) a n
      (le_bytes 2 (next q)) (ground (arith, l.available_room))
    ∙ load-store_apart m (entry q (slot q)) a n (le_bytes 2 id) (ground (arith, l.available_room))

-- A queue stays ready when something is stored outside of its available ring.
pub IsReady-store :
    (m : Memory) (q : VirtualQueue) (a : ℕ) (xs : List ℕ)
    → IsReady m q
    → (a + length xs ≤ q.available.buf.ptr) ⊎ (q.available.buf.ptr + q.available.buf.len ≤ a)
    → IsReady (store m a xs) q
IsReady-store m q a xs k h =
    let l = k.laid in
    record {
      laid = l;
      index_small = k.index_small;
      last_small = k.last_small;
      index_seen =
          word-store_apart 2 m a (q.available.buf.ptr + 2) xs (ground (arith, l.available_room))
          ∙ k.index_seen;
      entries = λ i.
          let s : i % q.size < q.size = mod-lt i l.positive in
          rw (word-store_apart 2 m a (entry q (i % q.size)) xs (ground (arith, l.available_room)))
            (k.entries i);
    }

-- And when the memory is supplied, once its index says so.
pub IsReady-supplied :
    (m : Memory) (q q' : VirtualQueue) (id : ℕ)
    → IsReady m q
    → id < q.size
    → IsLaid q'
    → q'.size ≡ q.size
    → q'.available.buf ≡ q.available.buf
    → q'.available.index ≡ next q
    → q'.used.last < 2 ^ 16
    → IsReady (supplied m q id) q'
IsReady-supplied m q q' id k h l same_size same_buf same_index last = record {
  laid = l;
  index_small = omega arith;
  last_small = last;
  index_seen = rw (same_buf, same_index) (supplied-next m q id);
  entries = λ i.
      rw (same_buf, same_size, supplied-entry m q id (i % q.size) (omega (arith, k.laid.bounded)))
        (ground (arith, k.entries i));
}
