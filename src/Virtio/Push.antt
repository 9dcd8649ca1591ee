-- ===== src/Virtio/Push.antt =====
-- What Push does to a queue that is ready.
use native.Mathlib.Nat.{mod-eq_of_lt, mod-lt}
use native.Mathlib.Decide.{ℕ_discrete}
use tamago.Prelude.{
  get_elem?-lt, ℕ, ◌+◌, ◌*◌, ◌%◌, ◌^◌, ◌≤◌, ◌<◌, ◌≡◌, refl, sym, ap, ◌∙◌, ◌⊎◌, inl, inr, false,
  some, List, length, set, take, get_elem?, ◌==◌, min, arith, length-take, length-set,
}
use tamago.Prelude.Endian.{le_bytes, le_value, length-le_bytes}
use tamago.Dma.Memory.{Memory, load, store}
use tamago.Dma.Memory.Laws.{store-outside, load-store_self}
use tamago.Virtio.{Descriptor, Available, VirtualQueue, available_ring, write_descriptor, push}
use tamago.Virtio.Access.{
  word, put_lem, fetch_lem, set_ring_lem, in_range, word-store_self, word-store_apart,
}
use tamago.Virtio.Ready.{
  AllApart-found, AllApart-set, IsLaid, IsLaid-refilled, IsReady, slot, entry,
}
use tamago.Virtio.Supply.{
  next, slot-lt, set_ring_index_lem, set_index_lem, supplied, supplied-next, supplied-entry,
  supplied-kept, load-supplied_outside, IsReady-store, IsReady-supplied,
}

-- The descriptor `id`, which is `d`, has been handed to the device with the contents of `buf`.
pub record IsPushed (m : Memory) (q : VirtualQueue) (buf : List ℕ) (id : ℕ) (d : Descriptor)
    (q' : VirtualQueue) (m' : Memory) : Type 0 where
  pub ready : IsReady m' q'
  pub index_seen : word 2 m' (q.available.buf.ptr + 2) ≡ next q
  pub offered : word 2 m' (entry q (slot q)) ≡ id
  pub entries : (i : ℕ) → word 2 m' (entry q (i % q.size)) ≡ word 2 m (entry q (i % q.size))
  pub length_seen : word 4 m' (q.buf.ptr + (8 + id * 16)) ≡ length buf % 2 ^ 32
  pub data_seen : load m' d.buf.ptr (min d.buf.len (length buf)) ≡ take d.buf.len buf
  pub index : q'.available.index ≡ next q
  pub used_kept : q'.used ≡ q.used
  pub size_kept : q'.size ≡ q.size
  pub kept :
      (a : ℕ)
      → (m' a ≡ m a)
        ⊎ ((q.buf.ptr + (8 + id * 16) ≤ a) × (a < q.buf.ptr + (12 + id * 16)))
        ⊎ ((q.available.buf.ptr + 2 ≤ a) × (a < q.available.buf.ptr + 4))
        ⊎ ((entry q (slot q) ≤ a) × (a < entry q (slot q) + 2))
        ⊎ ((d.buf.ptr ≤ a) × (a < d.buf.ptr + d.buf.len))

-- The first half of Push: the length in the table and the data.
abbrev filled : Memory → VirtualQueue → List ℕ → ℕ → Descriptor → Memory
filled m q buf id d =
    store (store m (q.buf.ptr + (8 + id * 16)) (le_bytes 4 (length buf % 2 ^ 32))) d.buf.ptr
      (take d.buf.len buf)

abbrev pushed : VirtualQueue → List ℕ → ℕ → Descriptor → VirtualQueue
pushed q buf id d = record q {
  descriptors = set q.descriptors id (record d { length = length buf % 2 ^ 32 });
  available = record q.available {
    ring = set (set q.available.ring (slot q) id) (slot q) id;
    index = next q;
  };
}

push_lem :
    (m : Memory) (q : VirtualQueue) (buf : List ℕ) (id : ℕ) (d : Descriptor)
    → IsLaid q
    → id ≡ word 2 m (entry q (slot q))
    → id < q.size
    → get_elem? q.descriptors id ≡ some d
    → push m q buf ≡ some (pushed q buf id d, supplied (filled m q buf id d) q id)
unfolding push available_ring write_descriptor
push_lem m q buf id d l e h found =
    let s = slot-lt q l in
    let nonzero : (q.size == 0) ≡ false = ground (arith, l.positive) in
    let off : (4 + slot q * 2) % 2 ^ 16 ≡ 4 + slot q * 2 =
      mod-eq_of_lt (omega (arith, l.bounded)) in
    let table : (8 + id * 16) % 2 ^ 16 ≡ 8 + id * 16 = mod-eq_of_lt (omega (arith, l.bounded)) in
    let q1 : VirtualQueue = record q {
      available = record q.available { ring = set q.available.ring (slot q) id };
    } in
    let l1 : IsLaid q1 =
      IsLaid-refilled q q.descriptors q1.available q.used l l.descriptors
        (length-set q.available.ring (slot q) id ∙ l.available) l.used refl refl l.apart in
    let m2 = filled m q buf id d in
    let m3 = store m2 (entry q (slot q)) (le_bytes 2 id) in
    let a3 : Available = record q1.available { ring = set q1.available.ring (slot q) id } in
    rw
      (
        nonzero,
        off,
        fetch_lem 2 m q.available.buf (4 + slot q * 2) (omega (arith, l.available_room)),
        ← e,
        set_ring_lem q.available.ring (slot q) id (omega (arith, l.available)),
        table,
        put_lem 4 m q.buf (8 + id * 16) (length buf % 2 ^ 32) (omega (arith, l.table_room)),
        found,
        set_ring_index_lem m2 q1 (slot q) id l1 s,
        set_index_lem m3 a3 (next q) (omega (arith, l.available_room)),
      )
      refl

IsLaid-pushed :
    (q : VirtualQueue) (buf : List ℕ) (id : ℕ) (d : Descriptor)
    → IsLaid q
    → get_elem? q.descriptors id ≡ some d
    → IsLaid (pushed q buf id d)
IsLaid-pushed q buf id d l found =
    let q' = pushed q buf id d in
    IsLaid-refilled q q'.descriptors q'.available q.used l
      (length-set q.descriptors id (record d { length = length buf % 2 ^ 32 }) ∙ l.descriptors)
      (length-set (set q.available.ring (slot q) id) (slot q) id
        ∙ length-set q.available.ring (slot q) id
        ∙ l.available)
      l.used refl refl
      (AllApart-set q.buf.ptr (q.used.buf.ptr + q.used.buf.len) q.descriptors id
        (record d { length = length buf % 2 ^ 32 }) l.apart
        (AllApart-found q.buf.ptr (q.used.buf.ptr + q.used.buf.len) q.descriptors id d l.apart
          found))

pushed-IsPushed :
    (m : Memory) (q : VirtualQueue) (buf : List ℕ) (id : ℕ) (d : Descriptor)
    → IsReady m q
    → id ≡ word 2 m (entry q (slot q))
    → id < q.size
    → get_elem? q.descriptors id ≡ some d
    → IsPushed m q buf id d (pushed q buf id d) (supplied (filled m q buf id d) q id)
pushed-IsPushed m q buf id d k e h found =
    let l = k.laid in
    let s = slot-lt q l in
    let out =
      AllApart-found q.buf.ptr (q.used.buf.ptr + q.used.buf.len) q.descriptors id d l.apart found in
    let m1 = store m (q.buf.ptr + (8 + id * 16)) (le_bytes 4 (length buf % 2 ^ 32)) in
    let m2 = filled m q buf id d in
    let four = length-le_bytes 4 (length buf % 2 ^ 32) in
    let some_bytes : length (take d.buf.len buf) ≤ d.buf.len =
      omega (arith, length-take d.buf.len buf) in
    let k1 : IsReady m1 q =
      IsReady-store m q _ (le_bytes 4 (length buf % 2 ^ 32)) k (inl (omega (arith, l.table))) in
    let k2 : IsReady m2 q =
      IsReady-store m1 q d.buf.ptr (take d.buf.len buf) k1
        (ground (arith, l.table, l.order, l.used_room)) in
    let small : id < 2 ^ 16 = omega (arith, l.bounded) in
    let table = q.buf.ptr + (8 + id * 16) in
    let same : (j : ℕ) → j < q.size → word 2 m2 (entry q j) ≡ word 2 m (entry q j) = λ j b.
      word-store_apart 2 m1 d.buf.ptr (entry q j) (take d.buf.len buf)
        (ground (arith, l.table, l.order, l.available_room))
      ∙ word-store_apart 2 m table (entry q j) (le_bytes 4 (length buf % 2 ^ 32))
          (inr (omega (arith, l.table))) in
    record {
      ready =
          IsReady-supplied m2 q (pushed q buf id d) id k2 h (IsLaid-pushed q buf id d l found) refl
            refl refl k.last_small;
      index_seen = supplied-next m2 q id;
      offered = supplied-entry m2 q id (slot q) small ∙ ground arith;
      entries = λ i.
          let b : i % q.size < q.size = mod-lt i l.positive in
          supplied-entry m2 q id (i % q.size) small ∙ elim (ℕ_discrete (i % q.size) (slot q)) [
            | yes z ↦ rw z (ground arith)
            | no nz ↦ ground (arith, same (i % q.size) b)
          ];
      length_seen =
          ap le_value (load-supplied_outside m2 q id table 4 l (inl (omega (arith, l.table))))
          ∙ word-store_apart 4 m1 d.buf.ptr table (take d.buf.len buf)
              (ground (arith, l.table, l.order))
          ∙ word-store_self 4 m table (length buf % 2 ^ 32) (omega arith);
      data_seen =
          load-supplied_outside m2 q id d.buf.ptr (min d.buf.len (length buf)) l
            (ground (arith, l.table, l.order, l.used_room))
          ∙ ap (load m2 d.buf.ptr) (sym (length-take d.buf.len buf))
          ∙ load-store_self m1 d.buf.ptr (take d.buf.len buf);
      index = refl;
      used_kept = refl;
      size_kept = refl;
      kept = λ a. elim (in_range a table (q.buf.ptr + (12 + id * 16))) [
        | inl b ↦ inr (inl b)
        | inr out1 ↦ elim (in_range a (q.available.buf.ptr + 2) (q.available.buf.ptr + 4)) [
          | inl b ↦ inr (inr (inl b))
          | inr out2 ↦ elim (in_range a (entry q (slot q)) (entry q (slot q) + 2)) [
            | inl b ↦ inr (inr (inr (inl b)))
            | inr out3 ↦ elim (in_range a d.buf.ptr (d.buf.ptr + d.buf.len)) [
              | inl b ↦ inr (inr (inr (inr b)))
              | inr out4 ↦ inl (
                  supplied-kept m2 q id a out2 out3
                  ∙ store-outside m1 d.buf.ptr a (take d.buf.len buf) (ground arith)
                  ∙ store-outside m table a (le_bytes 4 (length buf % 2 ^ 32)) (ground arith))
            ]
          ]
        ]
      ];
    }

-- On a queue that is ready Push succeeds. It takes the descriptor that the next slot of the available
-- ring names, puts the length of the buffer in the descriptor table and the data, as far as there
-- is room, in the descriptor's buffer, and then moves the index that the device sees by one. The
-- entries of the available ring stay, the bytes of that slot are written again with the same entry,
-- all other memory stays, the other fields of the descriptor included, and the queue is ready again.
pub push-IsPushed :
    (m : Memory) (q : VirtualQueue) (buf : List ℕ)
    → IsReady m q
    → (id : ℕ) × (d : Descriptor) × (q' : VirtualQueue) × (m' : Memory) × (id
        ≡ word 2 m (entry q (slot q)))
      × (get_elem? q.descriptors id ≡ some d)
      × (push m q buf ≡ some (q', m'))
      × IsPushed m q buf id d q' m'
push-IsPushed m q buf k =
    let l = k.laid in
    let id = word 2 m (entry q (slot q)) in
    let h : id < q.size = ground (arith, k.entries (slot q), mod-eq_of_lt (slot-lt q l)) in
    let (d, found) = get_elem?-lt q.descriptors id (omega (arith, l.descriptors)) in
    (
      id,
      d,
      pushed q buf id d,
      supplied (filled m q buf id d) q id,
      refl,
      found,
      push_lem m q buf id d l refl h found,
      pushed-IsPushed m q buf id d k refl h found,
    )
