-- ===== src/Virtio/Pop.antt =====
-- What Pop does to a queue that is ready, and when it fails.
use native.Mathlib.Nat.{mod-eq_of_lt, mod-lt}
use tamago.Prelude.{
  get_elem?-lt, ℕ, ◌+◌, ◌-◌, ◌*◌, ◌%◌, ◌^◌, ◌≤◌, ◌<◌, ◌≡◌, ◌≢◌, refl, ◌∙◌, ◌⊎◌, inl, inr, true,
  false, some, List, ◌++◌, length, set, drop, get_elem?, ◌==◌, min, if◌then◌else◌, arith,
  length-set, length-append, length-drop, ltb, leb,
}
use tamago.Prelude.Endian.{le_bytes}
use tamago.Dma.Memory.{Memory, load, store}
use tamago.Dma.Memory.Laws.{length-load}
use tamago.Virtio.{
  Descriptor, Available, Ring, Used, VirtualQueue, empty, too_small, received, used_index,
  decode_ring, used_ring, read_descriptor, pop,
}
use tamago.Virtio.Access.{word, fetch_lem, in_range}
use tamago.Virtio.Ready.{IsLaid, IsLaid-refilled, IsReady, slot, entry}
use tamago.Virtio.Supply.{
  next, slot-lt, set_ring_index_lem, set_index_lem, supplied, supplied-next, supplied-entry,
  supplied-outside, IsReady-supplied,
}

-- What the device has written: its index, and the entry of the used ring that Pop reads next.
abbrev pub device_index : Memory → VirtualQueue → ℕ
device_index m q = word 2 m (q.used.buf.ptr + 2)

abbrev pub used_slot : VirtualQueue → ℕ
used_slot q = q.used.last % q.size

abbrev pub returned : Memory → VirtualQueue → Ring
returned m q = record {
  index = word 4 m (q.used.buf.ptr + (4 + used_slot q * 8));
  length = word 4 m (q.used.buf.ptr + (4 + used_slot q * 8) + 4);
}

-- What Pop has read of the used ring.
abbrev pub seen : Memory → VirtualQueue → Used
seen m q = record q.used {
  index = device_index m q;
  ring = set q.used.ring (used_slot q) (returned m q);
}

pub used_index_lem :
    (m : Memory) (q : VirtualQueue)
    → IsLaid q
    → used_index m q.used ≡ some (device_index m q, record q.used { index = device_index m q })
unfolding used_index
used_index_lem m q l = rw (fetch_lem 2 m q.used.buf 2 (omega (arith, l.used_room))) refl

used_slot-lt : (q : VirtualQueue) → IsLaid q → used_slot q < q.size
used_slot-lt q l = mod-lt q.used.last l.positive

pub used_ring_lem :
    (m : Memory) (q : VirtualQueue)
    → IsLaid q
    → used_ring m (record q.used { index = device_index m q }) (used_slot q)
      ≡ some (returned m q, seen m q)
unfolding used_ring decode_ring
used_ring_lem m q l =
    let s = used_slot-lt q l in
    let off : (4 + used_slot q * 8) % 2 ^ 16 ≡ 4 + used_slot q * 8 =
      mod-eq_of_lt (omega (arith, l.bounded)) in
    let room : leb (4 + used_slot q * 8) q.used.buf.len ≡ true = ground (arith, l.used_room) in
    let entry_room : leb (4 + used_slot q * 8 + 8) q.used.buf.len ≡ true =
      ground (arith, l.used_room) in
    let (old, found) = get_elem?-lt q.used.ring (used_slot q) (omega (arith, l.used)) in
    rw (off, room, found, entry_room) refl

pub pop-empty :
    (m : Memory) (q : VirtualQueue) (buf : List ℕ)
    → IsLaid q
    → device_index m q ≡ q.used.last
    → pop m q buf ≡ some (empty, record q { used = record q.used { index = device_index m q } }, m)
unfolding pop
pop-empty m q buf l e =
    let same : (device_index m q == q.used.last) ≡ true = ground arith in
    rw (used_index_lem m q l, same) refl

pub pop-too_small :
    (m : Memory) (q : VirtualQueue) (buf : List ℕ)
    → IsLaid q
    → device_index m q ≢ q.used.last
    → length buf < (returned m q).length
    → pop m q buf ≡ some (too_small, record q { used = seen m q }, m)
unfolding pop
pop-too_small m q buf l ne h =
    let differs : (device_index m q == q.used.last) ≡ false = ground arith in
    let nonzero : (q.size == 0) ≡ false = ground (arith, l.positive) in
    let small : ltb (length buf) (returned m q).length ≡ true = ground arith in
    rw (used_index_lem m q l, differs, nonzero, used_ring_lem m q l, small) refl

-- The queue after a successful Pop.
abbrev popped : Memory → VirtualQueue → VirtualQueue
popped m q = record q {
  available = record q.available {
    ring = set q.available.ring (slot q) (returned m q).index;
    index = next q;
  };
  used = record (seen m q) { last = (q.used.last + 1) % 2 ^ 16 };
}

pop_lem :
    (m : Memory) (q : VirtualQueue) (buf : List ℕ) (d : Descriptor)
    → IsLaid q
    → device_index m q ≢ q.used.last
    → (returned m q).length ≤ length buf
    → (returned m q).index < q.size
    → get_elem? q.descriptors (returned m q).index ≡ some d
    → pop m q buf
      ≡ some (
        received (returned m q).length (read_descriptor m d buf),
        popped m q,
        supplied m q (returned m q).index,
      )
unfolding pop
pop_lem m q buf d l ne h small found =
    let id = (returned m q).index in
    let differs : (device_index m q == q.used.last) ≡ false = ground arith in
    let nonzero : (q.size == 0) ≡ false = ground (arith, l.positive) in
    let enough : ltb (length buf) (returned m q).length ≡ false = ground arith in
    let word_id : id % 2 ^ 16 ≡ id = mod-eq_of_lt (omega (arith, l.bounded)) in
    let m1 = store m (entry q (slot q)) (le_bytes 2 id) in
    let a1 : Available = record q.available { ring = set q.available.ring (slot q) id } in
    rw
      (
        used_index_lem m q l,
        differs,
        nonzero,
        used_ring_lem m q l,
        enough,
        found,
        word_id,
        set_ring_index_lem m q (slot q) id l (slot-lt q l),
        set_index_lem m1 a1 (next q) (omega (arith, l.available_room)),
      )
      refl

IsLaid-popped : (m : Memory) (q : VirtualQueue) → IsLaid q → IsLaid (popped m q)
IsLaid-popped m q l =
    IsLaid-refilled q q.descriptors (popped m q).available (popped m q).used l l.descriptors
      (length-set q.available.ring (slot q) (returned m q).index ∙ l.available)
      (length-set q.used.ring (used_slot q) (returned m q) ∙ l.used) refl refl l.apart

-- One used buffer has been taken from the device, and its descriptor `d` is offered again.
pub record IsPopped (m : Memory) (q : VirtualQueue) (buf : List ℕ) (d : Descriptor) (out : List ℕ)
    (q' : VirtualQueue) (m' : Memory) : Type 0 where
  pub ready : IsReady m' q'
  pub out_length : length out ≡ length buf
  pub contents :
      out ≡ load m d.buf.ptr (min (length buf) d.buf.len) ++ drop (min (length buf) d.buf.len) buf
  pub index_seen : word 2 m' (q.available.buf.ptr + 2) ≡ next q
  pub entries :
      (i : ℕ)
      → word 2 m' (entry q (i % q.size))
        ≡ (if i % q.size == slot q then (returned m q).index else word 2 m (entry q (i % q.size)))
  pub last : q'.used.last ≡ (q.used.last + 1) % 2 ^ 16
  pub in_flight :
      (q'.available.index + 2 ^ 16 - q'.used.last) % 2 ^ 16
      ≡ (q.available.index + 2 ^ 16 - q.used.last) % 2 ^ 16
  pub descriptors_kept : q'.descriptors ≡ q.descriptors
  pub kept :
      (a : ℕ)
      → (m' a ≡ m a) ⊎ ((q.available.buf.ptr ≤ a) × (a < q.available.buf.ptr + q.available.buf.len))

popped-IsPopped :
    (m : Memory) (q : VirtualQueue) (buf : List ℕ) (d : Descriptor)
    → IsReady m q
    → (returned m q).index < q.size
    → IsPopped m q buf d (read_descriptor m d buf) (popped m q) (supplied m q (returned m q).index)
unfolding read_descriptor
popped-IsPopped m q buf d k small =
    let l = k.laid in
    let id = (returned m q).index in
    let n = min (length buf) d.buf.len in
    record {
      ready =
          IsReady-supplied m q (popped m q) id k small (IsLaid-popped m q l) refl refl refl
            (omega arith);
      out_length = omega (
        arith,
        length-append (load m d.buf.ptr n) (drop n buf),
        length-load m d.buf.ptr n,
        length-drop n buf,
      );
      contents = refl;
      index_seen = supplied-next m q id;
      entries = λ i. supplied-entry m q id (i % q.size) (omega (arith, l.bounded));
      last = refl;
      in_flight = omega (arith, k.index_small, k.last_small);
      descriptors_kept = refl;
      kept = λ a.
          elim (in_range a q.available.buf.ptr (q.available.buf.ptr + q.available.buf.len)) [
            | inl b ↦ inr b
            | inr out ↦ inl (supplied-outside m q id a l out)
          ];
    }

-- When the device's index shows a used buffer, whose entry names a descriptor of the queue and a length
-- for which the caller's buffer has room, Pop on a ready queue returns that length. The caller's
-- buffer gets the bytes of the descriptor's buffer, as far as both reach. The descriptor enters the
-- next slot of the available ring, both indices move on by one, so that the number of buffers that
-- the device holds is as before, no memory outside of the available ring changes, and the queue is ready
-- again.
pub pop-IsPopped :
    (m : Memory) (q : VirtualQueue) (buf : List ℕ)
    → IsReady m q
    → device_index m q ≢ q.used.last
    → (returned m q).index < q.size
    → (returned m q).length ≤ length buf
    → (d : Descriptor) × (out : List ℕ) × (q' : VirtualQueue) × (m' : Memory) × (get_elem?
          q.descriptors
          (returned m q).index
        ≡ some d)
      × (pop m q buf ≡ some (received (returned m q).length out, q', m'))
      × IsPopped m q buf d out q' m'
pop-IsPopped m q buf k ne small h =
    let l = k.laid in
    let (d, found) =
      get_elem?-lt q.descriptors (returned m q).index (omega (arith, l.descriptors)) in
    (
      d,
      read_descriptor m d buf,
      popped m q,
      supplied m q (returned m q).index,
      found,
      pop_lem m q buf d l ne h small found,
      popped-IsPopped m q buf d k small,
    )
