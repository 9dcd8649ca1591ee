-- ===== src/Virtio.antt =====
-- The split virtual queue of VirtIO (kvm/virtio/queue.go): descriptors, the available ring that the
-- driver fills and the used ring that the device fills.
-- All DMA buffers are slices of one memory, which the device changes between calls. `none` is a panic:
-- an index or a slice out of bounds, a division by a queue size of 0, or no memory. A `*Ring` is
-- owned by its queue. The mutex makes each method one step.
pub mod Setup
pub mod Encoding
pub mod Access
pub mod Ready
pub mod Supply
pub mod Pop
pub mod Retry
pub mod Push
pub mod Steps
mod Tests
use tamago.Prelude.{
  ℕ, zero, suc, ◌+◌, ◌-◌, ◌*◌, ◌/◌, ◌%◌, ◌^◌, min, Bool, true, false, not, Option, none, some, List,
  [], ◌∷◌, ◌++◌, length, get_elem?, set, take, drop, ltb, leb, ◌==◌, if◌then◌else◌, ◌>>=◌, ◌>>◌,
  guard,
}
use tamago.Prelude.Endian.{le_bytes, le_value}
use tamago.Dma.{Slice}
use tamago.Dma.Memory.{Memory, load, store}

pub record Descriptor : Type 0 where
  pub address : ℕ
  pub length : ℕ
  pub flags : ℕ
  pub next : ℕ
  pub buf : Slice

pub record Available : Type 0 where
  pub flags : ℕ
  pub index : ℕ
  pub ring : List ℕ
  pub event_index : ℕ
  pub buf : Slice

pub record Ring : Type 0 where
  pub index : ℕ
  pub length : ℕ

pub record Used : Type 0 where
  pub flags : ℕ
  pub index : ℕ
  pub ring : List Ring
  pub avail_event : ℕ
  pub buf : Slice
  pub last : ℕ

pub record VirtualQueue : Type 0 where
  pub descriptors : List Descriptor
  pub available : Available
  pub used : Used
  pub buf : Slice
  pub desc : ℕ
  pub driver : ℕ
  pub device : ℕ
  pub size : ℕ

-- `binary.LittleEndian.PutUint16(s[off:], v)`, and the same for 4 bytes.
pub put : ℕ → Memory → Slice → ℕ → ℕ → Option Memory
put n m s off v = guard (leb (off + n) s.len) >> some (store m (s.ptr + off) (le_bytes n v))

-- `binary.LittleEndian.Uint16(s[off:])`
pub fetch : ℕ → Memory → Slice → ℕ → Option ℕ
fetch n m s off = guard (leb (off + n) s.len) >> some (le_value (load m (s.ptr + off) n))

-- Read: what the buffer holds after `copy(b, d.buf)`.
pub read_descriptor : Memory → Descriptor → List ℕ → List ℕ
read_descriptor m d b = let n = min (length b) d.buf.len in load m d.buf.ptr n ++ drop n b

-- Write sets the length and copies as much as the descriptor's buffer holds.
pub write_descriptor : Memory → Descriptor → List ℕ → Descriptor × Memory
write_descriptor m d b =
    (record d { length = length b % 2 ^ 32 }, store m d.buf.ptr (take d.buf.len b))

pub set_index : Memory → Available → ℕ → Option (Available × Memory)
set_index m d index = do m' ← put 2 m d.buf 2 index; some (record d { index = index }, m')

-- `d.ring[n] = v`, out of bounds a panic.
pub set_ring {ℓ} : {A : Type ℓ} → List A → ℕ → A → Option (List A)
set_ring xs n v = guard (ltb n (length xs)) >> some (set xs n v)

-- Ring of Available. Offsets are `uint16`.
pub available_ring : Memory → Available → ℕ → Option (ℕ × Available)
available_ring m d n = do
  v ← fetch 2 m d.buf ((4 + n * 2) % 2 ^ 16)
  ring ← set_ring d.ring n v
  some (v, record d { ring = ring })

pub set_ring_index : Memory → Available → ℕ → ℕ → Option (Available × Memory)
set_ring_index m d n index = do
  m' ← put 2 m d.buf ((4 + n * 2) % 2 ^ 16) index
  ring ← set_ring d.ring n index
  some (record d { ring = ring }, m')

-- Index of Used.
pub used_index : Memory → Used → Option (ℕ × Used)
used_index m d = do v ← fetch 2 m d.buf 2; some (v, record d { index = v })

-- Ring of Used. binary.Decode leaves the ring as it is when fewer than 8 bytes are left.
pub decode_ring : Memory → Slice → ℕ → Ring → Ring
decode_ring m s off old =
    if leb (off + 8) s.len
    then record {
      index = le_value (load m (s.ptr + off) 4);
      length = le_value (load m (s.ptr + off + 4) 4);
    }
    else old

pub used_ring : Memory → Used → ℕ → Option (Ring × Used)
used_ring m d n = do
  let off = (4 + n * 8) % 2 ^ 16
  guard (leb off d.buf.len)
  old ← get_elem? d.ring n
  let ring = decode_ring m d.buf off old
  some (ring, record d { ring = set d.ring n ring })

-- NeedsNotify, with what it leaves in the queue.
pub needs_notify : Memory → VirtualQueue → Option (Bool × VirtualQueue)
needs_notify m d = do
  guard (not (d.size == 0))
  (index, used) ← used_index m d.used
  some (d.available.index % d.size == index % d.size, record d { used = used })

-- What Pop returns: nothing, the error, or the length and what the buffer then holds.
pub data Popped : Type 0 where
  empty : Popped
  too_small : Popped
  received : ℕ → List ℕ → Popped

pub pop : Memory → VirtualQueue → List ℕ → Option (Popped × VirtualQueue × Memory)
pop m d buf = do
  (index, used) ← used_index m d.used
  if index == used.last then some (empty, record d { used = used }, m) else do
    guard (not (d.size == 0))
    (avail, used') ← used_ring m used (used.last % d.size)
    let n = avail.length
    if ltb (length buf) n then some (too_small, record d { used = used' }, m) else do
      desc ← get_elem? d.descriptors avail.index
      let out = read_descriptor m desc buf
      (available, m1) ←
          set_ring_index m d.available (d.available.index % d.size) (avail.index % 2 ^ 16)
      (available', m2) ← set_index m1 available ((available.index + 1) % 2 ^ 16)
      some (
        received n out,
        record d {
          available = available';
          used = record used' { last = (used'.last + 1) % 2 ^ 16 };
        },
        m2,
      )

pub push : Memory → VirtualQueue → List ℕ → Option (VirtualQueue × Memory)
push m d buf = do
  guard (not (d.size == 0))
  (index, available) ← available_ring m d.available (d.available.index % d.size)
  m1 ← put 4 m d.buf ((8 + index * 16) % 2 ^ 16) (length buf % 2 ^ 32)
  desc ← get_elem? d.descriptors index
  let (desc', m2) = write_descriptor m1 desc buf
  (available', m3) ← set_ring_index m2 available (available.index % d.size) index
  (available'', m4) ← set_index m3 available' ((available'.index + 1) % 2 ^ 16)
  some (record d { descriptors = set d.descriptors index desc'; available = available'' }, m4)
