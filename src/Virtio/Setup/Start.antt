-- ===== src/Virtio/Setup/Start.antt =====
-- What Init makes of a fresh queue.
use mathlib.Core.List.{append_assoc}
use native.Mathlib.Nat.{zero-add, mod-lt}
use tamago.Prelude.{
  ℕ, ◌+◌, ◌-◌, ◌*◌, ◌/◌, ◌%◌, ◌^◌, ◌≤◌, ◌<◌, ◌≡◌, sym, ap, ◌∙◌, ◌⊎◌, some, List, [], ◌++◌, length,
  get_elem?, ◌==◌, if◌then◌else◌, add64, arith, length-append,
}
use tamago.Dma.{Slice}
use tamago.Dma.Memory.{Memory, store}
use tamago.Virtio.{VirtualQueue}
use tamago.Prelude.Endian.{le_bytes}
use tamago.Virtio.Encoding.{
  entry_bytes, queue_bytes, pad_page, table_bytes, available_bytes, used_bytes, length-table_bytes,
  length-available_bytes, length-used_bytes, length-pad_page,
}
use tamago.Virtio.Access.{word}
use tamago.Virtio.Ready.{IsReady}
use tamago.Virtio.Setup.{nil_slice}
use tamago.Virtio.Setup.Loop.{
  parts, numbers, no_rings, extended, length-parts, length-numbers, length-no_rings,
}
use tamago.Virtio.Setup.Layout.{
  word-store_within, word-entry_bytes, queue_bytes-prefix, get_elem?-numbers, AllApart-parts,
}

-- `&VirtualQueue{}`
abbrev pub fresh : VirtualQueue
fresh = record {
  descriptors = [];
  available = record { flags = 0; index = 0; ring = []; event_index = 0; buf = nil_slice };
  used = record { flags = 0; index = 0; ring = []; avail_event = 0; buf = nil_slice; last = 0 };
  buf = nil_slice;
  desc = 0;
  driver = 0;
  device = 0;
  size = 0;
}

-- The offset of the device area, and the size of the whole.
abbrev pub device_offset : ℕ → ℕ
device_offset size = (18 * size + 6 + 4095) / 4096 * 4096

abbrev pub queue_size : ℕ → ℕ
queue_size size = device_offset size + (6 + 8 * size)

-- A queue of `size` parts of `buf`, and the same in its place in memory.
abbrev pub filled : Slice → ℕ → ℕ → ℕ → VirtualQueue
filled buf n flags size =
    let d = extended fresh (parts buf n flags size 0) (numbers size 0) (no_rings size) in
    record d { available = record d.available { index = if flags == 2 then size else 0 } }

abbrev pub placed : Slice → Slice → ℕ → ℕ → ℕ → VirtualQueue
placed buf area n flags size =
    let d = filled buf n flags size in
    record d {
      desc = area.ptr;
      buf = area;
      driver = add64 area.ptr (16 * size);
      device = add64 area.ptr (device_offset size);
      size = size;
      available = record d.available {
        buf = record { ptr = area.ptr + 16 * size; len = device_offset size - 16 * size };
      };
      used = record d.used {
        buf = record { ptr = area.ptr + device_offset size; len = area.len - device_offset size };
      };
    }

pub offsets :
    (buf : Slice) (n flags size : ℕ)
    → let (bytes, driver, device) = queue_bytes (filled buf n flags size) in
      (driver ≡ 16 * size) × (device ≡ device_offset size) × (length bytes ≡ queue_size size)
unfolding queue_bytes
offsets buf n flags size =
    let d = filled buf n flags size in
    let table = length-table_bytes d.descriptors in
    let count = length-parts buf n flags size 0 in
    let ring = length-available_bytes d.available in
    let entries = length-numbers size 0 in
    let both = length-append (table_bytes d.descriptors) (available_bytes d.available) in
    let whole = table_bytes d.descriptors ++ available_bytes d.available in
    let pad = length-pad_page whole in
    let used = length-used_bytes d.used in
    let rings = length-no_rings size in
    let all = length-append (pad_page whole) (used_bytes d.used) in
    let first : length (table_bytes d.descriptors) ≡ 16 * size = omega arith in
    let second : length (pad_page whole) ≡ device_offset size = omega arith in
    (first, second, omega arith)

-- What the device reads of the available ring.
placed-index :
    (m : Memory) (buf area : Slice) (n flags size : ℕ)
    → size ≤ 4096
    → word 2 (store m area.ptr (queue_bytes (filled buf n flags size)).0) (area.ptr + 16 * size + 2)
      ≡ (filled buf n flags size).available.index
placed-index m buf area n flags size bounded =
    let d = filled buf n flags size in
    let (rest, shape) = queue_bytes-prefix d in
    let table = table_bytes d.descriptors in
    let table_size : length table ≡ 16 * size =
      length-table_bytes d.descriptors ∙ ap (λ (k : ℕ). 16 * k) (length-parts buf n flags size 0) in
    let index = d.available.index in
    let small : index < 2 ^ 16 = ground arith in
    let tail = le_bytes 2 index ++ (entry_bytes d.available.ring ++ rest) in
    let bytes : (queue_bytes d).0 ≡ (table ++ le_bytes 2 0) ++ tail =
      shape ∙ sym (append_assoc table (le_bytes 2 0) tail) in
    let at : area.ptr + length (table ++ le_bytes 2 0) ≡ area.ptr + 16 * size + 2 =
      omega (arith, length-append table (le_bytes 2 0), table_size) in
    ap (λ (bs : List ℕ). word 2 (store m area.ptr bs) (area.ptr + 16 * size + 2)) bytes
    ∙ ap (word 2 (store m area.ptr ((table ++ le_bytes 2 0) ++ tail))) (sym at)
    ∙ word-store_within m area.ptr index (table ++ le_bytes 2 0)
        (entry_bytes d.available.ring ++ rest) small

pub placed-entry :
    (m : Memory) (buf area : Slice) (n flags size i : ℕ)
    → size ≤ 4096
    → i < size
    → word 2
        (store m area.ptr (queue_bytes (filled buf n flags size)).0)
        (area.ptr + 16 * size + (4 + i * 2))
      ≡ i
placed-entry m buf area n flags size i bounded h =
    let d = filled buf n flags size in
    let (rest, shape) = queue_bytes-prefix d in
    let table = table_bytes d.descriptors in
    let table_size : length table ≡ 16 * size =
      length-table_bytes d.descriptors ∙ ap (λ (k : ℕ). 16 * k) (length-parts buf n flags size 0) in
    let front = le_bytes 2 0 ++ le_bytes 2 d.available.index in
    let tail = entry_bytes d.available.ring ++ rest in
    let bytes : (queue_bytes d).0 ≡ (table ++ front) ++ tail =
      shape ∙ sym (append_assoc table front tail) in
    let at : area.ptr + (length (table ++ front) + i * 2) ≡ area.ptr + 16 * size + (4 + i * 2) =
      omega (arith, length-append table front, table_size) in
    let there : get_elem? d.available.ring i ≡ some i =
      get_elem?-numbers size 0 i h
      ∙ ap (λ (k : ℕ). some k) {x = (0 + i) % 2 ^ 16} {y = i} (omega arith) in
    ap (λ (bs : List ℕ). word 2 (store m area.ptr bs) (area.ptr + 16 * size + (4 + i * 2))) bytes
    ∙ ap (word 2 (store m area.ptr ((table ++ front) ++ tail))) (sym at)
    ∙ word-entry_bytes m area.ptr i i (table ++ front) d.available.ring rest there (omega arith)

-- The queue in its place is ready.
pub placed-IsReady :
    (m : Memory) (buf area : Slice) (n flags size : ℕ)
    → 0 < size
    → size ≤ 4096
    → n * size ≤ buf.len
    → area.len ≡ queue_size size
    → (buf.ptr + buf.len ≤ area.ptr) ⊎ (area.ptr + area.len ≤ buf.ptr)
    → IsReady
        (store m area.ptr (queue_bytes (filled buf n flags size)).0)
        (placed buf area n flags size)
placed-IsReady m buf area n flags size pos bounded room len apart =
    let d = filled buf n flags size in
    let q = placed buf area n flags size in
    let room' : n * (0 + size) ≤ buf.len = rw (zero-add size) room in
    record {
      laid = record {
        positive = pos;
        bounded = bounded;
        descriptors = length-parts buf n flags size 0;
        available = length-numbers size 0;
        used = length-no_rings size;
        table_room = omega arith;
        table = omega arith;
        available_room = omega arith;
        order = omega arith;
        used_room = omega arith;
        apart =
            AllApart-parts buf n flags size 0 area.ptr (q.used.buf.ptr + q.used.buf.len) room'
              (ground arith);
      };
      index_small = ground arith;
      last_small = omega arith;
      index_seen = placed-index m buf area n flags size bounded;
      entries = λ i.
          let b : i % size < size = mod-lt i pos in
          rw (placed-entry m buf area n flags size (i % size) bounded b) b;
    }
