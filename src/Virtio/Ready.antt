-- ===== src/Virtio/Ready.antt =====
-- A queue that is ready for use: where its parts stand in memory, and what the driver's part holds.
use tamago.Prelude.{
  ℕ, zero, suc, ◌+◌, ◌*◌, ◌%◌, ◌^◌, ◌≤◌, ◌<◌, ◌≡◌, ◌⊎◌, some, List, [], ◌∷◌, length, get_elem?, set,
  arith,
}
use tamago.Dma.Memory.{Memory}
use tamago.Virtio.{Descriptor, Available, Used, VirtualQueue}
use tamago.Virtio.Access.{word}

-- Every descriptor's buffer stands outside of `[lo, hi)`.
abbrev pub AllApart : ℕ → ℕ → List Descriptor → Type 0
AllApart lo hi [] = Unit {0}
AllApart lo hi (d ∷ ds) = ((d.buf.ptr + d.buf.len ≤ lo) ⊎ (hi ≤ d.buf.ptr)) × AllApart lo hi ds

pub AllApart-found :
    (lo hi : ℕ) (ds : List Descriptor) (i : ℕ) (d : Descriptor)
    → AllApart lo hi ds
    → get_elem? ds i ≡ some d
    → (d.buf.ptr + d.buf.len ≤ lo) ⊎ (hi ≤ d.buf.ptr)
AllApart-found lo hi [] i d h e = ground arith
AllApart-found lo hi (x ∷ ds) zero d h e = ground arith
AllApart-found lo hi (x ∷ ds) (suc i) d h e = AllApart-found lo hi ds i d h.1 e

pub AllApart-set :
    (lo hi : ℕ) (ds : List Descriptor) (i : ℕ) (d : Descriptor)
    → AllApart lo hi ds
    → (d.buf.ptr + d.buf.len ≤ lo) ⊎ (hi ≤ d.buf.ptr)
    → AllApart lo hi (set ds i d)
AllApart-set lo hi [] i d h e = tt
AllApart-set lo hi (x ∷ ds) zero d h e = (e, h.1)
AllApart-set lo hi (x ∷ ds) (suc i) d h e = (h.0, AllApart-set lo hi ds i d h.1 e)

-- The descriptor table, the available ring and the used ring stand one after another, each with
-- room for `size` entries.
pub record IsLaid (q : VirtualQueue) : Type 0 where
  pub positive : 0 < q.size
  pub bounded : q.size ≤ 4096
  pub descriptors : length q.descriptors ≡ q.size
  pub available : length q.available.ring ≡ q.size
  pub used : length q.used.ring ≡ q.size
  pub table_room : 16 * q.size ≤ q.buf.len
  pub table : q.buf.ptr + 16 * q.size ≤ q.available.buf.ptr
  pub available_room : 4 + 2 * q.size ≤ q.available.buf.len
  pub order : q.available.buf.ptr + q.available.buf.len ≤ q.used.buf.ptr
  pub used_room : 4 + 8 * q.size ≤ q.used.buf.len
  pub apart : AllApart q.buf.ptr (q.used.buf.ptr + q.used.buf.len) q.descriptors

-- A queue with other contents in the same place.
pub IsLaid-refilled :
    (q : VirtualQueue) (ds : List Descriptor) (a : Available) (u : Used)
    → IsLaid q
    → length ds ≡ q.size
    → length a.ring ≡ q.size
    → length u.ring ≡ q.size
    → a.buf ≡ q.available.buf
    → u.buf ≡ q.used.buf
    → AllApart q.buf.ptr (q.used.buf.ptr + q.used.buf.len) ds
    → IsLaid (record q { descriptors = ds; available = a; used = u })
IsLaid-refilled q ds a u l hd ha hu ea eu apart = record {
  positive = l.positive;
  bounded = l.bounded;
  descriptors = hd;
  available = ha;
  used = hu;
  table_room = l.table_room;
  table = rw ea l.table;
  available_room = rw ea l.available_room;
  order = rw (ea, eu) l.order;
  used_room = rw eu l.used_room;
  apart = rw eu apart;
}

-- The device sees the driver's index, and every entry of the available ring names a descriptor.
pub record IsReady (m : Memory) (q : VirtualQueue) : Type 0 where
  pub laid : IsLaid q
  pub index_small : q.available.index < 2 ^ 16
  pub last_small : q.used.last < 2 ^ 16
  pub index_seen : word 2 m (q.available.buf.ptr + 2) ≡ q.available.index
  pub entries : (i : ℕ) → word 2 m (q.available.buf.ptr + (4 + i % q.size * 2)) < q.size

-- The slot of the available ring that the driver fills next.
abbrev pub slot : VirtualQueue → ℕ
slot q = q.available.index % q.size

-- The address of an entry of the available ring.
abbrev pub entry : VirtualQueue → ℕ → ℕ
entry q i = q.available.buf.ptr + (4 + i * 2)
