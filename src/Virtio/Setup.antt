-- ===== src/Virtio/Setup.antt =====
-- Init of a descriptor and of a queue (kvm/virtio/queue.go). The DMA region is the global one, and the
-- sizes are not negative.
pub mod Loop
pub mod Layout
pub mod Table
pub mod Start
pub mod Init
use tamago.Prelude.{
  ℕ, zero, suc, ◌+◌, ◌-◌, ◌*◌, ◌%◌, ◌^◌, not, ◌&&◌, Option, none, some, List, [], ◌∷◌, ◌++◌, length,
  take, leb, ◌==◌, if◌then◌else◌, add64, ◌>>=◌, ◌>>◌, guard,
}
use tamago.Dma.{Region, Slice, Outcome, ok, panic, reserve, reserved, release}
use tamago.Dma.Memory.{Memory, store}
use tamago.Virtio.{Descriptor, Ring, VirtualQueue}
use tamago.Virtio.Encoding.{queue_bytes, page_size}

abbrev pub made {ℓ} : {A : Type ℓ} → Outcome A → Option A
made (ok a) = some a
made (panic f) = none

-- `s[a:b]`
abbrev pub sub_slice : Slice → ℕ → ℕ → Option Slice
sub_slice s a b = guard (leb a b && leb b s.len) >> some (record { ptr = s.ptr + a; len = b - a })

abbrev pub nil_slice : Slice
nil_slice = record { ptr = 0; len = 0 }

-- `&Descriptor{}` and `desc.Init(buf, flags)`; `&buf[0]` panics on an empty slice.
pub init_descriptor : Region → Slice → ℕ → Option Descriptor
init_descriptor r buf flags =
    guard (not (buf.len == 0))
    >> some (
        if reserved r buf
        then record {
          address = buf.ptr;
          length = buf.len % 2 ^ 32;
          flags = flags;
          next = 0;
          buf = buf;
        }
        else record { address = 0; length = 0; flags = 0; next = 0; buf = nil_slice })

-- `for i := range size`, from `i` on, with `k` rounds left.
pub init_descriptors : Region → Slice → ℕ → ℕ → ℕ → ℕ → VirtualQueue → Option VirtualQueue
init_descriptors r buf length flags zero i d = some d
init_descriptors r buf length flags (suc k) i d = do
  let off = length * i % 2 ^ 64
  s ← sub_slice buf off (add64 off length)
  desc ← init_descriptor r s flags
  init_descriptors r buf length flags k (i + 1) (record d {
    descriptors = d.descriptors ++ (desc ∷ []);
    available = record d.available { ring = d.available.ring ++ (i % 2 ^ 16 ∷ []) };
    used = record d.used { ring = d.used.ring ++ (record { index = 0; length = 0 } ∷ []) };
  })

pub init : Region → Memory → VirtualQueue → ℕ → ℕ → ℕ → Option (VirtualQueue × Region × Memory)
init r m d size length flags = do
  (_, buf, r1) ← made (reserve r (size * length % 2 ^ 64) 0)
  d1 ← init_descriptors r1 buf length flags size 0 d
  let d2 =
      if flags == 2
      then record d1 { available = record d1.available { index = size % 2 ^ 16 } }
      else d1
  let (bytes, driver, device) = queue_bytes d2
  (desc, area, r2) ← made (reserve r1 (tamago.Prelude.length bytes) page_size)
  available ← sub_slice area driver device
  used ← sub_slice area device area.len
  some (
    record d2 {
      desc = desc;
      buf = area;
      driver = add64 desc driver;
      device = add64 desc device;
      size = size % 2 ^ 16;
      available = record d2.available { buf = available };
      used = record d2.used { buf = used };
    },
    r2,
    store m area.ptr (take area.len bytes),
  )

-- Destroy of a descriptor, of the descriptors of a queue in turn, and of a queue.
pub destroy_descriptor : Region → Descriptor → Region
destroy_descriptor r d = release r d.address

pub destroy_descriptors : Region → List Descriptor → Region
destroy_descriptors r [] = r
destroy_descriptors r (d ∷ ds) = destroy_descriptors (destroy_descriptor r d) ds

pub destroy : Region → VirtualQueue → VirtualQueue × Region
destroy r d = (
  record d {
    available = record d.available { buf = nil_slice };
    used = record d.used { buf = nil_slice };
  },
  release (destroy_descriptors r d.descriptors) d.desc,
)
