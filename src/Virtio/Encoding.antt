-- ===== src/Virtio/Encoding.antt =====
-- The Bytes methods of kvm/virtio/queue.go: a queue as the bytes that the device reads.
use tamago.Prelude.{
  Bool-cases, inl, inr, ℕ, ◌+◌, ◌-◌, ◌*◌, ◌%◌, ◌<◌, ◌≤◌, ◌≡◌, refl, ap, ◌∙◌, List, [], ◌∷◌, ◌++◌,
  length, replicate, ◌==◌, if◌then◌else◌, arith, length-append, length-replicate,
}
use tamago.Prelude.Endian.{le_bytes}
use tamago.Virtio.{Descriptor, Available, Ring, Used, VirtualQueue}

unfoldable pub descriptor_bytes : Descriptor → List ℕ
descriptor_bytes d =
    le_bytes 8 d.address ++ (le_bytes 4 d.length ++ (le_bytes 2 d.flags ++ le_bytes 2 d.next))

-- The loop over the descriptors.
unfoldable pub table_bytes : List Descriptor → List ℕ
unfolding descriptor_bytes
table_bytes [] = []
table_bytes (d ∷ ds) = descriptor_bytes d ++ table_bytes ds

-- The loop over the entries of Available.
unfoldable pub entry_bytes : List ℕ → List ℕ
entry_bytes [] = []
entry_bytes (i ∷ is) = le_bytes 2 i ++ entry_bytes is

unfoldable pub available_bytes : Available → List ℕ
available_bytes d =
    le_bytes 2 d.flags ++ (le_bytes 2 d.index ++ (entry_bytes d.ring ++ le_bytes 2 d.event_index))

unfoldable pub ring_bytes : Ring → List ℕ
ring_bytes d = le_bytes 4 d.index ++ le_bytes 4 d.length

-- The loop over the entries of Used.
unfoldable pub rings_bytes : List Ring → List ℕ
unfolding ring_bytes
rings_bytes [] = []
rings_bytes (d ∷ ds) = ring_bytes d ++ rings_bytes ds

unfoldable pub used_bytes : Used → List ℕ
used_bytes d =
    le_bytes 2 d.flags ++ (le_bytes 2 d.index ++ (rings_bytes d.ring ++ le_bytes 2 d.avail_event))

abbrev pub page_size : ℕ
page_size = 4096

-- `if r := buf.Len() % pageSize; r != 0 { buf.Write(make([]byte, pageSize-r)) }`
unfoldable pub pad_page : List ℕ → List ℕ
pad_page buf =
    let r = length buf % page_size in if r == 0 then buf else buf ++ replicate (page_size - r) 0

-- The bytes, and the offsets of the driver area and the device area.
unfoldable pub queue_bytes : VirtualQueue → List ℕ × ℕ × ℕ
queue_bytes d =
    let table = table_bytes d.descriptors in
    let buf = pad_page (table ++ available_bytes d.available) in
    (buf ++ used_bytes d.used, length table, length buf)

pub length-table_bytes : (ds : List Descriptor) → length (table_bytes ds) ≡ 16 * length ds
unfolding table_bytes descriptor_bytes
length-table_bytes [] = refl
length-table_bytes (d ∷ ds) = omega (arith, length-table_bytes ds)

pub length-entry_bytes : (is : List ℕ) → length (entry_bytes is) ≡ 2 * length is
unfolding entry_bytes
length-entry_bytes [] = refl
length-entry_bytes (i ∷ is) = omega (arith, length-entry_bytes is)

pub length-rings_bytes : (ds : List Ring) → length (rings_bytes ds) ≡ 8 * length ds
unfolding rings_bytes ring_bytes
length-rings_bytes [] = refl
length-rings_bytes (d ∷ ds) = omega (arith, length-rings_bytes ds)

pub length-available_bytes : (d : Available) → length (available_bytes d) ≡ 6 + 2 * length d.ring
unfolding available_bytes
length-available_bytes d = omega (
  arith,
  length-append (entry_bytes d.ring) (le_bytes 2 d.event_index),
  length-entry_bytes d.ring,
)

pub length-used_bytes : (d : Used) → length (used_bytes d) ≡ 6 + 8 * length d.ring
unfolding used_bytes
length-used_bytes d = omega (
  arith,
  length-append (rings_bytes d.ring) (le_bytes 2 d.avail_event),
  length-rings_bytes d.ring,
)

-- What is padded ends on a page, and grows by less than a page.
pub length-pad_page :
    (buf : List ℕ)
    → (length (pad_page buf) % 4096 ≡ 0)
      × (length buf ≤ length (pad_page buf))
      × (length (pad_page buf) < length buf + 4096)
unfolding pad_page
length-pad_page buf =
    let r = length buf % 4096 in
    let size : length (buf ++ replicate (4096 - r) 0) ≡ length buf + (4096 - r) =
      length-append buf (replicate (4096 - r) 0)
      ∙ ap (λ (n : ℕ). length buf + n) (length-replicate (4096 - r) 0) in
    let grown : length (pad_page buf) ≡ length buf + (if r == 0 then 0 else 4096 - r) =
      elim (Bool-cases (r == 0)) [ inl e ↦ rw e (omega arith) | inr e ↦ rw e size ] in
    ground (arith, grown)
