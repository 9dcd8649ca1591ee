-- ===== src/Enet.antt =====
-- The buffer descriptor rings of the Ethernet controller (soc/nxp/enet/dma.go). Descriptors and frames are
-- in the memory of Dma/Memory, which the controller shares; the doorbells are registers. `none` is a panic,
-- and a caller's buffer is a list of bytes.
pub mod Write
pub mod Push
pub mod Read
pub mod Counts
pub mod Pop
mod Tests
use tamago.Prelude.{
  ℕ, zero, suc, ◌+◌, ◌-◌, ◌*◌, ◌/◌, ◌%◌, ◌^◌, min, Bool, true, false, not, Option, none, some, List,
  [], ◌∷◌, ◌++◌, bit_and, bit_or, ltb, leb, ◌==◌, if◌then◌else◌, length, take, drop, set, get_elem?,
  ◌>>=◌, ◌>>◌, guard,
}
use tamago.Prelude.Endian.{le_bytes}
use tamago.Dma.{Slice}
use tamago.Dma.Memory.{Memory, load, store, update}
use tamago.Reg.{Registers}
use tamago.Reg

abbrev pub max_frame_size : ℕ
max_frame_size = 1518

abbrev pub min_frame_size : ℕ
min_frame_size = 42

abbrev pub copy_align : ℕ
copy_align = 8

abbrev pub buffer_align : ℕ
buffer_align = 64

-- `1 << BD_RX_ST_CR | 1 << BD_RX_ST_LG | 1 << BD_RX_ST_NO | 1 << BD_RX_ST_OV | 1 << BD_RX_ST_TR`
abbrev pub frame_error_mask : ℕ
frame_error_mask = 2 ^ 2 + 2 ^ 5 + 2 ^ 4 + 2 ^ 1 + 2 ^ 0

pub record BufferDescriptor : Type 0 where
  pub length : ℕ
  pub status : ℕ
  pub addr : ℕ
  pub desc : Slice
  pub data_buffer : Slice

-- The statistics that all descriptors point to: counters of 32 bits.
pub record Stats : Type 0 where
  pub overrun : ℕ
  pub frame_length_violation : ℕ
  pub non_octet_aligned_frame : ℕ
  pub crc_or_frame_error : ℕ
  pub frame_too_small : ℕ
  pub frame_too_large : ℕ

unfoldable pub descriptor_bytes : BufferDescriptor → List ℕ
descriptor_bytes bd = le_bytes 2 bd.length ++ (le_bytes 2 bd.status ++ le_bytes 4 bd.addr)

-- What Read returns: the error, or a count (below zero for a length below 4) and the buffer. The capacity of
-- the slice `data` is taken for its length.
pub data ReadResult : Type 0 where
  too_small : ReadResult
  below_zero : ℕ → ReadResult
  count : ℕ → List ℕ → ReadResult

-- `for i := range r`, from `i` on, with `k` rounds left.
unfoldable pub read_bytes : ℕ → ℕ → ℕ → Memory → Slice → List ℕ → Option (List ℕ)
read_bytes zero i n m s buf = some buf
read_bytes (suc k) i n m s buf =
    guard (ltb (n + i) s.len) >> read_bytes k (i + 1) n m s (set buf (n + i) (m (s.ptr + (n + i))))

unfoldable pub read : BufferDescriptor → Memory → List ℕ → Option ReadResult
read bd m buf =
    if ltb bd.length 4
    then some (below_zero (4 - bd.length))
    else if ltb (length buf) (bd.length - 4)
    then some too_small
    else (do
      let r = (bd.length - 4) % copy_align
      let n = bd.length - 4 - r
      guard (leb n bd.data_buffer.len)
      out ← read_bytes r 0 n m bd.data_buffer (load m bd.data_buffer.ptr n ++ drop n buf)
      some (count (n + r) out))

-- `for i := range r`, likewise.
unfoldable pub write_bytes : ℕ → ℕ → ℕ → Memory → Slice → List ℕ → Option Memory
write_bytes zero i n m s buf = some m
write_bytes (suc k) i n m s buf = do
  guard (ltb (n + i) s.len)
  b ← get_elem? buf (n + i)
  write_bytes k (i + 1) n (update m (s.ptr + (n + i)) b) s buf

unfoldable pub write : BufferDescriptor → Memory → List ℕ → Option Memory
write bd m buf =
    let r = length buf % copy_align in
    let n = length buf - r in
    write_bytes r 0 n (store m bd.data_buffer.ptr (take (min bd.data_buffer.len n) buf))
      bd.data_buffer buf

-- `c += b` on a counter.
abbrev pub counted : ℕ → ℕ → ℕ
counted c b = (c + b) % 2 ^ 32

unfoldable pub valid : BufferDescriptor → Stats → Bool × Stats
valid bd st =
    let s = bd.status in
    if bit_and s (2 ^ 11) == 0
    then (false, st)
    else if not (bit_and s frame_error_mask == 0)
    then (
      false,
      if bit_and (s / 2 ^ 1) 1 == 1
          then record st { overrun = counted st.overrun 1 }
          else record st {
            frame_length_violation = counted st.frame_length_violation (bit_and (s / 2 ^ 5) 1);
            non_octet_aligned_frame = counted st.non_octet_aligned_frame (bit_and (s / 2 ^ 4) 1);
            crc_or_frame_error = counted st.crc_or_frame_error (bit_and (s / 2 ^ 2) 1);
          },
    )
    else if ltb bd.length min_frame_size
    then (false, record st { frame_too_small = counted st.frame_too_small 1 })
    else if ltb max_frame_size bd.length
    then (false, record st { frame_too_large = counted st.frame_too_large 1 })
    else (true, st)

pub record Ring : Type 0 where
  pub bds : List BufferDescriptor
  pub index : ℕ
  pub size : ℕ

abbrev pub descriptor_size : ℕ
descriptor_size = 8

abbrev pub data_size : ℕ
data_size = max_frame_size + (buffer_align - max_frame_size % buffer_align)

-- The descriptor that `init` makes for place `i`.
unfoldable pub init_descriptor : Bool → ℕ → ℕ → Slice → Slice → BufferDescriptor
init_descriptor rx n i desc frames =
    let empty = if rx then 2 ^ 15 else 0 in
    record {
      length = 0;
      status = if i == (n - 1) then bit_or empty (2 ^ 13) else empty;
      addr = (frames.ptr + data_size * i) % 2 ^ 32;
      desc = record { ptr = desc.ptr + descriptor_size * i; len = descriptor_size };
      data_buffer = record { ptr = frames.ptr + data_size * i; len = data_size };
    }

-- The loop of `init`, from place `i` on, with `k` places left, on the two buffers that dma.Reserve gives.
unfoldable pub init_loop :
    ℕ → ℕ → Bool → ℕ → Slice → Slice → Memory → List BufferDescriptor × Memory
unfolding init_descriptor descriptor_bytes
init_loop zero i rx n desc frames m = ([], m)
init_loop (suc k) i rx n desc frames m =
    let bd = init_descriptor rx n i desc frames in
    let rest = init_loop k (i + 1) rx n desc frames (store m bd.desc.ptr (descriptor_bytes bd)) in
    (bd ∷ rest.0, rest.1)

unfoldable pub init : Bool → ℕ → Slice → Slice → Memory → Ring × Memory
unfolding init_loop
init rx n desc frames m =
    let loop = init_loop n 0 rx n desc frames m in
    (record { bds = loop.0; index = 0; size = n }, loop.1)

unfoldable pub next : Ring → Bool × Ring
next ring =
    if ring.index == (ring.size - 1)
    then (true, record ring { index = 0 })
    else (false, record ring { index = ring.index + 1 })

-- What pop returns: no frame, or the result of Read.
pub data PopResult : Type 0 where
  no_frame : PopResult
  dropped : PopResult
  frame : ReadResult → PopResult

unfoldable pub pop : Ring → Stats → Memory → List ℕ → Option (PopResult × Ring × Stats × Memory)
unfolding next valid read
pop ring st m buf = do
  bd ← get_elem? ring.bds ring.index
  let d = bd.desc.ptr
  let bd' : BufferDescriptor = record bd {
    length = bit_or (m d) (m (d + 1) * 2 ^ 8);
    status = bit_or (m (d + 2)) (m (d + 3) * 2 ^ 8);
  }
  let ring' : Ring = record ring { bds = set ring.bds ring.index bd' }
  if not (bit_and bd'.status (2 ^ 15) == 0) then some (no_frame, ring', st, m) else (do
    let v = valid bd' st
    result ← if v.0 then (do out ← read bd' m buf; some (frame out)) else some dropped
    some (result, (next ring').1, v.1, update m (d + 3) (bit_or (m (d + 3)) (2 ^ 15 / 2 ^ 8))))

-- What push returns: whether the frame is queued.
unfoldable pub push : Ring → Memory → List ℕ → Option (Bool × Ring × Memory)
unfolding next write
push ring m buf = do
  bd ← get_elem? ring.bds ring.index
  let d = bd.desc.ptr
  if not (bit_and (m (d + 3) * 2 ^ 8 % 2 ^ 16) (2 ^ 15) == 0) then some (false, ring, m) else (do
    let bd' : BufferDescriptor = record bd {
      length = length buf % 2 ^ 16;
      status = bit_or (2 ^ 11) (2 ^ 10);
    }
    let m1 = update m d (bit_and bd'.length 0xff)
    let m2 = update m1 (d + 1) (bit_and bd'.length 0xff00 / 2 ^ 8)
    let m3 = update m2 (d + 2) (bit_and bd'.status 0xff)
    let m4 = update m3 (d + 3) (bit_and bd'.status 0xff00 / 2 ^ 8)
    m5 ← write bd' m4 buf
    let step = next (record ring { bds = set ring.bds ring.index bd' })
    let m6 = if step.0 then update m5 (d + 3) (bit_or (m5 (d + 3)) (2 ^ 13 / 2 ^ 8)) else m5
    some (true, step.1, update m6 (d + 3) (bit_or (m6 (d + 3)) (2 ^ 15 / 2 ^ 8))))

-- Receive and Transmit, with the addresses of the doorbells.
unfoldable pub receive :
    ℕ
    → Registers
    → Ring
    → Stats
    → Memory
    → List ℕ
    → Option (PopResult × Ring × Stats × Memory × Registers)
unfolding pop
receive rdar g ring st m buf = do
  (r, ring', st', m') ← pop ring st m buf
  some (r, ring', st', m', Reg.set 32 g rdar 24)

pub data Sent : Type 0 where
  queued not_sent too_large : Sent

unfoldable pub transmit :
    ℕ → Registers → Ring → Memory → List ℕ → Option (Sent × Ring × Memory × Registers)
unfolding push
transmit tdar g ring m buf =
    if ltb max_frame_size (length buf) then some (too_large, ring, m, g) else (do
      (ok, ring', m') ← push ring m buf
      some ((if ok then queued else not_sent), ring', m', Reg.set 32 g tdar 24))
