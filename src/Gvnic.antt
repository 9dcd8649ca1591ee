-- ===== src/Gvnic.antt =====
-- The queues of the Google virtual NIC (kvm/gvnic/queue.go and gve.go): Receive, Transmit and the flow
-- control of both rings.
-- Buffers are slices of one memory, in which the device writes between calls; `none` is a panic, of a
-- slice out of bounds or a ring of size 0. A doorbell is a register of package internal/reg.
pub mod Receive
pub mod Transmit
mod Tests
use tamago.Prelude.{
  ℕ, ◌+◌, ◌-◌, ◌*◌, ◌/◌, ◌%◌, ◌^◌, min, Bool, not, ◌&&◌, ◌||◌, Option, none, some, List, [], ◌∷◌,
  ◌++◌, length, drop, take, bit_and, ltb, leb, ◌==◌, if◌then◌else◌, add64, ◌>>=◌, ◌>>◌, guard,
}
use tamago.Prelude.Endian.{be_bytes, be_value, reverse_bytes32}
use tamago.Dma.{Slice}
use tamago.Dma.Memory.{Memory, load, store}
use tamago.Reg.{Registers, write}

abbrev pub page_size : ℕ
page_size = 4096

abbrev pub flags_mask : ℕ
flags_mask = 0b111

abbrev pub rx_pad_len : ℕ
rx_pad_len = 2

pub record RxQueue : Type 0 where
  pub doorbell : ℕ
  pub desc : Slice
  pub data_ring : Slice
  pub qpl : Slice
  pub size : ℕ
  pub cnt : ℕ
  pub fill : ℕ
  pub seqno : ℕ

pub record TxQueue : Type 0 where
  pub doorbell : ℕ
  pub counter_index : ℕ
  pub desc : Slice
  pub qpl : Slice
  pub size : ℕ
  pub head : ℕ
  pub tail : ℕ

-- `binary.BigEndian.Uint16(s[off:])`, and the same for 4 and 8 bytes.
unfoldable pub be_fetch : ℕ → Memory → Slice → ℕ → Option ℕ
be_fetch n m s off = guard (leb (off + n) s.len) >> some (be_value 0 (load m (s.ptr + off) n))

-- `rx.next()`
unfoldable pub rx_next : Registers → RxQueue → RxQueue × Registers
rx_next g rx =
    let cnt = (rx.cnt + 1) % 2 ^ 32 in
    let seqno = if rx.seqno == flags_mask then 1 else (rx.seqno + 1) % 2 ^ 16 in
    let fill = (cnt + rx.size) % 2 ^ 32 in
    if ltb (rx.size / 2) ((rx.fill + 2 ^ 32 - cnt) % 2 ^ 32)
    then (record rx { cnt = cnt; seqno = seqno }, g)
    else (
      record rx { cnt = cnt; seqno = seqno; fill = fill },
      write g rx.doorbell (reverse_bytes32 fill),
    )

-- Receive: the length and what the buffer then holds, the new queue, and the registers.
unfoldable pub receive :
    Memory → Registers → RxQueue → List ℕ → Option (ℕ × List ℕ × RxQueue × Registers)
receive m g rx buf = if length buf == 0 then some (0, buf, rx, g) else do
  guard (not (rx.size == 0))
  let idx = rx.cnt % rx.size
  let off = idx * 64
  len ← be_fetch 2 m rx.desc (off + 60)
  flags_seq ← be_fetch 2 m rx.desc (off + 62)
  if not (bit_and flags_seq flags_mask == rx.seqno) then some (0, buf, rx, g) else do
    let (rx', g') = rx_next g rx
    if leb len rx_pad_len then some (0, buf, rx', g') else do
      qpl_off ← be_fetch 8 m rx.data_ring (idx * 8 % 2 ^ 32)
      let lo = add64 qpl_off rx_pad_len
      let hi = add64 qpl_off len
      guard (leb lo hi && leb hi rx.qpl.len)
      let n = min (length buf) (hi - lo)
      some (n, load m (rx.qpl.ptr + lo) n ++ drop n buf, rx', g')

-- `tx.next()`
unfoldable pub tx_next : Registers → TxQueue → TxQueue × Registers
tx_next g tx =
    let head = (tx.head + 1) % 2 ^ 32 in
    (record tx { head = head }, write g tx.doorbell (reverse_bytes32 head))

pub data Sent : Type 0 where
  too_large queue_full sent : Sent

-- The bytes of a transmit descriptor.
abbrev pub tx_bytes : ℕ → ℕ → List ℕ
tx_bytes len qpl_off = 0 ∷ 0 ∷ 0 ∷ 1 ∷ (be_bytes 2 len ++ (be_bytes 2 len ++ be_bytes 8 qpl_off))

-- Transmit; the last three results are the memory, the queue and the registers. A frame on the page is
-- at `qpl_off`, and `counters` is the array of the device's event counters.
unfoldable pub transmit :
    Memory → Registers → Slice → ℕ → TxQueue → List ℕ → Option (Sent × Memory × TxQueue × Registers)
transmit m g counters tx_pages tx buf =
    if ltb page_size (length buf) then some (too_large, m, tx, g) else do
      guard (not (tx.size == 0) && not (tx_pages == 0))
      let idx = tx.head % tx.size
      let qpl_off = tx.head % tx_pages * page_size % 2 ^ 32
      tail ← be_fetch 4 m counters (tx.counter_index * 4 % 2 ^ 32)
      let tx' = record tx { tail = tail }
      let inflight = (tx.head + 2 ^ 32 - tail) % 2 ^ 32
      if leb tx.size inflight || leb tx_pages inflight then some (queue_full, m, tx', g) else do
        guard (
            leb qpl_off ((qpl_off + length buf) % 2 ^ 32)
            && leb ((qpl_off + length buf) % 2 ^ 32) tx.qpl.len)
        let m1 = store m (tx.qpl.ptr + qpl_off) buf
        let off = idx * 16
        guard (leb (off + 16) tx.desc.len)
        let m2 = store m1 (tx.desc.ptr + off) (tx_bytes (length buf % 2 ^ 16) qpl_off)
        let (tx'', g') = tx_next g tx'
        some (sent, m2, tx'', g')
