-- ===== src/Gvnic/Transmit.antt =====
-- What Transmit does, and that it never touches a frame in flight.
use native.Mathlib.Nat.{mod-lt, mod-eq_of_lt}
use tamago.Prelude.{
  ℕ, ◌+◌, ◌-◌, ◌*◌, ◌%◌, ◌^◌, ◌≤◌, ◌<◌, ◌≡◌, ◌≢◌, refl, sym, ap, ◌∙◌, ◌⊎◌, inl, inr, Bool, true,
  false, ◌&&◌, ◌||◌, Option, some, none, List, length, ltb, leb, ◌==◌, if◌then◌else◌, Bool-cases,
  arith,
}
use tamago.Prelude.Endian.{reverse_bytes32}
use tamago.Prelude.Residues.{earlier-ne}
use tamago.Dma.{Slice}
use tamago.Dma.Memory.{Memory, load, store}
use tamago.Dma.Memory.Laws.{load-store_self, load-store_apart}
use tamago.Reg.{Registers, write}
use tamago.Gvnic.{TxQueue, tx_next, tx_bytes, Sent, sent, queue_full, too_large, transmit}
use tamago.Gvnic.Receive.{be_word, be_fetch_lem}

-- The ring and the page list have their room, apart from each other, and the counters of 32 bits wrap at
-- a multiple of both.
pub record IsTx (counters : Slice) (pages : ℕ) (tx : TxQueue) : Type 0 where
  pub positive : 0 < tx.size
  pub some_pages : 0 < pages
  pub bounded : tx.size < 2 ^ 16
  pub few_pages : pages < 2 ^ 16
  pub whole_rings : 2 ^ 32 % tx.size ≡ 0
  pub whole_lists : 2 ^ 32 % pages ≡ 0
  pub head_small : tx.head < 2 ^ 32
  pub desc_room : 16 * tx.size ≤ tx.desc.len
  pub qpl_room : 4096 * pages ≤ tx.qpl.len
  pub apart : (tx.qpl.ptr + tx.qpl.len ≤ tx.desc.ptr) ⊎ (tx.desc.ptr + tx.desc.len ≤ tx.qpl.ptr)
  pub counter_room : tx.counter_index * 4 + 4 ≤ counters.len
  pub counter_small : tx.counter_index * 4 < 2 ^ 32

-- The device's counter, and the frames that it has not yet sent.
abbrev pub device_tail : Memory → Slice → TxQueue → ℕ
device_tail m counters tx = be_word 4 m (counters.ptr + tx.counter_index * 4)

abbrev pub in_flight : Memory → Slice → TxQueue → ℕ
in_flight m counters tx = (tx.head + 2 ^ 32 - device_tail m counters tx) % 2 ^ 32

abbrev pub is_full : Memory → Slice → ℕ → TxQueue → Bool
is_full m counters pages tx =
    leb tx.size (in_flight m counters tx) || leb pages (in_flight m counters tx)

-- Where the frame with a number goes, and its descriptor.
abbrev pub page_of : ℕ → TxQueue → ℕ → ℕ
page_of pages tx i = tx.qpl.ptr + i % pages * 4096

abbrev pub desc_of : TxQueue → ℕ → ℕ
desc_of tx i = tx.desc.ptr + i % tx.size * 16

abbrev pub sent_memory : Memory → ℕ → TxQueue → List ℕ → Memory
sent_memory m pages tx buf =
    store (store m (page_of pages tx tx.head) buf) (desc_of tx tx.head)
      (tx_bytes (length buf) (tx.head % pages * 4096))

transmit_lem :
    (m : Memory) (g : Registers) (counters : Slice) (pages : ℕ) (tx : TxQueue) (buf : List ℕ)
    → IsTx counters pages tx
    → length buf ≤ 4096
    → transmit m g counters pages tx buf
      ≡ some (
          if is_full m counters pages tx
          then (queue_full, m, record tx { tail = device_tail m counters tx }, g)
          else (
            sent,
            sent_memory m pages tx buf,
            record tx { tail = device_tail m counters tx; head = (tx.head + 1) % 2 ^ 32 },
            write g tx.doorbell (reverse_bytes32 ((tx.head + 1) % 2 ^ 32)),
          ))
unfolding transmit tx_next
transmit_lem m g counters pages tx buf k small =
    let i : tx.head % tx.size < tx.size = mod-lt tx.head k.positive in
    let p : tx.head % pages < pages = mod-lt tx.head k.some_pages in
    let fits : ltb 4096 (length buf) ≡ false = ground arith in
    let nonzero : (tx.size == 0) ≡ false = ground (arith, k.positive) in
    let nonzero' : (pages == 0) ≡ false = ground (arith, k.some_pages) in
    let at : tx.head % pages * 4096 % 2 ^ 32 ≡ tx.head % pages * 4096 =
      mod-eq_of_lt (omega (arith, k.few_pages)) in
    let counter : tx.counter_index * 4 % 2 ^ 32 ≡ tx.counter_index * 4 =
      mod-eq_of_lt k.counter_small in
    let tail = be_fetch_lem 4 m counters (tx.counter_index * 4) k.counter_room in
    let hi : (tx.head % pages * 4096 + length buf) % 2 ^ 32 ≡ tx.head % pages * 4096 + length buf =
      mod-eq_of_lt (omega (arith, k.few_pages)) in
    let room : (leb (tx.head % pages * 4096) (tx.head % pages * 4096 + length buf)
          && leb (tx.head % pages * 4096 + length buf) tx.qpl.len)
        ≡ true =
      ground (arith, k.qpl_room) in
    let desc : leb (tx.head % tx.size * 16 + 16) tx.desc.len ≡ true = ground (arith, k.desc_room) in
    let short : length buf % 2 ^ 16 ≡ length buf = mod-eq_of_lt (omega arith) in
    elim (Bool-cases (is_full m counters pages tx)) [
      | inl full ↦ rw (fits, nonzero, nonzero', at, counter, tail, full) refl
      | inr free ↦ rw (fits, nonzero, nonzero', at, counter, tail, free, hi, room, desc, short) refl
    ]

-- A frame has gone to the device: it is on its page, its descriptor says where and how long it is,
-- and the doorbell has the new head.
pub record IsSent (m : Memory) (g : Registers) (counters : Slice) (pages : ℕ) (tx : TxQueue)
    (buf : List ℕ) (m' : Memory) (tx' : TxQueue) (g' : Registers) : Type 0 where
  pub free : is_full m counters pages tx ≡ false
  pub frame : load m' (page_of pages tx tx.head) (length buf) ≡ buf
  pub descriptor : load m' (desc_of tx tx.head) 16 ≡ tx_bytes (length buf) (tx.head % pages * 4096)
  pub head : tx'.head ≡ (tx.head + 1) % 2 ^ 32
  pub tail : tx'.tail ≡ device_tail m counters tx
  pub doorbell : g' ≡ write g tx.doorbell (reverse_bytes32 tx'.head)
  pub ready : IsTx counters pages tx'

-- What Transmit returns, on each outcome that it has for a frame of at most a page.
abbrev pub Sends :
    Memory
    → Registers
    → Slice
    → ℕ
    → TxQueue
    → List ℕ
    → Option (Sent × Memory × TxQueue × Registers)
    → Type 0
Sends m g counters pages tx buf none = ⊥
Sends m g counters pages tx buf (some (too_large, m', tx', g')) = ⊥
Sends m g counters pages tx buf (some (queue_full, m', tx', g')) =
    (is_full m counters pages tx ≡ true)
    × (m' ≡ m)
    × (g' ≡ g)
    × (tx' ≡ record tx { tail = device_tail m counters tx })
Sends m g counters pages tx buf (some (sent, m', tx', g')) =
    IsSent m g counters pages tx buf m' tx' g'

IsTx-moved :
    (counters : Slice) (pages : ℕ) (tx : TxQueue) (head tail : ℕ)
    → IsTx counters pages tx
    → head < 2 ^ 32
    → IsTx counters pages (record tx { head = head; tail = tail })
IsTx-moved counters pages tx head tail k h = record {
  positive = k.positive;
  some_pages = k.some_pages;
  bounded = k.bounded;
  few_pages = k.few_pages;
  whole_rings = k.whole_rings;
  whole_lists = k.whole_lists;
  head_small = h;
  desc_room = k.desc_room;
  qpl_room = k.qpl_room;
  apart = k.apart;
  counter_room = k.counter_room;
  counter_small = k.counter_small;
}

-- On queues in order, a frame of at most a page is either refused because as many frames are in flight
-- as the ring or the page list holds, and nothing changes but the recorded tail; or it is put on the
-- page and its descriptor in the slot of the head, the head moves on by one, and the doorbell gets the
-- new head with its bytes swapped.
pub transmit-Sends :
    (m : Memory) (g : Registers) (counters : Slice) (pages : ℕ) (tx : TxQueue) (buf : List ℕ)
    → IsTx counters pages tx
    → length buf ≤ 4096
    → Sends m g counters pages tx buf (transmit m g counters pages tx buf)
transmit-Sends m g counters pages tx buf k small =
    let i : tx.head % tx.size < tx.size = mod-lt tx.head k.positive in
    let p : tx.head % pages < pages = mod-lt tx.head k.some_pages in
    let desc = tx_bytes (length buf) (tx.head % pages * 4096) in
    let m1 = store m (page_of pages tx tx.head) buf in
    elim (Bool-cases (is_full m counters pages tx)) [
      | inl full ↦
          rw (transmit_lem m g counters pages tx buf k small, full) (full, refl, refl, refl)
      | inr free ↦
          rw (transmit_lem m g counters pages tx buf k small, free)
            (record {
              free = free;
              frame =
                  load-store_apart m1 (desc_of tx tx.head) (page_of pages tx tx.head) (length buf)
                    desc (ground (arith, k.apart, k.desc_room, k.qpl_room))
                  ∙ load-store_self m (page_of pages tx tx.head) buf;
              descriptor = load-store_self m1 (desc_of tx tx.head) desc;
              head = refl;
              tail = refl;
              doorbell = refl;
              ready =
                  IsTx-moved counters pages tx ((tx.head + 1) % 2 ^ 32) (device_tail m counters tx)
                    k (omega arith);
            })
    ]

-- The frame `d` before the head stands elsewhere than the new one.
earlier-kept :
    (m : Memory) (counters : Slice) (pages d : ℕ) (tx : TxQueue) (buf : List ℕ)
    → IsTx counters pages tx
    → length buf ≤ 4096
    → 0 < d
    → d < tx.size
    → d < pages
    → let b = (tx.head + 2 ^ 32 - d) % 2 ^ 32 in
      (load (sent_memory m pages tx buf) (page_of pages tx b) 4096
        ≡ load m (page_of pages tx b) 4096)
      × (load (sent_memory m pages tx buf) (desc_of tx b) 16 ≡ load m (desc_of tx b) 16)
earlier-kept m counters pages d tx buf k small pos in_ring in_list =
    let b = (tx.head + 2 ^ 32 - d) % 2 ^ 32 in
    let desc = tx_bytes (length buf) (tx.head % pages * 4096) in
    let m1 = store m (page_of pages tx tx.head) buf in
    let i : tx.head % tx.size < tx.size = mod-lt tx.head k.positive in
    let p : tx.head % pages < pages = mod-lt tx.head k.some_pages in
    let j : b % tx.size < tx.size = mod-lt b k.positive in
    let q : b % pages < pages = mod-lt b k.some_pages in
    let other_slot : b % tx.size ≢ tx.head % tx.size =
      earlier-ne tx.head d tx.size k.head_small pos in_ring (omega (arith, k.bounded))
        k.whole_rings in
    let other_page : b % pages ≢ tx.head % pages =
      earlier-ne tx.head d pages k.head_small pos in_list (omega (arith, k.few_pages))
        k.whole_lists in
    (
      load-store_apart m1 (desc_of tx tx.head) (page_of pages tx b) 4096 desc
            (ground (arith, k.apart, k.desc_room, k.qpl_room))
          ∙ load-store_apart m (page_of pages tx tx.head) (page_of pages tx b) 4096 buf
              (ground arith),
      load-store_apart m1 (desc_of tx tx.head) (desc_of tx b) 16 desc (ground arith)
          ∙ load-store_apart m (page_of pages tx tx.head) (desc_of tx b) 16 buf
              (ground (arith, k.apart, k.desc_room, k.qpl_room)),
    )

-- The memory that a call leaves.
abbrev left_memory : Memory → Option (Sent × Memory × TxQueue × Registers) → Memory
left_memory m none = m
left_memory m (some t) = t.1

-- Transmit leaves every frame that is still in flight, its page and its descriptor, as it was: the
-- frames `d` before the head, for every `d` up to their number.
pub transmit-in_flight :
    (m m' : Memory) (g g' : Registers) (counters : Slice) (pages d : ℕ) (tx tx' : TxQueue)
    (buf : List ℕ) (s : Sent)
    → IsTx counters pages tx
    → length buf ≤ 4096
    → 0 < d
    → d ≤ in_flight m counters tx
    → transmit m g counters pages tx buf ≡ some (s, m', tx', g')
    → (load m' (page_of pages tx ((tx.head + 2 ^ 32 - d) % 2 ^ 32)) 4096
        ≡ load m (page_of pages tx ((tx.head + 2 ^ 32 - d) % 2 ^ 32)) 4096)
      × (load m' (desc_of tx ((tx.head + 2 ^ 32 - d) % 2 ^ 32)) 16
          ≡ load m (desc_of tx ((tx.head + 2 ^ 32 - d) % 2 ^ 32)) 16)
transmit-in_flight m m' g g' counters pages d tx tx' buf s k small pos h e =
    elim (Bool-cases (is_full m counters pages tx)) [
      | inl full ↦
          let run = transmit_lem m g counters pages tx buf k small in
          let kept : m ≡ m' = rw full at (ap (left_memory m) (sym run ∙ e)) in
          rw (← kept) (refl, refl)
      | inr free ↦
          let run = transmit_lem m g counters pages tx buf k small in
          let after : sent_memory m pages tx buf ≡ m' =
            rw free at (ap (left_memory m) (sym run ∙ e)) in
          rw (← after)
            (earlier-kept m counters pages d tx buf k small pos (ground arith) (ground arith))
    ]
