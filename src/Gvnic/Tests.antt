-- ===== src/Gvnic/Tests.antt =====
-- Rings of two and four entries in a concrete memory (kvm/gvnic).
use tamago.Prelude.{
  ℕ, ◌+◌, ◌-◌, ◌%◌, ◌^◌, ◌<◌, ◌≤◌, ◌≡◌, refl, inr, some, List, [], ◌∷◌, ◌==◌, if◌then◌else◌, arith,
}
use tamago.Dma.{Slice}
use tamago.Dma.Memory.{Memory, load, store}
use tamago.Reg.{Registers}
use tamago.Gvnic.{RxQueue, TxQueue, sent, be_fetch, rx_next, receive, tx_next, transmit}
use tamago.Gvnic.Receive.{IsRx, IsAdvanced, rx_next-IsAdvanced, IsReceived, receive-IsReceived}
use tamago.Gvnic.Transmit.{
  IsTx, page_of, desc_of, Sends, transmit-Sends, transmit-in_flight, in_flight,
}

abbrev slice : ℕ → ℕ → Slice
slice p n = record { ptr = p; len = n }

abbrev registers : Registers
registers j = 0

-- The second slot of the data ring at 0x3000 holds the offset 4096; a frame of five bytes has come.
abbrev memory : Memory
memory j =
    if j == 0x300e
    then 16
    else if j == 0x103d
    then 5
    else if j == 0x103f
    then 1
    else if j == 0x4002
    then 7
    else if j == 0x4003
    then 8
    else if j == 0x4004
    then 9
    else 0

abbrev rx : RxQueue
rx = record {
  doorbell = 0x100;
  desc = slice 0x1000 128;
  data_ring = slice 0x3000 16;
  qpl = slice 0x4000 0x2000;
  size = 2;
  cnt = 0;
  fill = 2;
  seqno = 1;
}

rx-IsRx : IsRx memory rx
unfolding load
rx-IsRx = record {
  positive = omega arith;
  bounded = omega arith;
  cnt_small = omega arith;
  fill_small = omega arith;
  seqno_low = omega arith;
  seqno_high = omega arith;
  half = omega arith;
  full = omega arith;
  desc_room = omega arith;
  data_room = omega arith;
  qpl_room = omega arith;
  slots = λ i. let b : i % 2 < 2 = omega arith in ground arith;
}

receive_runs :
    (q : RxQueue) × (g : Registers) × (receive memory registers rx (0 ∷ 0 ∷ 0 ∷ 0 ∷ [])
      ≡ some (3, 7 ∷ 8 ∷ 9 ∷ 0 ∷ [], q, g))
unfolding receive rx_next be_fetch load
receive_runs = (_, _, refl)

receive-IsReceived_example :
    (n : ℕ) × (out : List ℕ) × (rx' : RxQueue) × (g' : Registers) × (receive memory registers rx
        (0 ∷ 0 ∷ 0 ∷ 0 ∷ [])
      ≡ some (n, out, rx', g'))
    × IsReceived memory registers rx (0 ∷ 0 ∷ 0 ∷ 0 ∷ []) n out rx' g'
unfolding load
receive-IsReceived_example =
    receive-IsReceived memory registers rx (0 ∷ 0 ∷ 0 ∷ 0 ∷ []) rx-IsRx (omega arith) (omega arith)

rx_next-IsAdvanced_example :
    IsAdvanced memory registers rx (rx_next registers rx).0 (rx_next registers rx).1
rx_next-IsAdvanced_example = rx_next-IsAdvanced memory registers rx rx-IsRx

-- Two frames are in flight: the device has sent two of four.
abbrev tx : TxQueue
tx = record {
  doorbell = 0x200;
  counter_index = 1;
  desc = slice 0x1000 64;
  qpl = slice 0x4000 0x4000;
  size = 4;
  head = 4;
  tail = 0;
}

abbrev counters : Slice
counters = slice 0x2000 16

abbrev counting : Memory
counting j = if j == 0x2007 then 2 else 0

tx-IsTx : IsTx counters 4 tx
tx-IsTx = record {
  positive = omega arith;
  some_pages = omega arith;
  bounded = omega arith;
  few_pages = omega arith;
  whole_rings = omega arith;
  whole_lists = omega arith;
  head_small = omega arith;
  desc_room = omega arith;
  qpl_room = omega arith;
  apart = inr (omega arith);
  counter_room = omega arith;
  counter_small = omega arith;
}

transmit_runs :
    (m : Memory) × (q : TxQueue) × (g : Registers) × (transmit counting registers counters 4 tx
        (1 ∷ 2 ∷ 3 ∷ [])
      ≡ some (sent, m, q, g))
unfolding transmit tx_next be_fetch load store
transmit_runs = (_, _, _, refl)

transmit-Sends_example :
    Sends counting registers counters 4 tx
      (1 ∷ 2 ∷ 3 ∷ [])
      (transmit counting registers counters 4 tx (1 ∷ 2 ∷ 3 ∷ []))
transmit-Sends_example =
    transmit-Sends counting registers counters 4 tx (1 ∷ 2 ∷ 3 ∷ []) tx-IsTx (omega arith)

one_of_two : 1 ≤ in_flight counting counters tx
unfolding load
one_of_two = omega arith

transmit-in_flight_example :
    (load transmit_runs.0 (page_of 4 tx ((tx.head + 2 ^ 32 - 1) % 2 ^ 32)) 4096
      ≡ load counting (page_of 4 tx ((tx.head + 2 ^ 32 - 1) % 2 ^ 32)) 4096)
    × (load transmit_runs.0 (desc_of tx ((tx.head + 2 ^ 32 - 1) % 2 ^ 32)) 16
        ≡ load counting (desc_of tx ((tx.head + 2 ^ 32 - 1) % 2 ^ 32)) 16)
transmit-in_flight_example =
    transmit-in_flight counting transmit_runs.0 registers transmit_runs.2 counters 4 1 tx
      transmit_runs.1 (1 ∷ 2 ∷ 3 ∷ []) sent tx-IsTx (omega arith) (omega arith) one_of_two
      transmit_runs.3
