-- ===== src/Virtio/Tests.antt =====
-- A queue of two descriptors in a concrete memory (kvm/virtio/queue.go).
use tamago.Prelude.{
  ℕ, ◌%◌, ◌<◌, ◌≡◌, refl, inr, some, List, [], ◌∷◌, get_elem?, ◌==◌, if◌then◌else◌, arith,
}
use tamago.Dma.{Slice}
use tamago.Dma.Memory.{Memory, load, store}
use tamago.Virtio.{
  Descriptor, VirtualQueue, received, too_small, put, fetch, set_ring, read_descriptor,
  write_descriptor, set_index, available_ring, set_ring_index, used_index, decode_ring, used_ring,
  pop, push,
}
use tamago.Virtio.Access.{word}
use tamago.Virtio.Ready.{IsReady, slot, entry}
use tamago.Virtio.Pop.{returned, IsPopped, pop-IsPopped}
use tamago.Virtio.Retry.{pop-pop_too_small}
use tamago.Dma
use tamago.Dma.Tiling.{IsValid}
use tamago.Dma.Memory.History.{init-IsValid}
use tamago.Virtio.Setup
use tamago.Virtio.Setup.Start.{fresh}
use tamago.Virtio.Setup.Init.{Inits, init-Inits}
use tamago.Virtio.Steps.{first, none_left, device_writing, popping, Steps-IsReady}
use tamago.Virtio.Push.{IsPushed, push-IsPushed}

abbrev slice : ℕ → ℕ → Slice
slice p n = record { ptr = p; len = n }

abbrev descriptor : ℕ → Descriptor
descriptor p = record { address = p; length = 16; flags = 2; next = 0; buf = slice p 16 }

-- The table is at 0x1000, the available ring at 0x1020 and the used ring at 0x2000.
abbrev queue : VirtualQueue
queue = record {
  descriptors = descriptor 0x8000 ∷ descriptor 0x8010 ∷ [];
  available = record {
    flags = 0;
    index = 2;
    ring = 0 ∷ 1 ∷ [];
    event_index = 0;
    buf = slice 0x1020 0xfe0;
  };
  used = record {
    flags = 0;
    index = 0;
    ring = record { index = 0; length = 0 } ∷ record { index = 0; length = 0 } ∷ [];
    avail_event = 0;
    buf = slice 0x2000 22;
    last = 0;
  };
  buf = slice 0x1000 0x1016;
  desc = 0x1000;
  driver = 0x1020;
  device = 0x2000;
  size = 2;
}

-- The device has used descriptor 1, with three bytes.
abbrev memory : Memory
memory j =
    if j == 0x1022
    then 2
    else if j == 0x1026
    then 1
    else if j == 0x2002
    then 1
    else if j == 0x2004
    then 1
    else if j == 0x2008
    then 3
    else if j == 0x8010
    then 7
    else if j == 0x8011
    then 8
    else if j == 0x8012
    then 9
    else 0

queue-IsReady : IsReady memory queue
unfolding load
queue-IsReady = record {
  laid = record {
    positive = omega arith;
    bounded = omega arith;
    descriptors = refl;
    available = refl;
    used = refl;
    table_room = omega arith;
    table = omega arith;
    available_room = omega arith;
    order = omega arith;
    used_room = omega arith;
    apart = (inr (omega arith), (inr (omega arith), tt));
  };
  index_small = omega arith;
  last_small = omega arith;
  index_seen = refl;
  entries = λ i. let b : i % 2 < 2 = omega arith in ground arith;
}

-- Pop returns three bytes, and the descriptor is offered again.
pop_runs :
    (q : VirtualQueue) × (m : Memory) × (pop memory queue (0 ∷ 0 ∷ 0 ∷ 0 ∷ [])
      ≡ some (received 3 (7 ∷ 8 ∷ 9 ∷ 0 ∷ []), q, m))
unfolding pop used_index fetch load used_ring decode_ring read_descriptor set_ring_index set_index
    put set_ring store
pop_runs = (_, _, refl)

pop-IsPopped_example :
    (d : Descriptor) × (out : List ℕ) × (q' : VirtualQueue) × (m' : Memory) × (get_elem?
        queue.descriptors
        (returned memory queue).index
      ≡ some d)
    × (pop memory queue (0 ∷ 0 ∷ 0 ∷ 0 ∷ [])
        ≡ some (received (returned memory queue).length out, q', m'))
    × IsPopped memory queue (0 ∷ 0 ∷ 0 ∷ 0 ∷ []) d out q' m'
unfolding load
pop-IsPopped_example =
    pop-IsPopped memory queue (0 ∷ 0 ∷ 0 ∷ 0 ∷ []) queue-IsReady (omega arith) (omega arith)
      (omega arith)

pop_short : (q : VirtualQueue) × (pop memory queue (0 ∷ 0 ∷ []) ≡ some (too_small, q, memory))
unfolding pop used_index fetch load used_ring decode_ring read_descriptor set_ring_index set_index
    put set_ring store
pop_short = (_, refl)

pop-pop_too_small_example :
    (memory ≡ memory)
    × (pop memory pop_short.0 (0 ∷ 0 ∷ 0 ∷ 0 ∷ []) ≡ pop memory queue (0 ∷ 0 ∷ 0 ∷ 0 ∷ []))
pop-pop_too_small_example =
    pop-pop_too_small memory memory queue pop_short.0 (0 ∷ 0 ∷ []) (0 ∷ 0 ∷ 0 ∷ 0 ∷ [])
      queue-IsReady pop_short.1

push-IsPushed_example :
    (id : ℕ) × (d : Descriptor) × (q' : VirtualQueue) × (m' : Memory) × (id
      ≡ word 2 memory (entry queue (slot queue)))
    × (get_elem? queue.descriptors id ≡ some d)
    × (push memory queue (5 ∷ 6 ∷ []) ≡ some (q', m'))
    × IsPushed memory queue (5 ∷ 6 ∷ []) id d q' m'
push-IsPushed_example = push-IsPushed memory queue (5 ∷ 6 ∷ []) queue-IsReady

-- The device writes its used index, and the driver pops.
abbrev later : Memory
later j = if j == 0x2002 then 2 else memory j

later_runs :
    (q : VirtualQueue) × (m : Memory) × (pop later queue (0 ∷ 0 ∷ 0 ∷ [])
      ≡ some (received 3 (7 ∷ 8 ∷ 9 ∷ []), q, m))
unfolding pop used_index fetch load used_ring decode_ring read_descriptor set_ring_index set_index
    put set_ring store
later_runs = (_, _, refl)

Steps-IsReady_example : IsReady later_runs.1 later_runs.0
Steps-IsReady_example =
    Steps-IsReady (queue, memory) (later_runs.0, later_runs.1)
      (first {t = (queue, later)} (device_writing (λ a lo hi. ground arith))
        (first (popping (0 ∷ 0 ∷ 0 ∷ []) (received 3 (7 ∷ 8 ∷ 9 ∷ [])) later_runs.2) none_left))
      queue-IsReady

region-IsValid : IsValid (Dma.init 0x10000 0x10000)
region-IsValid = init-IsValid 0x10000 0x10000 (omega arith) (omega arith)

-- A receive queue of two buffers of 16 bytes.
init-Inits_example :
    Inits
      (Dma.init 0x10000 0x10000)
      2
      16
      2
      (Setup.init (Dma.init 0x10000 0x10000) memory fresh 2 16 2)
init-Inits_example =
    init-Inits (Dma.init 0x10000 0x10000) memory 2 16 2 region-IsValid (omega arith) (omega arith)
      (omega arith) (omega arith) (omega arith)

-- Push of 17 bytes to a buffer of 16 tells the device that there are 17.
push_too_long :
    (q : VirtualQueue) × (m : Memory) × (push memory queue
        (0 ∷ 0 ∷ 0 ∷ 0 ∷ 0 ∷ 0 ∷ 0 ∷ 0 ∷ 0 ∷ 0 ∷ 0 ∷ 0 ∷ 0 ∷ 0 ∷ 0 ∷ 0 ∷ 0 ∷ [])
      ≡ some (q, m))
    × (word 4 m 0x1008 ≡ 17)
unfolding push fetch load available_ring write_descriptor set_ring_index set_index put set_ring
    store
push_too_long = (_, _, refl, refl)
