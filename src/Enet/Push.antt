-- ===== src/Enet/Push.antt =====
-- What push and Transmit do (soc/nxp/enet/dma.go): the frame, its descriptor, and nothing else.
use tamago.Prelude.{
  ℕ, ◌+◌, ◌-◌, ◌*◌, ◌/◌, ◌%◌, ◌^◌, ◌≤◌, ◌<◌, ◌≡◌, ◌⊎◌, inl, inr, refl, ◌∙◌, true, false, not,
  Option, some, List, bit_and, bit_or, ltb, leb, ◌==◌, if◌then◌else◌, length, set, get_elem?, arith,
  Bool-cases,
}
use tamago.Prelude.Align.{bit_and_low_mask}
use tamago.Prelude.Disjoint.{bit_and_complement}
use tamago.Dma.Memory.{Memory, load, store, update}
use tamago.Dma.Memory.Laws.{load-cong, load-store_self, store-outside}
use tamago.Reg.{Registers}
use tamago.Reg
use tamago.Enet.{
  BufferDescriptor, Ring, write, next, push, transmit, Sent, queued, not_sent, too_large,
}
use tamago.Enet.Write.{write_lem}

-- A bit test at the top of sixteen bits.
pub top_bit : (x : ℕ) → x < 2 ^ 16 → bit_and x (2 ^ 15) ≡ x - x % 2 ^ 15
top_bit x h =
    omega (arith, bit_and_complement 16 x (2 ^ 15 - 1) h (omega arith), bit_and_low_mask 15 x)

high_byte : (x : ℕ) → x < 2 ^ 16 → bit_and x 0xff00 / 2 ^ 8 ≡ x / 2 ^ 8
high_byte x h = omega (arith, bit_and_complement 16 x 0xff h (omega arith), bit_and_low_mask 8 x)

-- A frame in the place of the index, as the controller finds it: its length, its status (ready, last, with
-- checksum, and wrap in the last place), its bytes; and nothing else of memory is written.
pub record Queues (ring : Ring) (bd : BufferDescriptor) (m : Memory) (buf : List ℕ) (ring' : Ring)
    (m' : Memory) : Type 0 where
  pub length_field : m' bd.desc.ptr + 2 ^ 8 * m' (bd.desc.ptr + 1) ≡ length buf
  pub low_status : m' (bd.desc.ptr + 2) ≡ 0
  pub high_status : m' (bd.desc.ptr + 3) ≡ (if ring.index == (ring.size - 1) then 0xac else 0x8c)
  pub frame : load m' bd.data_buffer.ptr (length buf) ≡ buf
  pub others :
      (x : ℕ)
      → (x < bd.desc.ptr) ⊎ (bd.desc.ptr + 4 ≤ x)
      → (x < bd.data_buffer.ptr) ⊎ (bd.data_buffer.ptr + length buf ≤ x)
      → m' x ≡ m x
  pub index : ring'.index ≡ (if ring.index == (ring.size - 1) then 0 else ring.index + 1)

module _ (m : Memory) (d a b : ℕ) where
  abbrev header : Memory
  header = update (update (update (update m d a) (d + 1) b) (d + 2) 0) (d + 3) 0x0c

  zeroth : header d ≡ a
  zeroth = ground arith

  first : header (d + 1) ≡ b
  first = ground arith

  second : header (d + 2) ≡ 0
  second = ground arith

  third : header (d + 3) ≡ 0x0c
  third = ground arith

  apart_from : (x : ℕ) → (x < d) ⊎ (d + 4 ≤ x) → header x ≡ m x
  apart_from x h = ground arith

-- The memory before the descriptor is given to the controller.
abbrev filled : BufferDescriptor → Memory → List ℕ → Memory
filled bd m buf =
    let d = bd.desc.ptr in
    store
      (update (update (update (update m d (length buf % 256)) (d + 1) (length buf / 256)) (d + 2) 0)
        (d + 3) 0x0c)
      bd.data_buffer.ptr buf

given-Queues :
    (ring ring' : Ring) (bd : BufferDescriptor) (m m' : Memory) (buf : List ℕ)
    → length buf < 2 ^ 16
    → length buf ≤ bd.data_buffer.len
    → (bd.desc.ptr + 4 ≤ bd.data_buffer.ptr)
      ⊎ (bd.data_buffer.ptr + bd.data_buffer.len ≤ bd.desc.ptr)
    → m' (bd.desc.ptr + 3) ≡ (if ring.index == (ring.size - 1) then 0xac else 0x8c)
    → ((x : ℕ) → (x < bd.desc.ptr + 3) ⊎ (bd.desc.ptr + 3 < x) → m' x ≡ filled bd m buf x)
    → ring'.index ≡ (if ring.index == (ring.size - 1) then 0 else ring.index + 1)
    → Queues ring bd m buf ring' m'
given-Queues ring ring' bd m m' buf small fits apart top rest step =
    let d = bd.desc.ptr in
    let m4 =
      update (update (update (update m d (length buf % 256)) (d + 1) (length buf / 256)) (d + 2) 0)
        (d + 3) 0x0c in
    let keeps : (x : ℕ) → (d ≤ x) → (x < d + 3) → m' x ≡ m4 x =
      λ x p q. rest x (inl q) ∙ store-outside m4 bd.data_buffer.ptr x buf (ground arith) in
    record {
      length_field = omega (
        arith,
        keeps d (omega arith) (omega arith) ∙ zeroth m d (length buf % 256) (length buf / 256),
        keeps (d + 1) (omega arith) (omega arith) ∙ first m d (length buf % 256) (length buf / 256),
      );
      low_status =
          keeps (d + 2) (omega arith) (omega arith)
          ∙ second m d (length buf % 256) (length buf / 256);
      high_status = top;
      frame =
          load-cong m' (filled bd m buf) bd.data_buffer.ptr (length buf)
            (λ x p q. rest x (ground arith))
          ∙ load-store_self m4 bd.data_buffer.ptr buf;
      others = λ x p q.
          rest x (ground arith)
          ∙ store-outside m4 bd.data_buffer.ptr x buf q
          ∙ apart_from m d (length buf % 256) (length buf / 256) x p;
      index = step;
    }

push_lem :
    (ring : Ring) (bd : BufferDescriptor) (m : Memory) (buf : List ℕ)
    → get_elem? ring.bds ring.index ≡ some bd
    → m (bd.desc.ptr + 3) < 128
    → length buf < 2 ^ 16
    → length buf ≤ bd.data_buffer.len
    → (bd.desc.ptr + 4 ≤ bd.data_buffer.ptr)
      ⊎ (bd.data_buffer.ptr + bd.data_buffer.len ≤ bd.desc.ptr)
    → (ring' : Ring) × (m' : Memory) × (push ring m buf ≡ some (true, ring', m'))
      × Queues ring bd m buf ring' m'
unfolding push next
push_lem ring bd m buf e free small fits apart =
    let d = bd.desc.ptr in
    let ready : not (bit_and (m (d + 3) * 2 ^ 8 % 2 ^ 16) (2 ^ 15) == 0) ≡ false =
      ground (arith, top_bit (m (d + 3) * 2 ^ 8 % 2 ^ 16) (omega arith)) in
    let whole : length buf % 2 ^ 16 ≡ length buf = omega arith in
    let low : bit_and (length buf) 0xff ≡ length buf % 256 = bit_and_low_mask 8 (length buf) in
    let high : bit_and (length buf) 0xff00 / 2 ^ 8 ≡ length buf / 256 =
      high_byte (length buf) small in
    let bd' : BufferDescriptor = record bd {
      length = length buf;
      status = bit_or (2 ^ 11) (2 ^ 10);
    } in
    let m4 =
      update (update (update (update m d (length buf % 256)) (d + 1) (length buf / 256)) (d + 2) 0)
        (d + 3) 0x0c in
    let written : write bd' m4 buf ≡ some (store m4 bd.data_buffer.ptr buf) =
      write_lem bd' m4 buf fits in
    let m5 = filled bd m buf in
    let before : m5 (d + 3) ≡ 0x0c =
      store-outside m4 bd.data_buffer.ptr (d + 3) buf (ground arith)
      ∙ third m d (length buf % 256) (length buf / 256) in
    elim (Bool-cases (ring.index == (ring.size - 1))) [
      | inl last ↦
          let ring' : Ring = record ring { bds = set ring.bds ring.index bd'; index = 0 } in
          let m6 = update m5 (d + 3) 0x2c in
          let m7 = update m6 (d + 3) 0xac in
          let same : (d + 3 == (d + 3)) ≡ true = ground arith in
          (
            ring',
            m7,
            rw (e, ready, whole, low, high, written, last, before, same) refl,
            given-Queues ring ring' bd m m7 buf small fits apart (rw last (ground arith))
                (λ x p. ground arith) (rw last refl),
          )
      | inr inner ↦
          let ring' : Ring = record ring {
            bds = set ring.bds ring.index bd';
            index = ring.index + 1;
          } in
          let m7 = update m5 (d + 3) 0x8c in
          (
            ring',
            m7,
            rw (e, ready, whole, low, high, written, inner, before) refl,
            given-Queues ring ring' bd m m7 buf small fits apart (rw inner (ground arith))
                (λ x p. ground arith) (rw inner refl),
          )
    ]

-- The descriptor that Transmit uses is the controller's still.
push_busy :
    (ring : Ring) (bd : BufferDescriptor) (m : Memory) (buf : List ℕ)
    → get_elem? ring.bds ring.index ≡ some bd
    → 128 ≤ m (bd.desc.ptr + 3)
    → m (bd.desc.ptr + 3) < 256
    → push ring m buf ≡ some (false, ring, m)
unfolding push
push_busy ring bd m buf e busy byte =
    let taken : not (bit_and (m (bd.desc.ptr + 3) * 2 ^ 8 % 2 ^ 16) (2 ^ 15) == 0) ≡ true =
      ground (arith, top_bit (m (bd.desc.ptr + 3) * 2 ^ 8 % 2 ^ 16) (omega arith)) in
    rw (e, taken) refl

-- What Transmit returns, by the length of the frame and the ready bit of the descriptor.
unfoldable pub Transmits :
    ℕ
    → Registers
    → Ring
    → BufferDescriptor
    → Memory
    → List ℕ
    → Option (Sent × Ring × Memory × Registers)
    → Type 0
Transmits tdar g ring bd m buf r =
    if ltb 1518 (length buf)
    then r ≡ some (too_large, ring, m, g)
    else if leb 128 (m (bd.desc.ptr + 3))
    then r ≡ some (not_sent, ring, m, Reg.set 32 g tdar 24)
    else ((ring' : Ring) × (m' : Memory) × (r ≡ some (queued, ring', m', Reg.set 32 g tdar 24))
        × Queues ring bd m buf ring' m')

-- Transmit, where the place of the index has a descriptor with 1536 bytes for the frame apart from it, and
-- memory holds bytes: a frame of more than 1518 bytes is refused; with the descriptor still the
-- controller's, nothing is written; else the frame is queued, with its length, its bytes and the status
-- that the controller wants, wrap in the last place alone, and no other byte of memory is written. The
-- doorbell rings unless the frame is refused.
pub transmit-Transmits :
    (tdar : ℕ) (g : Registers) (ring : Ring) (bd : BufferDescriptor) (m : Memory) (buf : List ℕ)
    → get_elem? ring.bds ring.index ≡ some bd
    → bd.data_buffer.len ≡ 1536
    → (bd.desc.ptr + 4 ≤ bd.data_buffer.ptr) ⊎ (bd.data_buffer.ptr + 1536 ≤ bd.desc.ptr)
    → m (bd.desc.ptr + 3) < 256
    → Transmits tdar g ring bd m buf (transmit tdar g ring m buf)
unfolding transmit Transmits
transmit-Transmits tdar g ring bd m buf e room apart byte =
    elim (Bool-cases (ltb 1518 (length buf))) [
      | inl large ↦ rw large refl
      | inr fits ↦ elim (Bool-cases (leb 128 (m (bd.desc.ptr + 3)))) [
        | inl busy ↦ rw (fits, busy, push_busy ring bd m buf e (ground arith) byte) refl
        | inr free ↦
            let (ring', m', q, k) =
              push_lem ring bd m buf e (ground arith) (ground arith) (ground arith)
                (ground arith) in
            rw (fits, free, q) (ring', m', refl, k)
      ]
    ]
