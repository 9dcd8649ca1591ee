-- ===== src/Enet/Pop.antt =====
-- What pop and Receive do (soc/nxp/enet/dma.go): the caller's buffer, and the descriptor given back.
use tamago.Prelude.{
  ℕ, ◌+◌, ◌-◌, ◌*◌, ◌^◌, ◌≤◌, ◌<◌, ◌≡◌, inl, inr, refl, ◌∙◌, true, false, not, Option, some, List,
  ◌>>=◌, bit_and, bit_or, ltb, leb, ◌==◌, if◌then◌else◌, length, set, get_elem?, arith, Bool-cases,
}
use tamago.Prelude.Disjoint.{bit_or_comm, bit_or_disjoint}
use tamago.Dma.Memory.{Memory, update}
use tamago.Reg.{Registers}
use tamago.Reg
use tamago.Enet.{
  BufferDescriptor, Ring, Stats, too_small, count, PopResult, no_frame, dropped, frame, read, next,
  pop, receive,
}
use tamago.Enet.Push.{top_bit}
use tamago.Enet.Counts.{accepted, tally, IsCounting, valid_lem}
use tamago.Enet.Read.{filled, read_lem, read_small}

-- The descriptor with the length and the status that the controller left.
abbrev pub seen : BufferDescriptor → Memory → BufferDescriptor
seen bd m = record bd {
  length = m bd.desc.ptr + 2 ^ 8 * m (bd.desc.ptr + 1);
  status = m (bd.desc.ptr + 2) + 2 ^ 8 * m (bd.desc.ptr + 3);
}

-- What a frame in the descriptor is to the caller: nothing, an error, or its bytes but for the checksum.
unfoldable pub delivery : BufferDescriptor → Memory → List ℕ → PopResult
delivery s m buf =
    if accepted s
    then frame (
        if ltb (length buf) (s.length - 4)
        then too_small
        else count (s.length - 4) (filled m s.data_buffer.ptr buf (s.length - 4)))
    else dropped

unfoldable pub Receives :
    ℕ
    → Registers
    → Ring
    → BufferDescriptor
    → Stats
    → Memory
    → List ℕ
    → Option (PopResult × Ring × Stats × Memory × Registers)
    → Type 0
unfolding delivery
Receives rdar g ring bd st m buf r =
    let d = bd.desc.ptr in
    let s = seen bd m in
    (ring' : Ring) × (m' : Memory) × (if leb 128 (m (d + 3))
      then (r ≡ some (no_frame, ring', st, m, Reg.set 32 g rdar 24))
        × (m' ≡ m)
        × (ring'.index ≡ ring.index)
      else (r ≡ some (delivery s m buf, ring', tally s st, m', Reg.set 32 g rdar 24))
        × (m' ≡ update m (d + 3) (m (d + 3) + 128))
        × (ring'.index ≡ (if ring.index == (ring.size - 1) then 0 else ring.index + 1)))

next-index :
    (ring : Ring)
    → (next ring).1.index ≡ (if ring.index == (ring.size - 1) then 0 else ring.index + 1)
unfolding next
next-index ring = elim (Bool-cases (ring.index == (ring.size - 1))) [
  | inl e ↦ rw e refl
  | inr e ↦ rw e refl
]

two_bytes : (a b : ℕ) → a < 256 → bit_or a (b * 2 ^ 8) ≡ a + 2 ^ 8 * b
two_bytes a b h =
    bit_or_comm a (b * 2 ^ 8) ∙ bit_or_disjoint 8 (b * 2 ^ 8) a (omega arith) h ∙ omega arith

delivery_lem :
    (s : BufferDescriptor) (m : Memory) (buf : List ℕ)
    → 1518 ≤ s.data_buffer.len
    → (if accepted s then (do out ← read s m buf; some (frame out)) else some dropped)
      ≡ some (delivery s m buf)
unfolding delivery
delivery_lem s m buf room = elim (Bool-cases (accepted s)) [
  | inr e ↦ rw e refl
  | inl e ↦
      let low : 42 ≤ s.length = ground arith in
      let high : s.length ≤ 1518 = ground arith in
      elim (Bool-cases (ltb (length buf) (s.length - 4))) [
        | inl small ↦ rw (e, small, read_small s m buf (omega arith) small) refl
        | inr fits ↦ rw (e, fits, read_lem s m buf (omega arith) (ground arith) (omega arith)) refl
      ]
]

-- Receive, where the place of the index has a descriptor for 1518 bytes or more, memory holds bytes and the
-- counters 32 bits. An empty descriptor changes no memory, counter or index. Else the caller gets all of the
-- frame but the checksum in front of what its buffer held, or an error when the buffer is too small, if the
-- status has Last and none of the five error bits and the length is from 42 to 1518; and otherwise the
-- frame is dropped. With Last, an overrun is counted alone, without it each of the length, alignment
-- and checksum errors, and without any error bit a length out of bounds; a truncation is not counted, nor
-- a frame without Last. Each time the descriptor is given back, empty, with its other bits as they were,
-- no other byte of memory is written, and the next place is up.
pub receive-Receives :
    (rdar : ℕ) (g : Registers) (ring : Ring) (bd : BufferDescriptor) (st : Stats) (m : Memory)
    (buf : List ℕ)
    → get_elem? ring.bds ring.index ≡ some bd
    → ((x : ℕ) → m x < 256)
    → 1518 ≤ bd.data_buffer.len
    → IsCounting st
    → Receives rdar g ring bd st m buf (receive rdar g ring st m buf)
unfolding receive pop next Receives
receive-Receives rdar g ring bd st m buf e byte room counting =
    let d = bd.desc.ptr in
    let b0 = byte d in
    let b2 = byte (d + 2) in
    let b3 = byte (d + 3) in
    let ring' : Ring = record ring { bds = set ring.bds ring.index (seen bd m) } in
    let len : bit_or (m d) (m (d + 1) * 2 ^ 8) ≡ m d + 2 ^ 8 * m (d + 1) =
      two_bytes (m d) (m (d + 1)) b0 in
    let status : bit_or (m (d + 2)) (m (d + 3) * 2 ^ 8) ≡ m (d + 2) + 2 ^ 8 * m (d + 3) =
      two_bytes (m (d + 2)) (m (d + 3)) b2 in
    elim (Bool-cases (leb 128 (m (d + 3)))) [
      | inl none_yet ↦
          let empty : not (bit_and (m (d + 2) + 2 ^ 8 * m (d + 3)) (2 ^ 15) == 0) ≡ true =
            ground (arith, top_bit (m (d + 2) + 2 ^ 8 * m (d + 3)) (omega arith)) in
          rw none_yet (ring', m, (rw (e, len, status, empty) refl, refl, refl))
      | inr some_frame ↦
          let full : not (bit_and (m (d + 2) + 2 ^ 8 * m (d + 3)) (2 ^ 15) == 0) ≡ false =
            ground (arith, top_bit (m (d + 2) + 2 ^ 8 * m (d + 3)) (omega arith)) in
          let back : bit_or (m (d + 3)) 128 ≡ m (d + 3) + 128 =
            bit_or_comm (m (d + 3)) 128
            ∙ bit_or_disjoint 7 128 (m (d + 3)) refl (ground arith)
            ∙ omega arith in
          let m' = update m (d + 3) (m (d + 3) + 128) in
          rw some_frame (
            (next ring').1,
            m',
            (
              rw
                  (
                    e,
                    len,
                    status,
                    full,
                    back,
                    valid_lem (seen bd m) st counting,
                    delivery_lem (seen bd m) m buf room,
                  )
                  refl,
              refl,
              next-index ring',
            ),
          )
    ]
