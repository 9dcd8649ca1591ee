-- ===== src/Gvnic/Receive.antt =====
-- What Receive does, and the flow control of the receive ring.
use native.Mathlib.Nat.{mod-lt, mod-eq_of_lt}
use tamago.Prelude.{
  ℕ, ◌+◌, ◌-◌, ◌*◌, ◌/◌, ◌%◌, ◌^◌, ◌≤◌, ◌<◌, ◌≡◌, refl, ◌∙◌, min, Bool, true, false, ◌&&◌, some,
  List, ◌++◌, length, drop, bit_and, ltb, leb, ◌==◌, if◌then◌else◌, Bool-cases, inl, inr, add64,
  arith, length-append, length-drop,
}
use tamago.Prelude.Endian.{be_value, reverse_bytes32}
use tamago.Dma.{Slice}
use tamago.Dma.Memory.{Memory, load}
use tamago.Dma.Memory.Laws.{length-load}
use tamago.Reg.{Registers, write}
use tamago.Gvnic.{flags_mask, RxQueue, be_fetch, rx_next, receive}

-- A number in memory, the high byte first.
abbrev pub be_word : ℕ → Memory → ℕ → ℕ
be_word n m a = be_value 0 (load m a n)

pub be_fetch_lem :
    (n : ℕ) (m : Memory) (s : Slice) (off : ℕ)
    → off + n ≤ s.len
    → be_fetch n m s off ≡ some (be_word n m (s.ptr + off))
unfolding be_fetch
be_fetch_lem n m s off h = let e : leb (off + n) s.len ≡ true = ground arith in rw e refl

-- The number of buffers that the device may still fill.
abbrev pub posted : RxQueue → ℕ
posted rx = (rx.fill + 2 ^ 32 - rx.cnt) % 2 ^ 32

-- More than half of the ring is with the device, and the data ring names the pages in order.
pub record IsRx (m : Memory) (rx : RxQueue) : Type 0 where
  pub positive : 0 < rx.size
  pub bounded : rx.size < 2 ^ 16
  pub cnt_small : rx.cnt < 2 ^ 32
  pub fill_small : rx.fill < 2 ^ 32
  pub seqno_low : 1 ≤ rx.seqno
  pub seqno_high : rx.seqno ≤ 7
  pub half : rx.size / 2 < posted rx
  pub full : posted rx ≤ rx.size
  pub desc_room : 64 * rx.size ≤ rx.desc.len
  pub data_room : 8 * rx.size ≤ rx.data_ring.len
  pub qpl_room : 4096 * rx.size ≤ rx.qpl.len
  pub slots : (i : ℕ) → be_word 8 m (rx.data_ring.ptr + i % rx.size * 8) ≡ i % rx.size * 4096

abbrev pub index : RxQueue → ℕ
index rx = rx.cnt % rx.size

-- What the device has written for the next frame, and where the frame is.
abbrev pub frame_length : Memory → RxQueue → ℕ
frame_length m rx = be_word 2 m (rx.desc.ptr + (index rx * 64 + 60))

abbrev pub arrived : Memory → RxQueue → Bool
arrived m rx = bit_and (be_word 2 m (rx.desc.ptr + (index rx * 64 + 62))) flags_mask == rx.seqno

abbrev pub frame_start : RxQueue → ℕ
frame_start rx = rx.qpl.ptr + (index rx * 4096 + 2)

-- The ring after a frame: the cursor and the sequence number move on, and all of the ring is posted
-- again once no more than half of it would be.
pub record IsAdvanced (m : Memory) (g : Registers) (rx rx' : RxQueue) (g' : Registers)
    : Type 0 where
  pub ready : IsRx m rx'
  pub cnt : rx'.cnt ≡ (rx.cnt + 1) % 2 ^ 32
  pub seqno : rx'.seqno ≡ rx.seqno % 7 + 1
  pub posted_after :
      posted rx' ≡ (if ltb (rx.size / 2) (posted rx - 1) then posted rx - 1 else rx.size)
  pub doorbell : g' ≡ (
      if ltb (rx.size / 2) (posted rx - 1)
      then g
      else write g rx.doorbell (reverse_bytes32 rx'.fill))

-- A ring with another cursor.
IsRx-moved :
    (m : Memory) (rx : RxQueue) (cnt fill seqno : ℕ)
    → IsRx m rx
    → cnt < 2 ^ 32
    → fill < 2 ^ 32
    → 1 ≤ seqno
    → seqno ≤ 7
    → rx.size / 2 < (fill + 2 ^ 32 - cnt) % 2 ^ 32
    → (fill + 2 ^ 32 - cnt) % 2 ^ 32 ≤ rx.size
    → IsRx m (record rx { cnt = cnt; fill = fill; seqno = seqno })
IsRx-moved m rx cnt fill seqno k hc hf lo hi half full = record {
  positive = k.positive;
  bounded = k.bounded;
  cnt_small = hc;
  fill_small = hf;
  seqno_low = lo;
  seqno_high = hi;
  half = half;
  full = full;
  desc_room = k.desc_room;
  data_room = k.data_room;
  qpl_room = k.qpl_room;
  slots = k.slots;
}

-- On a ring that is ready, a frame moves the cursor on by one and turns the sequence number through 1 to
-- 7. The buffers posted to the device become one fewer while more than half of the ring remains;
-- otherwise all of the ring is posted again and the doorbell is rung, once. Afterwards more than half
-- of the ring is posted, never more than the ring, and the counters may have wrapped.
pub rx_next-IsAdvanced :
    (m : Memory) (g : Registers) (rx : RxQueue)
    → IsRx m rx
    → IsAdvanced m g rx (rx_next g rx).0 (rx_next g rx).1
unfolding rx_next
rx_next-IsAdvanced m g rx k =
    let cnt = (rx.cnt + 1) % 2 ^ 32 in
    let fill = (cnt + rx.size) % 2 ^ 32 in
    let seqno = if rx.seqno == flags_mask then 1 else (rx.seqno + 1) % 2 ^ 16 in
    let left : (rx.fill + 2 ^ 32 - cnt) % 2 ^ 32 ≡ posted rx - 1 =
      omega (arith, k.cnt_small, k.fill_small, k.half) in
    let again : (fill + 2 ^ 32 - cnt) % 2 ^ 32 ≡ rx.size = omega (arith, k.bounded) in
    let turn : seqno ≡ rx.seqno % 7 + 1 = ground (arith, k.seqno_low, k.seqno_high) in
    elim (Bool-cases (ltb (rx.size / 2) (posted rx - 1))) [
      | inl e ↦
          rw (left, e)
            (record {
              ready =
                  IsRx-moved m rx cnt rx.fill seqno k (omega arith) k.fill_small
                    (omega (arith, turn)) (omega (arith, turn)) (ground arith)
                    (omega (arith, k.full));
              cnt = refl;
              seqno = turn;
              posted_after = rw e left;
              doorbell = rw e refl;
            })
      | inr e ↦
          rw (left, e)
            (record {
              ready =
                  IsRx-moved m rx cnt fill seqno k (omega arith) (omega arith) (omega (arith, turn))
                    (omega (arith, turn)) (omega (arith, again, k.positive)) (omega (arith, again));
              cnt = refl;
              seqno = turn;
              posted_after = rw e again;
              doorbell = rw e refl;
            })
    ]

-- What a call of Receive with a buffer gives: nothing, or one frame without its padding.
pub record IsReceived (m : Memory) (g : Registers) (rx : RxQueue) (buf : List ℕ) (n : ℕ)
    (out : List ℕ) (rx' : RxQueue) (g' : Registers) : Type 0 where
  pub count : n ≡ (if arrived m rx then min (length buf) (frame_length m rx - 2) else 0)
  pub contents : out ≡ load m (frame_start rx) n ++ drop n buf
  pub out_length : length out ≡ length buf
  pub after : (rx', g') ≡ (if arrived m rx then rx_next g rx else (rx, g))
  pub ready : IsRx m rx'

result_length :
    (m : Memory) (a n : ℕ) (buf : List ℕ)
    → n ≤ length buf
    → length (load m a n ++ drop n buf) ≡ length buf
result_length m a n buf h =
    length-append (load m a n) (drop n buf)
    ∙ rw (length-load m a n, length-drop n buf) (omega arith)

-- On a ring that is ready, with a buffer that is not empty and a frame of at most a page, Receive does
-- not panic. If the next descriptor does not carry the sequence number that is due, it returns 0
-- and changes nothing; if it does, it copies the frame without the two bytes of padding, as far as
-- the buffer reaches, and the ring advances by one frame and is ready again.
pub receive-IsReceived :
    (m : Memory) (g : Registers) (rx : RxQueue) (buf : List ℕ)
    → IsRx m rx
    → 0 < length buf
    → frame_length m rx ≤ 4096
    → (n : ℕ) × (out : List ℕ) × (rx' : RxQueue) × (g' : Registers) × (receive m g rx buf
        ≡ some (n, out, rx', g'))
      × IsReceived m g rx buf n out rx' g'
unfolding receive load
receive-IsReceived m g rx buf k some_room page =
    let i : index rx < rx.size = mod-lt rx.cnt k.positive in
    let nonempty : (length buf == 0) ≡ false = ground arith in
    let nonzero : (rx.size == 0) ≡ false = ground (arith, k.positive) in
    let len = be_fetch_lem 2 m rx.desc (index rx * 64 + 60) (omega (arith, k.desc_room)) in
    let seq = be_fetch_lem 2 m rx.desc (index rx * 64 + 62) (omega (arith, k.desc_room)) in
    let next = rx_next-IsAdvanced m g rx k in
    elim (Bool-cases (arrived m rx)) [
      | inr miss ↦ (
        0,
        buf,
        rx,
        g,
        rw (nonempty, nonzero, len, seq, miss) refl,
        record {
          count = rw miss refl;
          contents = refl;
          out_length = refl;
          after = rw miss refl;
          ready = k;
        },
      )
      | inl hit ↦ elim (Bool-cases (leb (frame_length m rx) 2)) [
        | inl short ↦ (
          0,
          buf,
          (rx_next g rx).0,
          (rx_next g rx).1,
          rw (nonempty, nonzero, len, seq, hit, short) refl,
          record {
            count = rw hit (ground arith);
            contents = refl;
            out_length = refl;
            after = rw hit refl;
            ready = next.ready;
          },
        )
        | inr long ↦
            let n = min (length buf) (frame_length m rx - 2) in
            let wrap : index rx * 8 % 2 ^ 32 ≡ index rx * 8 =
              mod-eq_of_lt (omega (arith, k.bounded)) in
            let ring = be_fetch_lem 8 m rx.data_ring (index rx * 8) (omega (arith, k.data_room)) in
            let slot : be_word 8 m (rx.data_ring.ptr + index rx * 8) ≡ index rx * 4096 =
              k.slots rx.cnt in
            let at = index rx * 4096 in
            let lo : add64 at 2 ≡ at + 2 = mod-eq_of_lt (omega (arith, k.bounded)) in
            let hi : add64 at (frame_length m rx) ≡ at + frame_length m rx =
              mod-eq_of_lt (omega (arith, k.bounded)) in
            let inside : (leb (at + 2) (at + frame_length m rx)
                  && leb (at + frame_length m rx) rx.qpl.len)
                ≡ true =
              ground (arith, k.qpl_room) in
            let span : at + frame_length m rx - (at + 2) ≡ frame_length m rx - 2 = omega arith in
            (
              n,
              load m (frame_start rx) n ++ drop n buf,
              (rx_next g rx).0,
              (rx_next g rx).1,
              rw (nonempty, nonzero, len, seq, hit, long, wrap, ring, slot, lo, hi, inside, span)
                  refl,
              record {
                count = rw hit refl;
                contents = refl;
                out_length = result_length m (frame_start rx) n buf (omega arith);
                after = rw hit refl;
                ready = next.ready;
              },
            )
      ]
    ]
