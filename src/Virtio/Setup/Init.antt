-- ===== src/Virtio/Setup/Init.antt =====
-- Init as a whole: two reservations, and a queue that is ready.
use native.Mathlib.Nat.{mod-eq_of_lt, mod-lt, mul_comm, zero-add}
use tamago.Prelude.{
  ℕ, ◌+◌, ◌*◌, ◌%◌, ◌^◌, ◌≤◌, ◌<◌, ◌≡◌, ◌≢◌, refl, sym, ap, ◌∙◌, ◌⊎◌, inl, inr, true, Option, some,
  none, take, leb, [], ◌∷◌, replicate, ◌-◌, ◌&&◌, ◌==◌, if◌then◌else◌, add64, arith, Bool-cases,
  take-length,
}
use tamago.Dma.{Block, Region, Slice, Outcome, ok, panic, out_of_memory, alignment, reserve, find}
use tamago.Dma.Tiling.{IsValid, IsKeyed-find, region_limit, find-none_of_uncovered}
use tamago.Dma.Reserve.{IsTaken, Reserves, reserve-Reserves}
use tamago.Dma.Memory.{Memory, load, store}
use tamago.Dma.Memory.Access.{used-apart}
use tamago.Virtio.{VirtualQueue}
use tamago.Virtio.Encoding.{queue_bytes}
use tamago.Virtio.Access.{word}
use tamago.Virtio.Ready.{IsReady, entry}
use tamago.Virtio.Setup.{init}
use tamago.Virtio.Setup.Loop.{parts, numbers, no_rings, extended, init_descriptors_lem}
use tamago.Virtio.Setup.Table.{table_entry, filled-table, filled-flags, filled-used}
use tamago.Virtio.Setup.Start.{
  fresh, device_offset, queue_size, filled, placed, offsets, placed-IsReady, placed-entry,
}

abbrev slice : ℕ → ℕ → Slice
slice p k = record { ptr = p; len = k }

-- The queue that Init makes of the two reservations at `buf` and `area`.
pub record IsStarted (buf area n flags size : ℕ) (q : VirtualQueue) (r' : Region) (m' : Memory)
    : Type 0 where
  pub ready : IsReady m' q
  pub valid : IsValid r'
  pub size_set : q.size ≡ size
  pub descriptors : q.descriptors ≡ parts (slice buf (size * n)) n flags size 0
  pub index : q.available.index ≡ (if flags == 2 then size else 0)
  pub last : q.used.last ≡ 0
  pub place : q.buf ≡ slice area (queue_size size)
  pub ring_place : q.available.buf ≡ slice (area + 16 * size) (device_offset size - 16 * size)
  pub used_place : q.used.buf ≡ slice (area + device_offset size) (6 + 8 * size)
  pub table : (i : ℕ) → i < size → load m' (area + i * 16) 16 ≡ table_entry (buf + n * i) n flags
  pub ring_flags : load m' (area + 16 * size) 2 ≡ 0 ∷ 0 ∷ []
  pub used_ring : load m' (area + device_offset size) (6 + 8 * size) ≡ replicate (6 + 8 * size) 0
  pub offered : (i : ℕ) → word 2 m' (entry q (i % size)) ≡ i % size
  pub table_address : (q.desc ≡ q.buf.ptr) × (q.desc % 4096 ≡ 0)
  pub driver_address : q.driver ≡ q.available.buf.ptr
  pub device_address : (q.device ≡ q.used.buf.ptr) × (q.device % 4096 ≡ 0)

-- Init either panics for lack of memory in one of its two calls of Reserve, or makes the queue.
abbrev pub Inits : Region → ℕ → ℕ → ℕ → Option (VirtualQueue × Region × Memory) → Type 0
Inits r size n flags none =
    (reserve r (size * n) 0 ≡ panic out_of_memory)
    ⊎ ((a : ℕ) × (s : Slice) × (r1 : Region) × (reserve r (size * n) 0 ≡ ok (a, s, r1))
        × (reserve r1 (queue_size size) 4096 ≡ panic out_of_memory))
Inits r size n flags (some (q, r', m')) =
    (buf : ℕ) × (area : ℕ) × (r1 : Region) × (reserve r (size * n) 0
      ≡ ok (buf, slice buf (size * n), r1))
    × (reserve r1 (queue_size size) 4096 ≡ ok (area, slice area (queue_size size), r'))
    × IsStarted buf area n flags size q r' m'

module _ (r : Region) (m : Memory) (size n flags : ℕ) (v : IsValid r) (pos : 0 < size)
    (bounded : size ≤ 4096) (npos : 0 < n) (hn : 0 < size * n) (fits : size * n < 2 ^ 63) where
  -- The flag test of Init, before and after it.
  flagged :
      (s : Slice)
      → let d = extended fresh (parts s n flags size 0) (numbers size 0) (no_rings size) in
        (if flags == 2
          then record d { available = record d.available { index = size % 2 ^ 16 } }
          else d)
        ≡ filled s n flags size
  flagged s =
      let small : size % 2 ^ 16 ≡ size = mod-eq_of_lt (omega arith) in
      elim (Bool-cases (flags == 2)) [ inl e ↦ rw (e, small) refl | inr e ↦ rw e refl ]

  init-second :
      (r1 : Region) (buf area : ℕ) (r2 : Region)
      → reserve r (size * n) 0 ≡ ok (buf, slice buf (size * n), r1)
      → r1.start ≤ buf
      → buf + size * n ≤ region_limit r1
      → region_limit r1 < 2 ^ 64
      → reserve r1 (queue_size size) 4096 ≡ ok (area, slice area (queue_size size), r2)
      → init r m fresh size n flags
        ≡ some (
          placed (slice buf (size * n)) (slice area (queue_size size)) n flags size,
          r2,
          store m area (queue_bytes (filled (slice buf (size * n)) n flags size)).0,
        )
  unfolding init
  init-second r1 buf area r2 e1 lo hi top e2 =
      let s = slice buf (size * n) in
      let wrap : size * n % 2 ^ 64 ≡ size * n = mod-eq_of_lt (omega arith) in
      let small : size % 2 ^ 16 ≡ size = mod-eq_of_lt (omega arith) in
      let room : n * (0 + size) ≤ size * n = rw (zero-add size, mul_comm n size) (omega arith) in
      let loop = init_descriptors_lem r1 s n flags npos lo hi top size 0 fresh room in
      let (driver, device, all) = offsets s n flags size in
      let first : (leb (16 * size) (device_offset size)
            && leb (device_offset size) (queue_size size))
          ≡ true =
        ground arith in
      let second : (leb (device_offset size) (queue_size size)
            && leb (queue_size size) (queue_size size))
          ≡ true =
        ground arith in
      let whole : take (queue_size size) (queue_bytes (filled s n flags size)).0
          ≡ (queue_bytes (filled s n flags size)).0 =
        ap (λ (k : ℕ). take k (queue_bytes (filled s n flags size)).0) (sym all) ∙ take-length _ in
      rw (wrap, e1, loop, flagged s, all, e2, driver, device, first, second, whole, small) refl

  init-first_panic :
      reserve r (size * n) 0 ≡ panic out_of_memory → init r m fresh size n flags ≡ none
  unfolding init
  init-first_panic e =
      let wrap : size * n % 2 ^ 64 ≡ size * n = mod-eq_of_lt (omega arith) in rw (wrap, e) refl

  init-second_panic :
      (r1 : Region) (buf : ℕ)
      → reserve r (size * n) 0 ≡ ok (buf, slice buf (size * n), r1)
      → r1.start ≤ buf
      → buf + size * n ≤ region_limit r1
      → region_limit r1 < 2 ^ 64
      → reserve r1 (queue_size size) 4096 ≡ panic out_of_memory
      → init r m fresh size n flags ≡ none
  unfolding init
  init-second_panic r1 buf e1 lo hi top e2 =
      let s = slice buf (size * n) in
      let wrap : size * n % 2 ^ 64 ≡ size * n = mod-eq_of_lt (omega arith) in
      let room : n * (0 + size) ≤ size * n = rw (zero-add size, mul_comm n size) (omega arith) in
      let loop = init_descriptors_lem r1 s n flags npos lo hi top size 0 fresh room in
      let (driver, device, all) = offsets s n flags size in
      rw (wrap, e1, loop, flagged s, all, e2) refl

  placed-IsStarted :
      (r1 r2 : Region) (buf area : ℕ)
      → IsTaken r (size * n) 0 buf true r1
      → IsTaken r1 (queue_size size) 4096 area true r2
      → IsStarted buf area n flags size
          (placed (slice buf (size * n)) (slice area (queue_size size)) n flags size)
          r2
          (store m area (queue_bytes (filled (slice buf (size * n)) n flags size)).0)
  unfolding alignment
  placed-IsStarted r1 r2 buf area t1 t2 =
      let s = slice buf (size * n) in
      let b1 : Block = record { addr = buf; size = size * n; res = true } in
      let b2 : Block = record { addr = area; size = queue_size size; res = true } in
      let at1 : find buf r1.used_blocks ≡ some b1 = ground (arith, t1.used buf) in
      let free : find area r1.used_blocks ≡ none =
        find-none_of_uncovered r1.start (region_limit r1) area r1.used_blocks t1.valid.keyed
          (ground (arith, t1.valid.tiled area, t2.taken area)) in
      let ne : buf ≢ area =
        λ e. let taken : find buf r1.used_blocks ≡ none = rw e free in ground arith in
      let still : find buf r2.used_blocks ≡ some b1 = ground (arith, t2.used buf) in
      let at2 : find area r2.used_blocks ≡ some b2 = ground (arith, t2.used area) in
      let apart = used-apart r2 buf area b1 b2 t2.valid ne still at2 in
      let in2 = IsKeyed-find r2.start (region_limit r2) area b2 r2.used_blocks t2.valid.keyed at2 in
      let room : n * size ≤ size * n = rw (mul_comm n size) (omega arith) in
      let ready =
        placed-IsReady m s (slice area (queue_size size)) n flags size pos bounded room refl
          apart in
      let page : area % 4096 ≡ 0 = t2.aligned in
      record {
        ready = ready;
        valid = t2.valid;
        size_set = refl;
        descriptors = refl;
        index = refl;
        last = refl;
        place = refl;
        ring_place = refl;
        used_place = ap (slice (area + device_offset size)) (omega arith);
        table = λ i h. filled-table m s area n flags size i h;
        ring_flags = filled-flags m s area n flags size;
        used_ring = filled-used m s area n flags size;
        offered = λ i.
            placed-entry m s (slice area (queue_size size)) n flags size (i % size) bounded
              (mod-lt i pos);
        table_address = (refl, page);
        driver_address = mod-eq_of_lt (omega (arith, t2.valid.fits));
        device_address =
            let e : add64 area (device_offset size) ≡ area + device_offset size =
              mod-eq_of_lt (omega (arith, t2.valid.fits)) in
            (e, omega arith);
      }

  first-bounds :
      (r1 : Region) (buf : ℕ)
      → IsTaken r (size * n) 0 buf true r1
      → (r1.start ≤ buf) × (buf + size * n ≤ region_limit r1)
  first-bounds r1 buf t1 =
      let b1 : Block = record { addr = buf; size = size * n; res = true } in
      let at1 : find buf r1.used_blocks ≡ some b1 = ground (arith, t1.used buf) in
      let inside =
        IsKeyed-find r1.start (region_limit r1) buf b1 r1.used_blocks t1.valid.keyed at1 in
      (inside.2, inside.3)

  by_second :
      (buf : ℕ) (r1 : Region)
      → reserve r (size * n) 0 ≡ ok (buf, slice buf (size * n), r1)
      → IsTaken r (size * n) 0 buf true r1
      → (o : Outcome (ℕ × Slice × Region)) → reserve r1 (queue_size size) 4096 ≡ o
      → Reserves r1 (queue_size size) 4096 o
      → Inits r size n flags (init r m fresh size n flags)
  by_second buf r1 e1 t1 (panic f) e2 k =
      let (lo, hi) = first-bounds r1 buf t1 in
      let e : reserve r1 (queue_size size) 4096 ≡ panic out_of_memory = e2 ∙ ap panic k.0 in
      rw (init-second_panic r1 buf e1 lo hi t1.valid.fits e)
        (inr (buf, slice buf (size * n), r1, e1, e))
  by_second buf r1 e1 t1 (ok (area, s, r2)) e2 k =
      let (lo, hi) = first-bounds r1 buf t1 in
      let e : reserve r1 (queue_size size) 4096 ≡ ok (area, slice area (queue_size size), r2) =
        e2 ∙ ap (λ (t : Slice). ok (area, t, r2)) k.1 in
      rw (init-second r1 buf area r2 e1 lo hi t1.valid.fits e)
        (buf, area, r1, e1, e, placed-IsStarted r1 r2 buf area t1 k.0)

  by_first :
      (o : Outcome (ℕ × Slice × Region))
      → reserve r (size * n) 0 ≡ o
      → Reserves r (size * n) 0 o
      → Inits r size n flags (init r m fresh size n flags)
  by_first (panic f) e k =
      let e' : reserve r (size * n) 0 ≡ panic out_of_memory = e ∙ ap panic k.0 in
      rw (init-first_panic e') (inl e')
  by_first (ok (buf, s, r1)) e k =
      let e' : reserve r (size * n) 0 ≡ ok (buf, slice buf (size * n), r1) =
        e ∙ ap (λ (t : Slice). ok (buf, t, r1)) k.1 in
      by_second buf r1 e' k.0 (reserve r1 (queue_size size) 4096) refl (
        reserve-Reserves r1 (queue_size size) 4096 k.0.valid (omega arith) (omega arith)
          (omega arith))

  -- On a valid region, for 1 to 4096 descriptors with buffers that are not empty and less than 2 ^ 63 bytes
  -- in all, Init of a fresh queue either panics because one of its two calls of Reserve finds no
  -- memory, or makes a queue that is ready. Its descriptors are the parts of the first reservation
  -- in order. The second reservation holds the table, the available ring and, from the next page on,
  -- the used ring, and the three addresses are theirs. For each descriptor the table has the address
  -- of its part, its length, the flags and no next one. Each slot of the available ring offers the
  -- descriptor of its own number, the index offers all of them if the flag is Write and none if not,
  -- the flags of that ring and all of the used ring are zero, and the region stays valid.
  pub init-Inits : Inits r size n flags (init r m fresh size n flags)
  init-Inits =
      by_first (reserve r (size * n) 0) refl
        (reserve-Reserves r (size * n) 0 v hn fits (omega arith))
