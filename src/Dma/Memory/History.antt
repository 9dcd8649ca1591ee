-- ===== src/Dma/Memory/History.antt =====
-- Sequences of calls on one region and its memory.
use native.Mathlib.Decide.{ℕ_discrete}
use tamago.Prelude.{
  ℕ, ◌+◌, ◌<◌, ◌^◌, ◌≡◌, refl, List, [], ◌∷◌, arith, length, Bool-cases, inl, inr, ◌⊎◌, ◌==◌,
  if◌then◌else◌, true, false,
}
use tamago.Dma.{Region, Outcome, ok, panic, Slice, init, reserve, reserved, free, release}
use tamago.Dma.Tiling.{IsValid}
use tamago.Dma.Reserve.{Reserves, reserve-Reserves}
use tamago.Dma.Free.{free_block-IsValid}
use tamago.Dma.Memory.{Memory, Buffer, slice_of, alloc_buffer, write}
use tamago.Dma.Memory.Buffers.{Allocates, alloc_buffer-Allocates}

pub data Call : Type 0 where
  reserving : ℕ → ℕ → Call
  allocating : Buffer → ℕ → Call
  writing : ℕ → ℕ → List ℕ → Call
  freeing releasing : ℕ → Call

abbrev pub State : Type 0
State = Region × Memory

-- A call that panics leaves the state as it was.
after_reserve : State → Outcome (ℕ × Slice × Region) → State
after_reserve s (ok (_, _, r')) = (r', s.1)
after_reserve s (panic _) = s

after_alloc : State → Outcome (ℕ × Region × Memory) → State
after_alloc s (ok (_, r', m')) = (r', m')
after_alloc s (panic _) = s

after_write : State → Outcome Memory → State
after_write s (ok m') = (s.0, m')
after_write s (panic _) = s

pub step : Call → State → State
step (reserving size align) (r, m) = after_reserve (r, m) (reserve r size align)
step (allocating buf align) (r, m) = after_alloc (r, m) (alloc_buffer r m buf align)
step (writing addr off buf) (r, m) = after_write (r, m) (write r m addr off buf)
step (freeing addr) (r, m) = (free r addr, m)
step (releasing addr) (r, m) = (release r addr, m)

pub run : List Call → State → State
run [] s = s
run (c ∷ cs) s = run cs (step c s)

-- Sizes and lengths are below 2 ^ 63, that is, not negative; alignments are any `int`.
abbrev pub IsSane : Call → Type 0
IsSane (reserving size align) = (size < 2 ^ 63) × (align < 2 ^ 64)
IsSane (allocating buf align) = (length buf.bytes < 2 ^ 63) × (align < 2 ^ 64)
IsSane (writing addr off buf) = Unit {0}
IsSane (freeing addr) = Unit {0}
IsSane (releasing addr) = Unit {0}

abbrev pub AllSane : List Call → Type 0
AllSane [] = Unit {0}
AllSane (c ∷ cs) = IsSane c × AllSane cs

pub init-IsValid : (start size : ℕ) → 0 < size → start + size < 2 ^ 64 → IsValid (init start size)
unfolding init
init-IsValid start size pos fits = record {
  fits = fits;
  gapped = (omega arith, pos, omega arith, refl, tt);
  keyed = tt;
  tiled = λ a. ground arith;
}

after_reserve-IsValid :
    (s : State) (size align : ℕ) (o : Outcome (ℕ × Slice × Region))
    → IsValid s.0
    → Reserves s.0 size align o
    → IsValid (after_reserve s o).0
unfolding after_reserve
after_reserve-IsValid s size align (ok (addr, t, r')) v k = k.0.valid
after_reserve-IsValid s size align (panic f) v k = v

after_alloc-IsValid :
    (s : State) (buf : Buffer) (align : ℕ) (o : Outcome (ℕ × Region × Memory))
    → IsValid s.0
    → Allocates s.0 buf align o
    → IsValid (after_alloc s o).0
unfolding after_alloc
after_alloc-IsValid s buf align (ok (addr, r', m')) v k = k.0.valid
after_alloc-IsValid s buf align (panic f) v k = v

after_write-IsValid : (s : State) (o : Outcome Memory) → IsValid s.0 → IsValid (after_write s o).0
unfolding after_write
after_write-IsValid s (ok m') v = v
after_write-IsValid s (panic f) v = v

reserve-zero : (r : Region) (align : ℕ) → reserve r 0 align ≡ ok (0, record { ptr = 0; len = 0 }, r)
unfolding reserve
reserve-zero r align = refl

alloc_buffer-kept :
    (r : Region) (m : Memory) (buf : Buffer) (align : ℕ)
    → (length buf.bytes ≡ 0) ⊎ (reserved r (slice_of buf) ≡ true)
    → (addr : ℕ) × (alloc_buffer r m buf align ≡ ok (addr, r, m))
unfolding alloc_buffer
alloc_buffer-kept r m buf align (inl e) = (0, ground arith)
alloc_buffer-kept r m buf align (inr e) =
    (if length buf.bytes == 0 then 0 else buf.ptr, ground arith)

step-IsValid : (c : Call) (s : State) → IsSane c → IsValid s.0 → IsValid (step c s).0
unfolding step free release
step-IsValid (reserving size align) (r, m) h v = elim (ℕ_discrete size 0) [
  | yes z ↦ rw (z, reserve-zero r align) (unfold after_reserve in v)
  | no nz ↦
      after_reserve-IsValid (r, m) size align (reserve r size align) v
        (reserve-Reserves r size align v (omega arith) h.0 h.1)
]
step-IsValid (allocating buf align) (r, m) h v =
    let kept : (length buf.bytes ≡ 0) ⊎ (reserved r (slice_of buf) ≡ true)
        → IsValid (after_alloc (r, m) (alloc_buffer r m buf align)).0 =
      λ k. let (addr, e) = alloc_buffer-kept r m buf align k in rw e (unfold after_alloc in v) in
    elim (ℕ_discrete (length buf.bytes) 0) [
      | yes z ↦ kept (inl z)
      | no nz ↦ elim (Bool-cases (reserved r (slice_of buf))) [
        | inl own ↦ kept (inr own)
        | inr apart ↦
            after_alloc-IsValid (r, m) buf align (alloc_buffer r m buf align) v
              (alloc_buffer-Allocates r m buf align v (omega arith) h.0 h.1 apart)
      ]
    ]
step-IsValid (writing addr off buf) (r, m) h v =
    after_write-IsValid (r, m) (write r m addr off buf) v
step-IsValid (freeing addr) (r, m) h v = free_block-IsValid r addr false v
step-IsValid (releasing addr) (r, m) h v = free_block-IsValid r addr true v

run-IsValid : (cs : List Call) (s : State) → AllSane cs → IsValid s.0 → IsValid (run cs s).0
unfolding run
run-IsValid [] s h v = v
run-IsValid (c ∷ cs) s h v = run-IsValid cs (step c s) h.1 (step-IsValid c s h.0 v)

-- After any sequence of Reserve, Alloc, Write, Free and Release calls on a fresh region that is not
-- empty and ends below 2 ^ 64, with no negative size among them, the region satisfies the invariant:
-- free blocks in order with gaps between them, used blocks under their addresses, and each byte of
-- the region in exactly one block, free or used.
pub run-init-IsValid :
    (start size : ℕ) (m : Memory) (cs : List Call)
    → 0 < size
    → start + size < 2 ^ 64
    → AllSane cs
    → IsValid (run cs (init start size, m)).0
run-init-IsValid start size m cs pos fits h =
    run-IsValid cs (init start size, m) h (init-IsValid start size pos fits)
