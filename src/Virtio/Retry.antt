-- ===== src/Virtio/Retry.antt =====
-- Pop after a failed Pop.
use native.Mathlib.Decide.{ℕ_discrete, dec_lt}
use tamago.Prelude.{
  ℕ, ◌%◌, ◌^◌, ◌<◌, ◌≡◌, ◌≢◌, refl, sym, ap, ◌∙◌, inl, inr, false, some, none, Option, List, [],
  ◌∷◌, zero, suc, length, set, get_elem?, ◌==◌, arith, length-set, ltb, Option-cases,
}
use tamago.Prelude.Endian.{le_bytes}
use tamago.Dma.Memory.{Memory, store}
use tamago.Virtio.{Available, VirtualQueue, Popped, too_small, pop}
use tamago.Virtio.Ready.{IsLaid, IsLaid-refilled, IsReady, slot, entry}
use tamago.Virtio.Supply.{next, slot-lt, set_ring_index_lem, set_index_lem}
use tamago.Virtio.Pop.{
  device_index, used_slot, returned, seen, used_index_lem, used_ring_lem, pop-empty, pop-too_small,
}

set-set {ℓ} : {A : Type ℓ} (xs : List A) (i : ℕ) (v : A) → set (set xs i v) i v ≡ set xs i v
set-set [] i v = refl
set-set (x ∷ xs) zero v = refl
set-set (x ∷ xs) (suc i) v = ap (λ (ys : List _). x ∷ ys) (set-set xs i v)

-- With a used buffer for which there is room, Pop does not say that there is none.
pop-not_too_small :
    (m m' : Memory) (q q' : VirtualQueue) (buf : List ℕ)
    → IsLaid q
    → device_index m q ≢ q.used.last
    → ¬ (length buf < (returned m q).length)
    → pop m q buf ≢ some (too_small, q', m')
unfolding pop
pop-not_too_small m m' q q' buf l ne h =
    let id = (returned m q).index in
    let differs : (device_index m q == q.used.last) ≡ false = ground arith in
    let nonzero : (q.size == 0) ≡ false = ground (arith, l.positive) in
    let enough : ltb (length buf) (returned m q).length ≡ false = ground arith in
    let m1 = store m (entry q (slot q)) (le_bytes 2 (id % 2 ^ 16)) in
    let a1 : Available = record q.available {
      ring = set q.available.ring (slot q) (id % 2 ^ 16);
    } in
    rw (used_index_lem m q l, differs, nonzero, used_ring_lem m q l, enough)
      (elim (Option-cases (get_elem? q.descriptors id)) [
        | inl missing ↦ rw missing (λ e. ground arith)
        | inr (d, found) ↦
            rw
              (
                found,
                set_ring_index_lem m q (slot q) (id % 2 ^ 16) l (slot-lt q l),
                set_index_lem m1 a1 (next q) (omega (arith, l.available_room)),
              )
              (λ e. ground arith)
      ])

pop-seen :
    (m : Memory) (q : VirtualQueue) (buf : List ℕ)
    → IsLaid q
    → device_index m q ≢ q.used.last
    → pop m (record q { used = seen m q }) buf ≡ pop m q buf
unfolding pop
pop-seen m q buf l ne =
    let q' : VirtualQueue = record q { used = seen m q } in
    let l' : IsLaid q' =
      IsLaid-refilled q q.descriptors q.available (seen m q) l l.descriptors l.available
        (length-set q.used.ring (used_slot q) (returned m q) ∙ l.used) refl refl l.apart in
    let differs : (device_index m q == q.used.last) ≡ false = ground arith in
    let nonzero : (q.size == 0) ≡ false = ground (arith, l.positive) in
    rw
      (
        used_index_lem m q' l',
        used_index_lem m q l,
        differs,
        nonzero,
        used_ring_lem m q' l',
        used_ring_lem m q l,
        set-set q.used.ring (used_slot q) (returned m q),
      )
      refl

-- What a Pop leaves, and if it panics, the first argument.
abbrev pub left_queue : VirtualQueue → Option (Popped × VirtualQueue × Memory) → VirtualQueue
left_queue q none = q
left_queue q (some t) = t.1

abbrev pub left_memory : Memory → Option (Popped × VirtualQueue × Memory) → Memory
left_memory m none = m
left_memory m (some t) = t.2

-- When Pop fails for want of room in the caller's buffer, it changes no memory, and nothing is lost: a
-- second Pop with any buffer does what it would have done instead of the first.
pub pop-pop_too_small :
    (m m' : Memory) (q q' : VirtualQueue) (small big : List ℕ)
    → IsReady m q
    → pop m q small ≡ some (too_small, q', m')
    → (m' ≡ m) × (pop m' q' big ≡ pop m q big)
pop-pop_too_small m m' q q' small big k e =
    let l = k.laid in
    elim (ℕ_discrete (device_index m q) q.used.last) [
      | yes z ↦ absurd (let p = pop-empty m q small l z in ground arith)
      | no ne ↦ elim (dec_lt (length small) (returned m q).length) [
        | yes h ↦
            let both : some (too_small, record q { used = seen m q }, m)
                ≡ some (too_small, q', m') =
              sym (pop-too_small m q small l ne h) ∙ e in
            let queue : record q { used = seen m q } ≡ q' = ap (left_queue q) both in
            let memory : m ≡ m' = ap (left_memory m) both in
            rw (← queue, ← memory) (refl, pop-seen m q big l ne)
        | no h ↦ absurd (pop-not_too_small m m' q q' small l ne h e)
      ]
    ]
