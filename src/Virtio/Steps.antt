-- ===== src/Virtio/Steps.antt =====
-- The driver and the device at work on one queue, in any order.
use native.Mathlib.Nat.{mod-lt}
use native.Mathlib.Decide.{ℕ_discrete, dec_lt}
use tamago.Prelude.{
  ℕ, zero, suc, ◌+◌, ◌*◌, ◌%◌, ◌≤◌, ◌<◌, ◌≡◌, ◌≢◌, refl, sym, ap, ◌∙◌, inl, inr, Bool, false, some,
  none, Option, Option-cases, List, [], ◌∷◌, length, get_elem?, ltb, ◌==◌, arith, length-set,
}
use tamago.Dma.Memory.{Memory, load}
use tamago.Virtio.{VirtualQueue, Used, Popped, needs_notify, pop, push}
use tamago.Virtio.Access.{word}
use tamago.Virtio.Ready.{IsLaid, IsLaid-refilled, IsReady}
use tamago.Virtio.Pop.{
  device_index, used_slot, returned, seen, used_index_lem, used_ring_lem, pop-empty, pop-too_small,
  pop-IsPopped,
}
use tamago.Virtio.Retry.{left_queue, left_memory}
use tamago.Virtio.Push.{push-IsPushed}

abbrev pub State : Type 0
State = VirtualQueue × Memory

-- A method of the driver that does not panic, or the device, which may write what it likes except in
-- the available ring.
pub data Step : State → State → Type 0 where
  pushing :
      {q q' : VirtualQueue} {m m' : Memory} (buf : List ℕ)
      → push m q buf ≡ some (q', m')
      → Step (q, m) (q', m')
  popping :
      {q q' : VirtualQueue} {m m' : Memory} (buf : List ℕ) (p : Popped)
      → pop m q buf ≡ some (p, q', m')
      → Step (q, m) (q', m')
  asking :
      {q q' : VirtualQueue} {m : Memory} (b : Bool)
      → needs_notify m q ≡ some (b, q')
      → Step (q, m) (q', m)
  device_writing :
      {q : VirtualQueue} {m m' : Memory}
      → ((a : ℕ)
          → q.available.buf.ptr ≤ a
          → a < q.available.buf.ptr + q.available.buf.len
          → m' a ≡ m a)
      → Step (q, m) (q, m')

pub data Steps : State → State → Type 0 where
  none_left : {s : State} → Steps s s
  first : {s t u : State} → Step s t → Steps t u → Steps s u

get_elem?-bound {ℓ} :
    {A : Type ℓ} (xs : List A) (i : ℕ) (x : A) → get_elem? xs i ≡ some x → i < length xs
get_elem?-bound [] i x e = ground arith
get_elem?-bound (y ∷ xs) zero x e = omega arith
get_elem?-bound (y ∷ xs) (suc i) x e = omega (arith, get_elem?-bound xs i x e)

IsReady-device :
    (q : VirtualQueue) (m m' : Memory)
    → IsReady m q
    → ((a : ℕ)
        → q.available.buf.ptr ≤ a
        → a < q.available.buf.ptr + q.available.buf.len
        → m' a ≡ m a)
    → IsReady m' q
unfolding load
IsReady-device q m m' k same =
    let l = k.laid in
    let p = q.available.buf.ptr in
    let twin : (o : ℕ) → o + 2 ≤ q.available.buf.len → word 2 m' (p + o) ≡ word 2 m (p + o) = λ o h.
      rw (same (p + o) (omega arith) (omega arith), same (p + o + 1) (omega arith) (omega arith))
        refl in
    record {
      laid = l;
      index_small = k.index_small;
      last_small = k.last_small;
      index_seen = twin 2 (omega (arith, l.available_room)) ∙ k.index_seen;
      entries = λ i.
          let b : i % q.size < q.size = mod-lt i l.positive in
          rw (twin (4 + i % q.size * 2) (omega (arith, l.available_room))) (k.entries i);
    }

-- The queue stays ready when Used is read.
IsReady-seen :
    (m : Memory) (q : VirtualQueue) (u : Used)
    → IsReady m q
    → length u.ring ≡ q.size
    → u.buf ≡ q.used.buf
    → u.last ≡ q.used.last
    → IsReady m (record q { used = u })
IsReady-seen m q u k count same last = record {
  laid =
      IsLaid-refilled q q.descriptors q.available u k.laid k.laid.descriptors k.laid.available count
        refl same k.laid.apart;
  index_small = k.index_small;
  last_small = omega (arith, k.last_small);
  index_seen = k.index_seen;
  entries = k.entries;
}

-- A Pop that finds a used buffer with room for it, and does not panic, found a descriptor of the queue.
pop-in_bounds :
    (m m' : Memory) (q q' : VirtualQueue) (buf : List ℕ) (p : Popped)
    → IsLaid q
    → device_index m q ≢ q.used.last
    → ¬ (length buf < (returned m q).length)
    → pop m q buf ≡ some (p, q', m')
    → (returned m q).index < q.size
unfolding pop
pop-in_bounds m m' q q' buf p l ne h e =
    let differs : (device_index m q == q.used.last) ≡ false = ground arith in
    let nonzero : (q.size == 0) ≡ false = ground (arith, l.positive) in
    let enough : ltb (length buf) (returned m q).length ≡ false = ground arith in
    elim (Option-cases (get_elem? q.descriptors (returned m q).index)) [
      | inl missing ↦
          let panics : pop m q buf ≡ none =
            rw (used_index_lem m q l, differs, nonzero, used_ring_lem m q l, enough, missing)
              refl in
          absurd (ground arith)
      | inr (d, found) ↦
          let b = get_elem?-bound q.descriptors (returned m q).index d found in
          omega (arith, b, l.descriptors)
    ]

-- When two runs of one method agree, so do the states that they leave.
same-state :
    {p p' : Popped} {m m' : Memory} {q q' : VirtualQueue}
    → ◌≡◌ {A = Option (Popped × VirtualQueue × Memory)} (some (p, q, m)) (some (p', q', m'))
    → IsReady m q
    → IsReady m' q'
same-state {p} {p'} {m} {m'} {q} {q'} e k =
    let queue : q ≡ q' = ap (left_queue q) e in
    let memory : m ≡ m' = ap (left_memory m) e in rw (← queue, ← memory) k

pop-IsReady :
    (m m' : Memory) (q q' : VirtualQueue) (buf : List ℕ) (p : Popped)
    → IsReady m q
    → pop m q buf ≡ some (p, q', m')
    → IsReady m' q'
pop-IsReady m m' q q' buf p k e =
    let l = k.laid in
    elim (ℕ_discrete (device_index m q) q.used.last) [
      | yes z ↦ same-state (sym (pop-empty m q buf l z) ∙ e) (IsReady-seen m q _ k l.used refl refl)
      | no ne ↦ elim (dec_lt (length buf) (returned m q).length) [
        | yes h ↦ same-state (sym (pop-too_small m q buf l ne h) ∙ e) (
            IsReady-seen m q (seen m q) k
              (length-set q.used.ring (used_slot q) (returned m q) ∙ l.used) refl refl)
        | no h ↦
            let small = pop-in_bounds m m' q q' buf p l ne h e in
            let (d, out, q'', m'', found, run, done) =
              pop-IsPopped m q buf k ne small (omega arith) in
            same-state (sym run ∙ e) done.ready
      ]
    ]

push-IsReady :
    (m m' : Memory) (q q' : VirtualQueue) (buf : List ℕ)
    → IsReady m q
    → push m q buf ≡ some (q', m')
    → IsReady m' q'
push-IsReady m m' q q' buf k e =
    let (id, d, q'', m'', named, found, run, done) = push-IsPushed m q buf k in
    let same : ◌≡◌ {A = Option (VirtualQueue × Memory)} (some (q'', m'')) (some (q', m')) =
      sym run ∙ e in
    let queue : q'' ≡ q' = ap (λ (o : Option State). (left (q, m) o).0) same in
    let memory : m'' ≡ m' = ap (λ (o : Option State). (left (q, m) o).1) same in
    rw (← queue, ← memory) done.ready
  where
    left : State → Option State → State
    left s none = s
    left s (some t) = t

needs_notify-IsReady :
    (m : Memory) (q q' : VirtualQueue) (b : Bool)
    → IsReady m q
    → needs_notify m q ≡ some (b, q')
    → IsReady m q'
unfolding needs_notify
needs_notify-IsReady m q q' b k e =
    let l = k.laid in
    let nonzero : (q.size == 0) ≡ false = ground (arith, l.positive) in
    let test = q.available.index % q.size == device_index m q % q.size in
    let read : VirtualQueue = record q { used = record q.used { index = device_index m q } } in
    let run : needs_notify m q ≡ some (test, read) = rw (nonzero, used_index_lem m q l) refl in
    let same : ◌≡◌ {A = Option (Bool × VirtualQueue)} (some (test, read)) (some (b, q')) =
      sym run ∙ e in
    let queue : read ≡ q' = ap (left q) same in rw (← queue) (IsReady-seen m q _ k l.used refl refl)
  where
    left : VirtualQueue → Option (Bool × VirtualQueue) → VirtualQueue
    left s none = s
    left s (some t) = t.1

Step-IsReady : (s t : State) → Step s t → IsReady s.1 s.0 → IsReady t.1 t.0
Step-IsReady s t (pushing {q} {q'} {m} {m'} buf e) k = push-IsReady m m' q q' buf k e
Step-IsReady s t (popping {q} {q'} {m} {m'} buf p e) k = pop-IsReady m m' q q' buf p k e
Step-IsReady s t (asking {q} {q'} {m} b e) k = needs_notify-IsReady m q q' b k e
Step-IsReady s t (device_writing {q} {m} {m'} same) k = IsReady-device q m m' k same

-- A queue that is ready stays ready under calls of Pop, Push and NeedsNotify that do not panic, in any
-- order with writes of the device, whatever it writes, outside of the available ring: so the index
-- that the device sees is the driver's, and every entry of the ring names a descriptor.
pub Steps-IsReady : (s t : State) → Steps s t → IsReady s.1 s.0 → IsReady t.1 t.0
Steps-IsReady s t none_left k = k
Steps-IsReady s t (first {t = u} step rest) k = Steps-IsReady u t rest (Step-IsReady s u step k)
