-- ===== src/Usb/Endpoint/Transfer.antt =====
-- The descriptors of a transfer (transfer, buildDTD and checkDTD in soc/nxp/usb/endpoint.go).
use tamago.Prelude.{
  ℕ, zero, suc, ◌+◌, ◌*◌, ◌-◌, ◌/◌, ◌%◌, ◌^◌, ◌≤◌, ◌<◌, ◌≡◌, refl, ap, ◌∙◌, Bool, true, false, not,
  ◌&&◌, some, List, [], ◌∷◌, ◌==◌, ltb, if◌then◌else◌, ◌>>◌, guard, guard-passes, arith, inl, inr,
  Bool-cases, bit_and,
}
use tamago.Prelude.Disjoint.{bit_or_comm, bit_or_disjoint}
use tamago.Prelude.Align.{bit_and_low_mask}
use tamago.Bits.Word.{set_n, set_bit, shl}
use tamago.Reg.{Registers}
use tamago.Usb.Endpoint.{
  Dtd, Queued, is_idle, build_dtd, dtd_buffer, transfer_loop, transfer_dtds, check_loop, check_dtd,
}

-- A descriptor for `size` bytes at `addr`: active, interrupt on completion, the five pages from the address on.
abbrev pub dtd_of : ℕ → ℕ → ℕ → Dtd
dtd_of next addr size = record {
  next = next;
  token = size * 2 ^ 16 + 2 ^ 15 + 2 ^ 7;
  buffer = addr ∷ (addr + 4096) ∷ (addr + 8192) ∷ (addr + 12288) ∷ (addr + 16384) ∷ [];
  buf = addr;
  size = size;
}

-- The descriptors for `rest` bytes at `addr`, from round `r` on: all but the last one for five pages and linked
-- to the next one; the first one primes the endpoint, and a later one does so when it is idle.
unfoldable pub Covers : (ℕ → ℕ) → (ℕ → Bool) → ℕ → ℕ → ℕ → List Queued → Type 0
Covers address idle r addr rest [] = ⊥
Covers address idle r addr rest (q ∷ []) =
    (q.dtd ≡ dtd_of 1 addr rest) × (q.primed ≡ (if r == 0 then true else idle r)) × (rest ≤ 20480)
Covers address idle r addr rest (q ∷ e ∷ qs) =
    (q.dtd ≡ dtd_of (address (r + 1)) addr 20480)
    × (q.primed ≡ (if r == 0 then true else idle r))
    × (20480 < rest)
    × Covers address idle (r + 1) (addr + 20480) (rest - 20480) (e ∷ qs)

token_lem :
    (size : ℕ)
    → size < 2 ^ 16
    → set_n 32 (2 ^ 15 + 2 ^ 7) 16 0xffff (size % 2 ^ 32) ≡ size * 2 ^ 16 + 2 ^ 15 + 2 ^ 7
unfolding set_n
token_lem size h =
    let e : shl 32 (size % 2 ^ 32) 16 ≡ size * 2 ^ 16 = omega arith in
    rw e (
      bit_or_comm (2 ^ 15 + 2 ^ 7) (size * 2 ^ 16)
      ∙ bit_or_disjoint 16 (size * 2 ^ 16) (2 ^ 15 + 2 ^ 7) (omega arith) (omega arith)
      ∙ omega arith)

build_dtd_lem :
    (addr size : ℕ)
    → size < 2 ^ 16
    → addr + 20480 ≤ 2 ^ 32
    → build_dtd addr size ≡ dtd_of 1 addr size
unfolding build_dtd dtd_buffer set_n set_bit
build_dtd_lem addr size h p =
    let s : size % 2 ^ 32 ≡ size = omega arith in
    let b0 : (addr + 4096 * 0) % 2 ^ 32 ≡ addr = omega arith in
    let b1 : (addr + 4096 * 1) % 2 ^ 32 ≡ addr + 4096 = omega arith in
    let b2 : (addr + 4096 * 2) % 2 ^ 32 ≡ addr + 8192 = omega arith in
    let b3 : (addr + 4096 * 3) % 2 ^ 32 ≡ addr + 12288 = omega arith in
    let b4 : (addr + 4096 * 4) % 2 ^ 32 ≡ addr + 16384 = omega arith in
    rw (token_lem size h, s, b0, b1, b2, b3, b4) refl

module _ (address : ℕ → ℕ) (idle : ℕ → Bool) where
  cons-Covers :
      (r addr rest : ℕ) (q : Queued) (qs : List Queued)
      → q.dtd ≡ dtd_of (address (r + 1)) addr 20480
      → q.primed ≡ (if r == 0 then true else idle r)
      → 20480 < rest
      → Covers address idle (r + 1) (addr + 20480) (rest - 20480) qs
      → Covers address idle r addr rest (q ∷ qs)
  unfolding Covers
  cons-Covers r addr rest q [] e p h c = absurd c
  cons-Covers r addr rest q (f ∷ qs) e p h c = (e, p, h, c)

  last-Covers :
      (r addr rest : ℕ) (q : Queued)
      → q.dtd ≡ dtd_of 1 addr rest
      → q.primed ≡ (if r == 0 then true else idle r)
      → rest ≤ 20480
      → Covers address idle r addr rest (q ∷ [])
  unfolding Covers
  last-Covers r addr rest q e p h = (e, p, h)

  loop-Covers :
      (k r pages i total a n : ℕ)
      → total - i < k
      → i ≤ total
      → pages + total + 20480 ≤ 2 ^ 32
      → a ≡ pages + i
      → n ≡ total - i
      → i ≡ r * 20480
      → Covers address idle r a n (transfer_loop address idle k r pages i total)
  unfolding transfer_loop
  loop-Covers zero r pages i total a n h p q ea en ei = absurd (omega arith)
  loop-Covers (suc k) r pages i total a n h p q ea en ei =
      let place : (pages + i) % 2 ^ 32 ≡ a = omega arith in
      let start : (i == 0) ≡ (r == 0) = ground arith in
      let primed = if r == 0 then true else idle r in
      elim (Bool-cases (ltb (i + 20480) total)) [
        | inl more ↦
            let full : ltb total (i + 20480) ≡ false = ground arith in
            let built = build_dtd_lem a 20480 (omega arith) (ground arith) in
            rw (more, full, place, start)
              (cons-Covers r a n
                (record {
                  dtd = record (build_dtd a 20480) { next = address (r + 1) };
                  primed = primed;
                })
                (transfer_loop address idle k (r + 1) pages (i + 20480) total)
                (ap (λ (d : Dtd). record d { next = address (r + 1) }) built) refl (ground arith)
                (loop-Covers k (r + 1) pages (i + 20480) total (a + 20480) (n - 20480)
                  (ground arith) (ground arith) q (ground arith) (ground arith) (omega arith)))
        | inr last ↦
            let size : (if ltb total (i + 20480) then total - i else 20480) ≡ n = ground arith in
            rw (last, size, place, start)
              (last-Covers r a n (record { dtd = build_dtd a n; primed = primed })
                (build_dtd_lem a n (ground arith) (ground arith)) refl (ground arith))
      ]

-- The loop of a transfer of `total` bytes at `pages`, when 20480 addresses more exist, leaves descriptors of
-- which all but the last one are for five pages, each starts where the one before ends, and the last one
-- is for what is left (nothing, when the buffer is empty). Each is as the controller wants it: active, with
-- an interrupt on completion, its size in bits 16 to 30 of the token, the addresses of its pages, and
-- the address of the next one or the mark of the end. The first one primes the endpoint, and each later one
-- does so exactly if neither the prime bit nor the status bit is set in its round.
pub transfer_dtds-Covers :
    (address : ℕ → ℕ) (polled : ℕ → Registers) (prime stat n dir pages total : ℕ)
    → pages + total + 20480 ≤ 2 ^ 32
    → Covers address
        (λ r. is_idle (polled r) prime stat n dir)
        0
        pages
        total
        (transfer_dtds address polled prime stat n dir pages total)
unfolding transfer_dtds
transfer_dtds-Covers address polled prime stat n dir pages total h =
    loop-Covers address (λ r. is_idle (polled r) prime stat n dir) (total + 1) 0 pages 0 total pages
      total (omega arith) (omega arith) h (omega arith) (omega arith) (omega arith)

-- The controller leaves a token of 32 bits in each of the descriptors.
abbrev pub descriptors_of : List (Dtd × ℕ) → List Dtd
descriptors_of [] = []
descriptors_of ((d, t) ∷ ds) = d ∷ descriptors_of ds

abbrev pub queued_dtds : List Queued → List Dtd
queued_dtds [] = []
queued_dtds (q ∷ qs) = q.dtd ∷ queued_dtds qs

-- The sizes that the driver keeps.
unfoldable Sizes : ℕ → List Dtd → Type 0
Sizes rest [] = ⊥
Sizes rest (d ∷ []) = (d.size ≡ rest) × (rest ≤ 20480)
Sizes rest (d ∷ e ∷ ds) = (d.size ≡ 20480) × (20480 < rest) × Sizes (rest - 20480) (e ∷ ds)

Covers-Sizes :
    (address : ℕ → ℕ) (idle : ℕ → Bool) (r addr rest : ℕ) (qs : List Queued)
    → Covers address idle r addr rest qs
    → Sizes rest (queued_dtds qs)
unfolding Covers Sizes
Covers-Sizes address idle r addr rest [] c = c
Covers-Sizes address idle r addr rest (q ∷ []) (e, p, l) = (ap (λ (x : Dtd). x.size) e, l)
Covers-Sizes address idle r addr rest (q ∷ f ∷ qs) (e, p, l, c) = (
  ap (λ (x : Dtd). x.size) e,
  l,
  Covers-Sizes address idle (r + 1) (addr + 20480) (rest - 20480) (f ∷ qs) c,
)

-- No error, and nothing left.
unfoldable pub AllDone : List (Dtd × ℕ) → Type 0
AllDone [] = Unit
AllDone ((d, t) ∷ ds) = (t % 2 ^ 8 ≡ 0) × (t / 2 ^ 16 ≡ 0) × AllDone ds

done-loop :
    (r n : ℕ) (ds : List (Dtd × ℕ))
    → Sizes r (descriptors_of ds)
    → r < 2 ^ 32
    → AllDone ds
    → check_loop 1 ds n ≡ some (n + r)
unfolding Sizes AllDone check_loop
done-loop r n [] c h o = absurd c
done-loop r n ((d, t) ∷ []) (e, l) h (p, q, o) =
    let clear : (bit_and t 0xff == 0) ≡ true = ground (arith, bit_and_low_mask 8 t) in
    let moved : (d.size + 2 ^ 32 - t / 2 ^ 16) % 2 ^ 32 ≡ r = omega arith in
    rw (clear, moved, q) refl
done-loop r n ((d, t) ∷ (d', t') ∷ ds) (e, l, c) h (p, q, o) =
    let clear : (bit_and t 0xff == 0) ≡ true = ground (arith, bit_and_low_mask 8 t) in
    let moved : (d.size + 2 ^ 32 - t / 2 ^ 16) % 2 ^ 32 ≡ 20480 = omega arith in
    rw (clear, moved, q)
      (done-loop (r - 20480) (n + 20480) ((d', t') ∷ ds) c (omega arith) o ∙ ap some (omega arith))

sent-loop :
    (dir n m : ℕ) (ds : List (Dtd × ℕ)) → dir ≡ 1 → check_loop dir ds n ≡ some m → AllDone ds
unfolding AllDone check_loop
sent-loop dir n m [] e h = tt
sent-loop dir n m ((d, t) ∷ ds) e h =
    let rest = t / 2 ^ 16 in
    let moved = (d.size + 2 ^ 32 - rest) % 2 ^ 32 in
    let tail = check_loop dir ds (n + moved) in
    let (clear, h1) =
      guard-passes (bit_and t 0xff == 0) (guard (not (dir == 1 && ltb 0 rest)) >> tail) m h in
    let (whole, h2) = guard-passes (not (dir == 1 && ltb 0 rest)) tail m h1 in
    (ground (arith, bit_and_low_mask 8 t), ground arith, sent-loop dir (n + moved) m ds e h2)

-- A transfer to the host of `total` bytes: whatever tokens the controller leaves, checkDTD returns without
-- an error exactly when each of them shows no status and nothing left, and then it returns `total`.
pub check_dtd-sent :
    (address : ℕ → ℕ) (polled : ℕ → Registers) (prime stat n dir pages total : ℕ)
    (ds : List (Dtd × ℕ))
    → pages + total + 20480 ≤ 2 ^ 32
    → descriptors_of ds ≡ queued_dtds (transfer_dtds address polled prime stat n dir pages total)
    → (AllDone ds → check_dtd 1 ds ≡ some total)
      × ((m : ℕ) → check_dtd 1 ds ≡ some m → AllDone ds × (m ≡ total))
unfolding check_dtd
check_dtd-sent address polled prime stat n dir pages total ds h e =
    let c : Sizes total (descriptors_of ds) = rw e (
      Covers-Sizes address (λ r. is_idle (polled r) prime stat n dir) 0 pages total
        (transfer_dtds address polled prime stat n dir pages total)
        (transfer_dtds-Covers address polled prime stat n dir pages total h)) in
    let done : AllDone ds → check_dtd 1 ds ≡ some total =
      λ o. done-loop total 0 ds c (omega arith) o ∙ ap some (omega arith) in
    (done, λ m r. (let o = sent-loop 1 0 m ds refl r in let q = done o in (o, cc)))
