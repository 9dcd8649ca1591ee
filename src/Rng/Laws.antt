-- ===== src/Rng/Laws.antt =====
-- What Fill writes.
use native.Mathlib.Nat.{pow-suc}
use tamago.Prelude.{
  get_elem?-set, ℕ, zero, suc, ◌+◌, ◌-◌, ◌*◌, ◌/◌, ◌%◌, ◌^◌, ◌≤◌, ◌<◌, ◌≡◌, refl, sym, ap, ◌∙◌, min,
  ◌&&◌, Bool-cases, inl, inr, some, List, length, length-set, set, get_elem?, bit_and, ltb, leb,
  if◌then◌else◌, arith,
}
use tamago.Prelude.Align.{bit_and_low_mask}
use tamago.Rng.{fill_loop, fill}

-- The byte of a word at a position.
abbrev pub byte_at : ℕ → ℕ → ℕ
byte_at val i = val / 2 ^ (8 * i) % 256

-- The loop from round `i` on, with enough fuel: the rounds up to the fourth that have room.
fill_loop_lem :
    (f i index val j : ℕ) (b : List ℕ)
    → 4 < i + f
    → i ≤ 4
    → (get_elem? (fill_loop f b index (8 * i) val).0 j ≡ (
        if leb index j && (ltb j (length b) && ltb (j + i) (index + 4))
        then some (byte_at val (j + i - index))
        else get_elem? b j))
      × ((fill_loop f b index (8 * i) val).1
          ≡ (if ltb index (length b) then min (index + 4 - i) (length b) else index))
      × (length (fill_loop f b index (8 * i) val).0 ≡ length b)
unfolding fill_loop
fill_loop_lem zero i index val j b h hi = absurd (omega arith)
fill_loop_lem (suc f) i index val j b h hi =
    elim (Bool-cases (ltb index (length b) && leb (8 * i) 24)) [
      | inr stop ↦ rw stop (ground arith, ground arith, refl)
      | inl go ↦
          let v = bit_and (val / 2 ^ (8 * i)) 255 % 256 in
          let byte : v ≡ byte_at val i = omega (arith, bit_and_low_mask 8 (val / 2 ^ (8 * i))) in
          let b' = set b index v in
          let rest = fill_loop_lem f (i + 1) (index + 1) val j b' (omega arith) (ground arith) in
          let shift : 8 * (i + 1) ≡ 8 * i + 8 = omega arith in
          let here = get_elem?-set b index j v (ground arith) in
          let size = length-set b index v in
          let rest' = rw shift at rest in
          let arg : byte_at val (j + (i + 1) - (index + 1)) ≡ byte_at val (j + i - index) =
            ap (byte_at val) {x = j + (i + 1) - (index + 1)} {y = j + i - index} (omega arith) in
          let first : index ≡ j → byte_at val (j + i - index) ≡ byte_at val i =
            λ e. ap (byte_at val) {x = j + i - index} {y = i} (omega arith) in
          rw go (
            rest'.0 ∙ ground (arith, here, size, byte, arg, first),
            rest'.1 ∙ ground (arith, size),
            rest'.2 ∙ size,
          )
    ]

pow_bytes : (k : ℕ) → 2 ^ (8 * k) ≡ 256 ^ k
pow_bytes zero = refl
pow_bytes (suc k) =
    let t = 8 * k in
    let shape : 8 * suc k ≡ suc (suc (suc (suc (suc (suc (suc (suc t))))))) = omega arith in
    let step = λ (n : ℕ). pow-suc 2 n in
    let up : 2 ^ (suc (suc (suc (suc (suc (suc (suc (suc t)))))))) ≡ 2 ^ t * 256 = omega (
      arith,
      step t,
      step (suc t),
      step (suc (suc t)),
      step (suc (suc (suc t))),
      step (suc (suc (suc (suc t)))),
      step (suc (suc (suc (suc (suc t))))),
      step (suc (suc (suc (suc (suc (suc t)))))),
      step (suc (suc (suc (suc (suc (suc (suc t))))))),
    ) in
    ap (λ (n : ℕ). 2 ^ n) shape ∙ up ∙ ap (λ (n : ℕ). n * 256) (pow_bytes k) ∙ sym (pow-suc 256 k)

-- Fill puts the four bytes of its word, the low byte first, at the index and after it, as far as the
-- buffer reaches, changes no other byte, and returns the index after the last byte that it wrote, or
-- the index itself if it wrote none.
pub fill-bytes :
    (b : List ℕ) (index val j : ℕ)
    → (get_elem? (fill b index val).0 j ≡ (
        if leb index j && (ltb j (length b) && ltb j (index + 4))
        then some (val / 256 ^ (j - index) % 256)
        else get_elem? b j))
      × ((fill b index val).1
          ≡ (if ltb index (length b) then min (index + 4) (length b) else index))
      × (length (fill b index val).0 ≡ length b)
unfolding fill
fill-bytes b index val j =
    let run = fill_loop_lem 5 0 index val j b (omega arith) (omega arith) in
    let power : 2 ^ (8 * (j + 0 - index)) ≡ 256 ^ (j - index) =
      ap (λ (k : ℕ). 2 ^ (8 * k)) {x = j + 0 - index} {y = j - index} (omega arith)
      ∙ pow_bytes (j - index) in
    let byte : byte_at val (j + 0 - index) ≡ val / 256 ^ (j - index) % 256 =
      ap (λ (k : ℕ). val / k % 256) power in
    (run.0 ∙ ground (arith, byte), run.1 ∙ ground arith, run.2)
