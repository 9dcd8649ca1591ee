-- ===== src/Bits/Laws.antt =====
-- What a reader of a word sees after a write to one bit, or to a bit field.
use native.Mathlib.Nat.{pow-le-pow_right, mod-lt}
use tamago.Prelude.{
  ℕ, ◌+◌, ◌-◌, ◌^◌, ◌≤◌, ◌<◌, ◌≡◌, ap, ◌⊎◌, Bool, true, false, inl, inr, arith, ltb, ◌==◌,
  if◌then◌else◌, Bool-cases,
}
use tamago.Prelude.Digits.{digit, digit-le, digit-small, eq_of_digits}
use tamago.Prelude.Shifts.{pow_pos}
use tamago.Bits.Word.{get, set_to, get_n, set_n}
use tamago.Bits.Digits.{
  digit-set_bit, digit-clear, digit-set_n, digit-get_n, get_lem, set_to-lt, set_n-lt,
}

pub pow-le-word : (w : ℕ) → w ≤ 64 → 2 ^ w ≤ 2 ^ 64
pow-le-word w h = pow-le-pow_right {n = 2} (omega arith) h

pub digit-set_to :
    (w v pos i : ℕ) (b : Bool)
    → i < w
    → digit (set_to w v pos b) i ≡ (if pos == i then (if b then 1 else 0) else digit v i)
unfolding set_to
digit-set_to w v pos i true h = digit-set_bit w v pos i h
digit-set_to w v pos i false h = digit-clear w v pos i h

-- In a word of at most 64 bits, after SetTo at a position in the word, Get at that position returns
-- the value that was set, and Get at any other position of the word returns what it returned before;
-- the new value fits the word. SetTo is Set or Clear, by its last argument.
pub get-set_to :
    (w v pos i : ℕ) (b : Bool)
    → w ≤ 64
    → v < 2 ^ w
    → pos < w
    → i < w
    → (get (set_to w v pos b) i ≡ (if pos == i then b else get v i)) × (set_to w v pos b < 2 ^ w)
get-set_to w v pos i b hw hv hp hi =
    let size : 2 ^ w ≤ 2 ^ 64 = pow-le-word w hw in
    (
      ground (
        arith,
        get_lem (set_to w v pos b) i,
        get_lem v i,
        set_to-lt w v pos b hv,
        digit-set_to w v pos i b hi,
      ),
      set_to-lt w v pos b hv,
    )

pub get_n-lt : (w v pos mask : ℕ) → get_n w v pos mask < 2 ^ w
unfolding get_n
get_n-lt w v pos mask = mod-lt _ (pow_pos w)

-- In a word of at most 64 bits, after SetN writes a value that fits a mask of `n` ones to the field
-- at `pos`, GetN with that mask reads the value back, and GetN of `m` bits at a field that does not
-- meet the written one reads what it read before.
pub get_n-set_n :
    (w v pos n val q m : ℕ)
    → w ≤ 64
    → v < 2 ^ w
    → pos + n ≤ w
    → val < 2 ^ n
    → q + m ≤ w
    → (q + m ≤ pos) ⊎ (pos + n ≤ q)
    → (get_n w (set_n w v pos (2 ^ n - 1) val) pos (2 ^ n - 1) ≡ val)
      × (get_n w (set_n w v pos (2 ^ n - 1) val) q (2 ^ m - 1) ≡ get_n w v q (2 ^ m - 1))
get_n-set_n w v pos n val q m hw hv hp hval hq apart =
    let after = set_n w v pos (2 ^ n - 1) val in
    let size : 2 ^ w ≤ 2 ^ 64 = pow-le-word w hw in
    let fits : 2 ^ n ≤ 2 ^ w = pow-le-pow_right {n = 2} (omega arith) (omega arith) in
    let now : after < 2 ^ 64 = omega (arith, set_n-lt w v pos (2 ^ n - 1) val hv) in
    let old : v < 2 ^ 64 = omega arith in
    (
      eq_of_digits w _ _ (get_n-lt w after pos (2 ^ n - 1)) (omega arith) (λ i h.
          elim (Bool-cases (ltb i n)) [
            | inl e ↦ ground (
              arith,
              digit-get_n w after pos n i now,
              digit-set_n w v pos n val (pos + i),
              ap (digit val) (add_sub i pos),
            )
            | inr e ↦ ground (arith, digit-get_n w after pos n i now, digit-small n val i hval)
          ]),
      eq_of_digits w _ _ (get_n-lt w after q (2 ^ m - 1)) (get_n-lt w v q (2 ^ m - 1)) (λ i h.
          ground (
            arith,
            digit-get_n w after q m i now,
            digit-get_n w v q m i old,
            digit-set_n w v pos n val (q + i),
            digit-small n val (q + i - pos) hval,
            digit-le v (q + i),
          )),
    )
  where
    add_sub : (i p : ℕ) → p + i - p ≡ i
    add_sub i p = omega arith
