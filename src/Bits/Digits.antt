-- ===== src/Bits/Digits.antt =====
-- What the functions of `Word` do to each binary digit, and that they stay within the word.
use native.Mathlib.Nat.{mod-lt, mod-eq_of_lt, div-le_self, add-zero, pow-le-pow_right}
use tamago.Prelude.{
  ℕ, ◌+◌, ◌-◌, ◌*◌, ◌/◌, ◌%◌, ◌^◌, ◌≤◌, ◌<◌, max, ◌≡◌, refl, ap, ◌∙◌, Bool, true, false, inl, inr,
  arith, ltb, ◌==◌, if◌then◌else◌, Bool-cases, bit_and,
}
use tamago.Prelude.Digits.{digit, digit-le, digit-bit_and, digit-bit_or}
use tamago.Prelude.Shifts.{
  digit-shl, digit-shr, digit-mod, digit-flip, digit-mask, bit_and-lt, bit_or-lt, pow_pos,
}
use tamago.Prelude.Align.{bit_and_low_mask}
use tamago.Bits.Word.{shl, flip, asr, get, set_bit, clear, set_to, get_n, set_n}

pub shl-lt : (w x k : ℕ) → shl w x k < 2 ^ w
shl-lt w x k = mod-lt (x * 2 ^ k) (pow_pos w)

-- A left shift within a word.
pub digit-shl_word :
    (w x k i : ℕ) → i < w → digit (shl w x k) i ≡ (if ltb i k then 0 else digit x (i - k))
digit-shl_word w x k i h = ground (arith, digit-mod (x * 2 ^ k) w i, digit-shl x k i)

digit-one : (i : ℕ) → digit 1 i ≡ (if i == 0 then 1 else 0)
digit-one i = digit-mask 1 i ∙ ground arith

pub digit-set_bit :
    (w v pos i : ℕ) → i < w → digit (set_bit w v pos) i ≡ (if pos == i then 1 else digit v i)
unfolding set_bit
digit-set_bit w v pos i h = ground (
  arith,
  digit-bit_or v (shl w 1 pos) i,
  digit-shl_word w 1 pos i h,
  digit-one (i - pos),
  digit-le v i,
)

pub digit-clear :
    (w v pos i : ℕ) → i < w → digit (clear w v pos) i ≡ (if pos == i then 0 else digit v i)
unfolding clear
digit-clear w v pos i h = ground (
  arith,
  digit-bit_and v (flip w (shl w 1 pos)) i,
  digit-flip w (shl w 1 pos) i (shl-lt w 1 pos) h,
  digit-shl_word w 1 pos i h,
  digit-one (i - pos),
  digit-le v i,
)

-- The arithmetic shift, as far as the 64 bits of the `int` reach.
pub digit-asr : (v pos i : ℕ) → v < 2 ^ 64 → pos + i < 64 → digit (asr v pos) i ≡ digit v (pos + i)
unfolding asr
digit-asr v pos i h p = elim (Bool-cases (ltb v (2 ^ 63))) [
  | inl e ↦ rw e (digit-shr v pos i)
  | inr e ↦ rw e (
      digit-flip 64 (flip 64 v / 2 ^ pos) i (omega (arith, div-le_self (flip 64 v) (2 ^ pos)))
        (omega arith)
      ∙ ap (λ (t : ℕ). 1 - t) (digit-shr (flip 64 v) pos i)
      ∙ omega (arith, digit-flip 64 v (pos + i) h p, digit-le v (pos + i)))
]

pub set_bit-lt : (w v pos : ℕ) → v < 2 ^ w → set_bit w v pos < 2 ^ w
unfolding set_bit
set_bit-lt w v pos h = bit_or-lt w v (shl w 1 pos) h (shl-lt w 1 pos)

pub clear-lt : (w v pos : ℕ) → v < 2 ^ w → clear w v pos < 2 ^ w
unfolding clear
clear-lt w v pos h = bit_and-lt w v _ h

pub set_to-lt : (w v pos : ℕ) (val : Bool) → v < 2 ^ w → set_to w v pos val < 2 ^ w
unfolding set_to
set_to-lt w v pos true h = set_bit-lt w v pos h
set_to-lt w v pos false h = clear-lt w v pos h

pub set_n-lt : (w v pos mask val : ℕ) → v < 2 ^ w → set_n w v pos mask val < 2 ^ w
unfolding set_n
set_n-lt w v pos mask val h =
    bit_or-lt w (bit_and v (flip w (shl w (mask % 2 ^ w) pos))) (shl w val pos) (bit_and-lt w v _ h)
      (shl-lt w val pos)

-- A field of `n` bits at `pos` takes the low digits of `val`; the digits above the field take
-- what `val` has beyond it.
pub digit-set_n :
    (w v pos n val i : ℕ)
    → n ≤ w
    → i < w
    → digit (set_n w v pos (2 ^ n - 1) val) i ≡ (
        if ltb i pos
        then digit v i
        else if ltb i (pos + n)
        then digit val (i - pos)
        else max (digit v i) (digit val (i - pos)))
unfolding set_n
digit-set_n w v pos n val i hn hi =
    let fits : 2 ^ n - 1 < 2 ^ w =
      omega (arith, pow-le-pow_right {n = 2} (omega arith) hn, pow_pos n) in
    rw (mod-eq_of_lt fits) (
      ground (
        arith,
        digit-bit_or (bit_and v (flip w (shl w (2 ^ n - 1) pos))) (shl w val pos) i,
        digit-bit_and v (flip w (shl w (2 ^ n - 1) pos)) i,
        digit-flip w (shl w (2 ^ n - 1) pos) i (shl-lt w (2 ^ n - 1) pos) hi,
        digit-shl_word w (2 ^ n - 1) pos i hi,
        digit-shl_word w val pos i hi,
        digit-mask n (i - pos),
        digit-le v i,
        digit-le val (i - pos),
      ))

pub digit-get_n :
    (w v pos n i : ℕ)
    → v < 2 ^ 64
    → pos + n ≤ 64
    → n ≤ w
    → digit (get_n w v pos (2 ^ n - 1)) i ≡ (if ltb i n then digit v (pos + i) else 0)
unfolding get_n
digit-get_n w v pos n i h p hw = elim (Bool-cases (ltb i n)) [
  | inl e ↦ ground (
    arith,
    digit-mod (bit_and (asr v pos) (2 ^ n - 1)) w i,
    digit-bit_and (asr v pos) (2 ^ n - 1) i,
    digit-mask n i,
    digit-asr v pos i,
    digit-le v (pos + i),
  )
  | inr e ↦ ground (
    arith,
    digit-mod (bit_and (asr v pos) (2 ^ n - 1)) w i,
    digit-bit_and (asr v pos) (2 ^ n - 1) i,
    digit-mask n i,
    digit-le (asr v pos) i,
  )
]

-- `Get` reads a digit.
pub get_lem : (v pos : ℕ) → v < 2 ^ 64 → pos < 64 → get v pos ≡ (digit v pos == 1)
unfolding get digit
get_lem v pos h p =
    let low : digit (asr v pos) 0 ≡ asr v pos % 2 = refl in
    ground
      (arith, bit_and_low_mask 1 (asr v pos), low, digit-asr v pos 0 h, ap (digit v) (add-zero pos))
