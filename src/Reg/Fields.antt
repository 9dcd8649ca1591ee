-- ===== src/Reg/Fields.antt =====
-- What the accesses to bits and fields of a register do, and what they leave alone.
use native.Mathlib.Nat.{pow-le-pow_right, mod-lt, mod-eq_of_lt, div-le_self, add-zero}
use tamago.Prelude.{
  bit_or, ℕ, ◌+◌, ◌-◌, ◌/◌, ◌%◌, ◌^◌, ◌≤◌, ◌<◌, ◌≡◌, ◌≢◌, refl, sym, ap, ◌∙◌, ◌⊎◌, Bool, true,
  false, arith, ◌==◌, if◌then◌else◌, bit_and,
}
use tamago.Prelude.Digits.{digit, digit-le, digit-bit_and, eq_of_digits}
use tamago.Prelude.Shifts.{pow_pos, bit_and-lt, bit_or-lt, digit-shr, digit-mask}
use tamago.Prelude.Align.{bit_and_low_mask}
use tamago.Bits.Word
use tamago.Bits.Word.{shl}
use tamago.Bits.Laws.{pow-le-word, get-set_to, get_n-set_n, get_n-lt}
use tamago.Bits.Digits.{digit-get_n, get_lem, set_n-lt, shl-lt}
use tamago.Reg.{Registers, write, get, set, clear, set_to, get_n, set_n, write_back}

-- SetTo of this package is SetTo of package bits on the register's value.
set_to-bits :
    (w : ℕ) (g : Registers) (addr pos : ℕ) (b : Bool)
    → set_to w g addr pos b ≡ write g addr (Word.set_to w (g addr) pos b)
unfolding set_to set clear Word.set_to
set_to-bits w g addr pos true = refl
set_to-bits w g addr pos false = refl

-- SetN masks its value first.
pub set_n-bits :
    (w : ℕ) (g : Registers) (addr pos mask val : ℕ)
    → set_n w g addr pos mask val
      ≡ write g addr (Word.set_n w (g addr) pos mask (bit_and val (mask % 2 ^ w)))
unfolding set_n Word.set_n
set_n-bits w g addr pos mask val = refl

-- The two packages read a field of a word alike.
get_n-bits :
    (w : ℕ) (g : Registers) (addr pos n : ℕ)
    → w ≤ 64
    → pos + n ≤ w
    → g addr < 2 ^ w
    → get_n w g addr pos (2 ^ n - 1) ≡ Word.get_n w (g addr) pos (2 ^ n - 1)
unfolding get_n
get_n-bits w g addr pos n hw hn hg =
    let v = g addr in
    let size : 2 ^ w ≤ 2 ^ 64 = pow-le-word w hw in
    let fits : 2 ^ n - 1 < 2 ^ w =
      omega
        (arith, pow-le-pow_right {n = 2} (omega arith) {i = n} {j = w} (omega arith), pow_pos n) in
    let mask : (2 ^ n - 1) % 2 ^ w ≡ 2 ^ n - 1 = mod-eq_of_lt fits in
    eq_of_digits w _ _
      (bit_and-lt w (v / 2 ^ pos) ((2 ^ n - 1) % 2 ^ w) (omega (arith, div-le_self v (2 ^ pos))))
      (get_n-lt w v pos (2 ^ n - 1))
      (λ i h. rw mask (
        ground (
          arith,
          digit-bit_and (v / 2 ^ pos) (2 ^ n - 1) i,
          digit-shr v pos i,
          digit-mask n i,
          digit-le v (pos + i),
          digit-get_n w v pos n i,
        )))

-- And a single bit.
get-bits :
    (g : Registers) (addr pos : ℕ)
    → g addr < 2 ^ 64
    → pos < 64
    → get g addr pos ≡ Word.get (g addr) pos
unfolding get digit
get-bits g addr pos hg hp =
    let low : digit (g addr / 2 ^ pos) 0 ≡ g addr / 2 ^ pos % 2 = refl in
    ground (
      arith,
      bit_and_low_mask 1 (g addr / 2 ^ pos),
      low,
      digit-shr (g addr) pos 0,
      ap (digit (g addr)) (add-zero pos),
      get_lem (g addr) pos hg,
    )

write-same : (g : Registers) (addr v : ℕ) → write g addr v addr ≡ v
write-same g addr v = ground arith

-- On a register of at most 64 bits SetTo gives the bit at its position the value that it is given;
-- every other bit of the register and every other register stay as they were.
pub get-set_to_register :
    (w : ℕ) (g : Registers) (addr other pos i : ℕ) (b : Bool)
    → w ≤ 64
    → g addr < 2 ^ w
    → pos < w
    → i < w
    → other ≢ addr
    → (get (set_to w g addr pos b) addr i ≡ (if pos == i then b else get g addr i))
      × (set_to w g addr pos b other ≡ g other)
get-set_to_register w g addr other pos i b hw hg hp hi ne =
    let size : 2 ^ w ≤ 2 ^ 64 = pow-le-word w hw in
    let new = Word.set_to w (g addr) pos b in
    let read = get-set_to w (g addr) pos i b hw hg hp hi in
    let at : write g addr new addr ≡ new = write-same g addr new in
    rw (set_to-bits w g addr pos b) (
      get-bits (write g addr new) addr i (rw at (omega (arith, read.1))) (omega arith)
          ∙ ap (λ (x : ℕ). Word.get x i) at
          ∙ read.0
          ∙ rw (get-bits g addr i (omega arith) (omega arith)) refl,
      ground arith,
    )

-- On a register of at most 64 bits SetN with a mask of `n` ones puts the low `n` bits of its value into
-- the field at `pos`, whatever the value; a field that does not meet it and every other register stay
-- as they were.
pub get_n-set_n_register :
    (w : ℕ) (g : Registers) (addr other pos n val q m : ℕ)
    → w ≤ 64
    → g addr < 2 ^ w
    → pos + n ≤ w
    → q + m ≤ w
    → (q + m ≤ pos) ⊎ (pos + n ≤ q)
    → other ≢ addr
    → (get_n w (set_n w g addr pos (2 ^ n - 1) val) addr pos (2 ^ n - 1) ≡ val % 2 ^ n)
      × (get_n w (set_n w g addr pos (2 ^ n - 1) val) addr q (2 ^ m - 1)
          ≡ get_n w g addr q (2 ^ m - 1))
      × (set_n w g addr pos (2 ^ n - 1) val other ≡ g other)
get_n-set_n_register w g addr other pos n val q m hw hg hn hq apart ne =
    let fits : 2 ^ n - 1 < 2 ^ w =
      omega
        (arith, pow-le-pow_right {n = 2} (omega arith) {i = n} {j = w} (omega arith), pow_pos n) in
    let low : bit_and val ((2 ^ n - 1) % 2 ^ w) ≡ val % 2 ^ n =
      rw (mod-eq_of_lt fits) (bit_and_low_mask n val) in
    let new = Word.set_n w (g addr) pos (2 ^ n - 1) (val % 2 ^ n) in
    let read =
      get_n-set_n w (g addr) pos n (val % 2 ^ n) q m hw hg hn (mod-lt val (pow_pos n)) hq apart in
    let at : write g addr new addr ≡ new = write-same g addr new in
    let small : write g addr new addr < 2 ^ w =
      rw at (set_n-lt w (g addr) pos (2 ^ n - 1) (val % 2 ^ n) hg) in
    rw (set_n-bits w g addr pos (2 ^ n - 1) val, low)
      (
        get_n-bits w (write g addr new) addr pos n hw hn small
            ∙ ap (λ (x : ℕ). Word.get_n w x pos (2 ^ n - 1)) at
            ∙ read.0,
        get_n-bits w (write g addr new) addr q m hw hq small
            ∙ ap (λ (x : ℕ). Word.get_n w x q (2 ^ m - 1)) at
            ∙ read.1
            ∙ sym (get_n-bits w g addr q m hw hq hg),
        ground arith,
      )

-- Set and WriteBack leave the other registers alone, and Set keeps a register in its width.
pub set_other :
    (w : ℕ) (g : Registers) (addr pos other : ℕ) → other ≢ addr → set w g addr pos other ≡ g other
unfolding set
set_other w g addr pos other ne = ground arith

pub write_back_lem : (g : Registers) (addr other : ℕ) → write_back g addr other ≡ g other
unfolding write_back
write_back_lem g addr other = ground arith

pub set_small :
    (w : ℕ) (g : Registers) (addr pos : ℕ) → g addr < 2 ^ w → set w g addr pos addr < 2 ^ w
unfolding set
set_small w g addr pos h =
    rw (write-same g addr (bit_or (g addr) (shl w 1 pos)))
      (bit_or-lt w (g addr) (shl w 1 pos) h (shl-lt w 1 pos))
