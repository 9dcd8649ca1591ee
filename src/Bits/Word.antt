-- ===== src/Bits/Word.antt =====
-- The functions of package bits on a word of `w` bits; bits/bits32.go has `w` = 32.
use tamago.Prelude.{ℕ, ◌-◌, ◌*◌, ◌/◌, ◌%◌, ◌^◌, Bool, bit_and, bit_or, ltb, ◌==◌, if◌then◌else◌}

-- `x << k` on an unsigned word of `w` bits.
abbrev pub shl : ℕ → ℕ → ℕ → ℕ
shl w x k = x * 2 ^ k % 2 ^ w

-- `^x` on an unsigned word of `w` bits.
abbrev pub flip : ℕ → ℕ → ℕ
flip w x = 2 ^ w - 1 - x

-- `int(x) >> k`: an arithmetic shift of the bit pattern `x` of a 64-bit `int`.
unfoldable pub asr : ℕ → ℕ → ℕ
asr x k = if ltb x (2 ^ 63) then x / 2 ^ k else flip 64 (flip 64 x / 2 ^ k)

unfoldable pub get : ℕ → ℕ → Bool
unfolding asr
get v pos = bit_and (asr v pos) 1 == 1

unfoldable pub set_bit : ℕ → ℕ → ℕ → ℕ
set_bit w v pos = bit_or v (shl w 1 pos)

unfoldable pub clear : ℕ → ℕ → ℕ → ℕ
clear w v pos = bit_and v (flip w (shl w 1 pos))

unfoldable pub set_to : ℕ → ℕ → ℕ → Bool → ℕ
unfolding set_bit clear
set_to w v pos val = if val then set_bit w v pos else clear w v pos

-- `mask` is the bit pattern of an `int`, and the result is truncated to the word.
unfoldable pub get_n : ℕ → ℕ → ℕ → ℕ → ℕ
unfolding asr
get_n w v pos mask = bit_and (asr v pos) mask % 2 ^ w

-- `val` is not masked.
unfoldable pub set_n : ℕ → ℕ → ℕ → ℕ → ℕ → ℕ
set_n w v pos mask val = bit_or (bit_and v (flip w (shl w (mask % 2 ^ w) pos))) (shl w val pos)
