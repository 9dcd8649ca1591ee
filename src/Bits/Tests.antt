-- ===== src/Bits/Tests.antt =====
-- The functions on concrete words, and the theorems at concrete inputs.
use tamago.Prelude.{◌-◌, ◌^◌, ◌≡◌, refl, true, inr, arith}
use tamago.Bits.{get64, set_n64}
use tamago.Bits.Word.{get_n, set_n}
use tamago.Bits.Laws.{get_n-set_n}

top_bit : get64 (2 ^ 63) 63 ≡ true
unfolding get64
top_bit = refl

-- SetN does not mask its value: a value of 4 in a field of two bits at 0 sets the bit above it.
set_n_spills : set_n64 0 0 0b11 4 ≡ 4
unfolding set_n64
set_n_spills = refl

get_n-set_n_example :
    (get_n 32 (set_n 32 0xff 4 (2 ^ 3 - 1) 5) 4 (2 ^ 3 - 1) ≡ 5)
    × (get_n 32 (set_n 32 0xff 4 (2 ^ 3 - 1) 5) 8 (2 ^ 2 - 1) ≡ get_n 32 0xff 8 (2 ^ 2 - 1))
get_n-set_n_example =
    get_n-set_n 32 0xff 4 3 5 8 2 (omega arith) (omega arith) (omega arith) (omega arith)
      (omega arith) (inr (omega arith))
