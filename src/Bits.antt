-- ===== src/Bits.antt =====
-- Package bits (bits/bits16.go, bits/bits32.go, bits/bits64.go): single bits and bit fields of a
-- word. The three files hold the same seven functions at the widths 16, 32 and 64. `Word` has them
-- at a width `w`; below are the functions of the other two files. A pointed value is the number that
-- it holds, and a function that writes through the pointer returns the new value. Positions are
-- not negative (a negative shift count panics in Go); `int` has 64 bits.
pub mod Word
pub mod Digits
pub mod Laws
mod Tests
use tamago.Prelude.{ℕ, Bool}
use Word.{get, set_bit, clear, set_to, get_n, set_n}

pub get16 : ℕ → ℕ → Bool
unfolding get
get16 v pos = get v pos

pub set16 : ℕ → ℕ → ℕ
unfolding set_bit
set16 v pos = set_bit 16 v pos

pub set_to16 : ℕ → ℕ → Bool → ℕ
unfolding set_to
set_to16 v pos val = set_to 16 v pos val

pub clear16 : ℕ → ℕ → ℕ
unfolding clear
clear16 v pos = clear 16 v pos

pub get_n16 : ℕ → ℕ → ℕ → ℕ
unfolding get_n
get_n16 v pos mask = get_n 16 v pos mask

pub set_n16 : ℕ → ℕ → ℕ → ℕ → ℕ
unfolding set_n
set_n16 v pos mask val = set_n 16 v pos mask val

pub get64 : ℕ → ℕ → Bool
unfolding get
get64 v pos = get v pos

pub set64 : ℕ → ℕ → ℕ
unfolding set_bit
set64 v pos = set_bit 64 v pos

pub set_to64 : ℕ → ℕ → Bool → ℕ
unfolding set_to
set_to64 v pos val = set_to 64 v pos val

pub clear64 : ℕ → ℕ → ℕ
unfolding clear
clear64 v pos = clear 64 v pos

pub get_n64 : ℕ → ℕ → ℕ → ℕ
unfolding get_n
get_n64 v pos mask = get_n 64 v pos mask

pub set_n64 : ℕ → ℕ → ℕ → ℕ → ℕ
unfolding set_n
set_n64 v pos mask val = set_n 64 v pos mask val
