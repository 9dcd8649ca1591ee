-- ===== src/Rng.antt =====
-- Package internal/rng (internal/rng/rng.go): Fill, by which the drivers of hardware random number
-- generators spread a word over a buffer.
pub mod Laws
mod Tests
use tamago.Prelude.{
  ℕ, zero, suc, ◌+◌, ◌/◌, ◌%◌, ◌^◌, ◌&&◌, List, length, set, bit_and, ltb, leb, if◌then◌else◌,
}

-- The loop, from `shift` on; the first number is fuel.
pub fill_loop : ℕ → List ℕ → ℕ → ℕ → ℕ → List ℕ × ℕ
fill_loop zero b index shift val = (b, index)
fill_loop (suc f) b index shift val =
    let rest =
      fill_loop f (set b index (bit_and (val / 2 ^ shift) 0xff % 256)) (index + 1) (shift + 8)
        val in
    if ltb index (length b) && leb shift 24 then rest else (b, index)

-- The shift passes 24 after four rounds, so that fuel of five is enough. The index is not negative.
pub fill : List ℕ → ℕ → ℕ → List ℕ × ℕ
fill b index val = fill_loop 5 b index 0 val
