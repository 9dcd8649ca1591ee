-- ===== src/Reg/Tests.antt =====
-- Runs of the register functions and of the loops that wait (internal/reg).
use tamago.Prelude.{ℕ, ◌+◌, ◌-◌, ◌*◌, ◌^◌, ◌≡◌, inl, refl, Bool, arith, leb, ◌==◌, if◌then◌else◌}
use tamago.Reg.{Registers, get_n, set_n, clear_n, move}
use tamago.Reg.Fields.{get_n-set_n_register}
use tamago.Reg.Poll.{matches, wait_for, IsStop, wait_for-timeout}

-- The control register at 4096 holds 0xf0f0.
abbrev registers : Registers
registers j = if j == 4096 then 61680 else 7

-- A device that reports 2 in bits 4..5 of the register from round 3 on.
abbrev device : ℕ → Registers
device i j = if leb 3 i then 32 else 0

abbrev clock : ℕ → ℕ
clock i = 1000 + 10 * i

abbrev interrupted : ℕ → Bool
interrupted i = i == 2

get_n-set_n_register_example :
    (get_n 32 (set_n 32 registers 4096 8 (2 ^ 4 - 1) 21) 4096 8 (2 ^ 4 - 1) ≡ 5)
    × (get_n 32 (set_n 32 registers 4096 8 (2 ^ 4 - 1) 21) 4096 4 (2 ^ 4 - 1)
        ≡ get_n 32 registers 4096 4 (2 ^ 4 - 1))
    × (set_n 32 registers 4096 8 (2 ^ 4 - 1) 21 4100 ≡ registers 4100)
get_n-set_n_register_example =
    get_n-set_n_register 32 registers 4096 4100 8 4 21 4 4 (omega arith) (omega arith) (omega arith)
      (omega arith) (inl (omega arith)) (omega arith)

wait_for-timeout_example :
    IsStop
      (matches device 4096 4 3 1)
      (λ i. leb 100 (clock i - 1000))
      0
      10
      (wait_for device clock 12 1000 100 4096 4 3 1)
wait_for-timeout_example =
    wait_for-timeout device clock 12 1000 100 4096 4 3 1 10 (omega arith) (omega arith)

-- ClearN and Move.
clear_n_runs : clear_n 32 registers 4096 4 15 4096 ≡ 61440
unfolding clear_n
clear_n_runs = refl

move_runs : (move registers 8 4096 8 ≡ 61680) × (move registers 8 4096 4096 ≡ 0)
unfolding move
move_runs = (refl, refl)
