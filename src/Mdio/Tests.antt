-- ===== src/Mdio/Tests.antt =====
-- A concrete management frame (internal/mdio).
use tamago.Prelude.{◌≡◌, arith, refl}
use tamago.Bits.Word.{get_n, set_n}
use tamago.Mdio.{frame, get_n-frame}

-- A read of register 2 of the PHY at address 7.
frame_runs : frame 1 2 7 2 2 0 ≡ 0x638a0000
unfolding frame set_n
frame_runs = refl

get_n-frame_example :
    (get_n 32 (frame 1 2 7 3 2 0xbeef) 30 0b11 ≡ 1)
    × (get_n 32 (frame 1 2 7 3 2 0xbeef) 28 0b11 ≡ 2)
    × (get_n 32 (frame 1 2 7 3 2 0xbeef) 23 0x1f ≡ 7)
    × (get_n 32 (frame 1 2 7 3 2 0xbeef) 18 0x1f ≡ 3)
    × (get_n 32 (frame 1 2 7 3 2 0xbeef) 16 0b11 ≡ 2)
    × (get_n 32 (frame 1 2 7 3 2 0xbeef) 0 0xffff ≡ 0xbeef)
get_n-frame_example =
    get_n-frame 1 2 7 3 2 0xbeef (omega arith) (omega arith) (omega arith) (omega arith)
      (omega arith) (omega arith)
