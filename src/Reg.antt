-- ===== src/Reg.antt =====
-- Package internal/reg (internal/reg/reg8.go, reg16.go, reg32.go, reg64.go and the helpers of
-- reg_arm64.s): access to memory-mapped registers. The registers are the value at each address; the
-- functions are the same at each width, and stand here for registers of `w` bits. A function that
-- writes returns the new registers. Loads and stores are those of the processor: what a device does
-- to a register between two of them is the business of `Poll`.
pub mod Fields
pub mod Poll
pub mod Widths
mod Tests
use tamago.Prelude.{ℕ, ◌+◌, ◌-◌, ◌*◌, ◌/◌, ◌%◌, ◌^◌, Bool, bit_and, bit_or, ◌==◌, if◌then◌else◌}
use tamago.Bits.Word.{shl, flip}

abbrev pub Registers : Type 0
Registers = ℕ → ℕ

-- `atomic.StoreUint32(reg, v)`, and the Write functions.
abbrev pub write : Registers → ℕ → ℕ → Registers
write g addr v j = if j == addr then v else g j

pub get : Registers → ℕ → ℕ → Bool
get g addr pos = bit_and (g addr / 2 ^ pos) 1 == 1

pub set : ℕ → Registers → ℕ → ℕ → Registers
set w g addr pos = write g addr (bit_or (g addr) (shl w 1 pos))

pub clear : ℕ → Registers → ℕ → ℕ → Registers
clear w g addr pos = write g addr (bit_and (g addr) (flip w (shl w 1 pos)))

pub set_to : ℕ → Registers → ℕ → ℕ → Bool → Registers
set_to w g addr pos val = if val then set w g addr pos else clear w g addr pos

pub get_n : ℕ → Registers → ℕ → ℕ → ℕ → ℕ
get_n w g addr pos mask = bit_and (g addr / 2 ^ pos) (mask % 2 ^ w)

unfoldable pub set_n : ℕ → Registers → ℕ → ℕ → ℕ → ℕ → Registers
set_n w g addr pos mask val =
    let m = mask % 2 ^ w in
    write g addr (bit_or (bit_and (g addr) (flip w (shl w m pos))) (shl w (bit_and val m) pos))

pub clear_n : ℕ → Registers → ℕ → ℕ → ℕ → Registers
clear_n w g addr pos mask = write g addr (bit_and (g addr) (flip w (shl w (mask % 2 ^ w) pos)))

-- Or, and WriteBack.
pub set_mask : Registers → ℕ → ℕ → Registers
set_mask g addr val = write g addr (bit_or (g addr) val)

pub write_back : Registers → ℕ → Registers
write_back g addr = write g addr (g addr)

-- Move copies a register and clears the one that it copied.
pub move : Registers → ℕ → ℕ → Registers
move g dst src = write (write g dst (g src)) src 0
