-- ===== src/Pmp.antt =====
-- The physical memory protection of RISC-V (riscv64/pmp.go): an entry has an address register and a
-- byte of the configuration register pmpcfg0. A write of a register has the effect that the architecture
-- gives it: an address register has 54 bits, a locked entry keeps its configuration and its address,
-- and so does the address below a locked entry whose mode is top of range.
pub mod Entry
mod Tests
use tamago.Prelude.{
  ℕ, ◌+◌, ◌*◌, ◌/◌, ◌%◌, ◌^◌, Bool, ◌&&◌, ◌||◌, Option, none, some, ltb, leb, ◌==◌, if◌then◌else◌,
}
use tamago.Bits.Word.{shl, set_to, get_n, set_n}

pub record Csrs : Type 0 where
  pub pmpcfg0 : ℕ
  pub pmpaddr : ℕ → ℕ

-- The results of ReadPMP, and the arguments of WritePMP.
pub record Protection : Type 0 where
  pub addr : ℕ
  pub r : Bool
  pub w : Bool
  pub x : Bool
  pub a : ℕ
  pub l : Bool

-- An index that is negative is one above 7, as a bit pattern. `none` is the error.
pub read_pmp : Csrs → ℕ → Option Protection
read_pmp cpu i =
    let cfg = cpu.pmpcfg0 in
    let off = i * 8 in
    if ltb i 8
    then some (record {
      addr = shl 64 (cpu.pmpaddr i) 2;
      r = get_n 64 cfg (off + 0) 1 == 1;
      w = get_n 64 cfg (off + 1) 1 == 1;
      x = get_n 64 cfg (off + 2) 1 == 1;
      l = get_n 64 cfg (off + 7) 1 == 1;
      a = get_n 64 cfg (off + 3) 0b11;
    })
    else none

-- The configuration that WritePMP computes.
pub configure : ℕ → ℕ → Protection → ℕ
configure cfg off p =
    let cfg1 = set_to 64 cfg (off + 0) p.r in
    let cfg2 = set_to 64 cfg1 (off + 1) p.w in
    let cfg3 = set_to 64 cfg2 (off + 2) p.x in
    let cfg4 = set_to 64 cfg3 (off + 7) p.l in set_n 64 cfg4 (off + 3) 0b11 p.a

-- The bit L of an entry, and whether its address is locked.
abbrev pub entry_locked : Csrs → ℕ → Bool
entry_locked cpu i = leb 128 (cpu.pmpcfg0 / 2 ^ (i * 8) % 2 ^ 8)

abbrev pub address_locked : Csrs → ℕ → Bool
address_locked cpu i =
    entry_locked cpu i
    || (entry_locked cpu (i + 1) && cpu.pmpcfg0 / 2 ^ ((i + 1) * 8 + 3) % 2 ^ 2 == 1)

-- What `write_pmpaddr` and `write_pmpcfg0` leave; every byte of the latter but that of entry `i` is written
-- with the value that it has.
abbrev pub write_address : Csrs → ℕ → ℕ → Csrs
write_address cpu i v =
    if address_locked cpu i
    then cpu
    else record cpu { pmpaddr = λ j. if j == i then v % 2 ^ 54 else cpu.pmpaddr j }

abbrev pub write_config : Csrs → ℕ → ℕ → Csrs
write_config cpu i v = if entry_locked cpu i then cpu else record cpu { pmpcfg0 = v }

pub write_pmp : Csrs → ℕ → Protection → Option Csrs
write_pmp cpu i p =
    if ltb i 8
    then (let cpu' = write_address cpu i (p.addr / 2 ^ 2) in
        some (write_config cpu' i (configure cpu'.pmpcfg0 (i * 8) p)))
    else none
