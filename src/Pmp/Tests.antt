-- ===== src/Pmp/Tests.antt =====
-- Protection entries at concrete registers (riscv64/pmp.go).
use tamago.Prelude.{◌≡◌, refl, true, false, none}
use tamago.Bits.Word.{set_to, set_n}
use tamago.Pmp.{Csrs, Protection, configure, write_pmp}

-- Entry 7 gives all access to everything.
abbrev registers : Csrs
registers = record { pmpcfg0 = 0x1f00000000000000; pmpaddr = λ j. 0x3fffffffffff }

abbrev code : Protection
code = record { addr = 0x80000003; r = true; w = false; x = true; a = 1; l = true }

-- A mode of more than two bits is not masked: 16 also locks the entry.
mode_locks : configure 0 0 (record code { a = 16; l = false }) ≡ 0x85
unfolding configure set_to set_n
mode_locks = refl

unsupported : write_pmp registers 8 code ≡ none
unfolding write_pmp
unsupported = refl
