-- ===== src/Reg/Widths.antt =====
-- The registers of 8, 16 and 64 bits (internal/reg/reg8.go, reg16.go and reg64.go): the functions of
-- `Reg` and `Reg.Poll` at those widths. Reads and writes are the same at each.
use tamago.Prelude.{
  ℕ, ◌+◌, ◌-◌, ◌≤◌, ◌<◌, ◌≡◌, refl, Bool, true, false, ◌||◌, Option, leb, ◌==◌, arith,
}
use tamago.Reg.{Registers, get, set, clear, set_to, get_n, set_n, clear_n, set_mask}
use tamago.Reg.Poll.{poll, IsStop, poll-IsStop}

pub get_n8 : Registers → ℕ → ℕ → ℕ → ℕ
unfolding get_n
get_n8 g addr pos mask = get_n 8 g addr pos mask

pub wait_for8 : (ℕ → Registers) → (ℕ → ℕ) → ℕ → ℕ → ℕ → ℕ → ℕ → ℕ → ℕ → Option Bool
wait_for8 polled now fuel start timeout addr pos mask val =
    poll (λ i. get_n8 (polled i) addr pos mask == val) (λ i. leb timeout (now i - start)) fuel 0

pub get16 : Registers → ℕ → ℕ → Bool
unfolding get
get16 g addr pos = get g addr pos

pub set16 : Registers → ℕ → ℕ → Registers
unfolding set
set16 g addr pos = set 16 g addr pos

pub set_to16 : Registers → ℕ → ℕ → Bool → Registers
unfolding set_to
set_to16 g addr pos val = set_to 16 g addr pos val

pub clear16 : Registers → ℕ → ℕ → Registers
unfolding clear
clear16 g addr pos = clear 16 g addr pos

pub get_n16 : Registers → ℕ → ℕ → ℕ → ℕ
unfolding get_n
get_n16 g addr pos mask = get_n 16 g addr pos mask

pub set_n16 : Registers → ℕ → ℕ → ℕ → ℕ → Registers
unfolding set_n
set_n16 g addr pos mask val = set_n 16 g addr pos mask val

pub clear_n16 : Registers → ℕ → ℕ → ℕ → Registers
unfolding clear_n
clear_n16 g addr pos mask = clear_n 16 g addr pos mask

pub set_mask16 : Registers → ℕ → ℕ → Registers
unfolding set_mask
set_mask16 g addr val = set_mask g addr val

pub wait16 : (ℕ → Registers) → ℕ → ℕ → ℕ → ℕ → ℕ → Option Bool
wait16 polled fuel addr pos mask val =
    poll (λ i. get_n16 (polled i) addr pos mask == val) (λ i. false) fuel 0

pub wait_for16 : (ℕ → Registers) → (ℕ → ℕ) → ℕ → ℕ → ℕ → ℕ → ℕ → ℕ → ℕ → Option Bool
wait_for16 polled now fuel start timeout addr pos mask val =
    poll (λ i. get_n16 (polled i) addr pos mask == val) (λ i. leb timeout (now i - start)) fuel 0

pub get64 : Registers → ℕ → ℕ → Bool
unfolding get
get64 g addr pos = get g addr pos

pub set64 : Registers → ℕ → ℕ → Registers
unfolding set
set64 g addr pos = set 64 g addr pos

pub set_to64 : Registers → ℕ → ℕ → Bool → Registers
unfolding set_to
set_to64 g addr pos val = set_to 64 g addr pos val

pub clear64 : Registers → ℕ → ℕ → Registers
unfolding clear
clear64 g addr pos = clear 64 g addr pos

pub get_n64 : Registers → ℕ → ℕ → ℕ → ℕ
unfolding get_n
get_n64 g addr pos mask = get_n 64 g addr pos mask

pub set_n64 : Registers → ℕ → ℕ → ℕ → ℕ → Registers
unfolding set_n
set_n64 g addr pos mask val = set_n 64 g addr pos mask val

-- WaitFor8 and WaitFor16 return, with fuel for the rounds up to any whose time has reached the timeout: at
-- the first round that reads the value or reaches the timeout, and true exactly if it was read then.
pub wait_for8_stops :
    (polled : ℕ → Registers) (now : ℕ → ℕ) (fuel start timeout addr pos mask val k : ℕ)
    → k < fuel
    → start + timeout ≤ now k
    → IsStop
        (λ i. get_n8 (polled i) addr pos mask == val)
        (λ i. leb timeout (now i - start))
        0
        k
        (wait_for8 polled now fuel start timeout addr pos mask val)
      × IsStop
          (λ i. get_n16 (polled i) addr pos mask == val)
          (λ i. leb timeout (now i - start))
          0
          k
          (wait_for16 polled now fuel start timeout addr pos mask val)
unfolding wait_for8 wait_for16
wait_for8_stops polled now fuel start timeout addr pos mask val k h e =
    let timed : leb timeout (now k - start) ≡ true = ground arith in
    (
      poll-IsStop _ _ fuel 0 k (omega arith) (omega arith) (or-true _ timed),
      poll-IsStop _ _ fuel 0 k (omega arith) (omega arith) (or-true _ timed),
    )
  where
    or-true : (b : Bool) {c : Bool} → c ≡ true → (b || c) ≡ true
    or-true true e = refl
    or-true false e = e
