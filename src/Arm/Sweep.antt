-- ===== src/Arm/Sweep.antt =====
-- The loops of arm/mmu.go over the entries of a table: an entry that one round sets and that the others
-- leave alone has its value at the end.
use tamago.Prelude.{ℕ, zero, suc, ◌+◌, ◌<◌, ◌≤◌, ◌≡◌, ◌==◌, ◌&&◌, ltb, leb, if◌then◌else◌, arith}
use tamago.Reg.{Registers}
use tamago.Arm.{for_each}

pub for_each-once :
    (body : ℕ → Registers → Registers) (n c j : ℕ) (f : ℕ → ℕ)
    → ((i : ℕ) (g : Registers) → i < n → body i g j ≡ (if i == c then f (g j) else g j))
    → (k i : ℕ) (g : Registers) → i + k ≤ n
    → for_each body k i g j ≡ (if leb i c && ltb c (i + k) then f (g j) else g j)
unfolding for_each
for_each-once body n c j f sets zero i g h = ground arith
for_each-once body n c j f sets (suc k) i g h = ground (
  arith,
  for_each-once body n c j f sets k (i + 1) (body i g) (omega arith),
  sets i g (omega arith),
)

pub for_each-kept :
    (body : ℕ → Registers → Registers) (n j : ℕ)
    → ((i : ℕ) (g : Registers) → i < n → body i g j ≡ g j)
    → (k i : ℕ) (g : Registers) → i + k ≤ n
    → for_each body k i g j ≡ g j
unfolding for_each
for_each-kept body n j keeps zero i g h = ground arith
for_each-kept body n j keeps (suc k) i g h = ground (
  arith,
  for_each-kept body n j keeps k (i + 1) (body i g) (omega arith),
  keeps i g (omega arith),
)
