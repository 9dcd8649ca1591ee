-- ===== src/Prelude/Fallible.antt =====
-- Chains of steps that may fail.
use mathlib.Core.Bool.{Bool, true, false}
use mathlib.Core.Path.{◌≡◌, refl}
use mathlib.Core.Option.{Option, none, some}

infixl 5 ◌>>=◌ ◌>>◌
abbrev pub ◌>>=◌ {ℓ κ} : {A : Type ℓ} {B : Type κ} → Option A → (A → Option B) → Option B
none >>= f = none
some a >>= f = f a

abbrev pub ◌>>◌ {ℓ} : {B : Type ℓ} → Option (Unit {0}) → Option B → Option B
m >> k = m >>= λ _. k

-- Go on only if a test holds.
abbrev pub guard : Bool → Option (Unit {0})
guard true = some tt
guard false = none

-- What a chain that starts with a test says when it returns.
pub guard-passes {ℓ} :
    {B : Type ℓ} (c : Bool) (k : Option B) (b : B)
    → (guard c >> k) ≡ some b
    → (c ≡ true) × (k ≡ some b)
guard-passes true k b h = (refl, h)
guard-passes false k b h = cc
