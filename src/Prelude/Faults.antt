-- ===== src/Prelude/Faults.antt =====
-- The outcome of code that may stop the simulator: an `assert` that fails, a `panic`, or an access
-- outside an array or through NULL, which C++ leaves undefined.
use mathlib.Core.Path.{◌≡◌, refl}
use mathlib.Core.Bool.{Bool, true, false}

pub data Fault : Type 0 where
  assertion panic out_of_bounds null_pointer : Fault

pub data Result {ℓ} (A : Type ℓ) : Type ℓ where
  ok : A → Result A
  fault : Fault → Result A

abbrev pub require : Bool → Fault → Result (Unit {0})
require true why = ok tt
require false why = fault why

infixl 5 ◌>>=◌ ◌>>◌
abbrev pub ◌>>=◌ {ℓ κ} : {X : Type ℓ} {Y : Type κ} → Result X → (X → Result Y) → Result Y
ok x >>= next = next x
fault why >>= next = fault why

abbrev pub ◌>>◌ {κ} : {Y : Type κ} → Result (Unit {0}) → Result Y → Result Y
first >> second = first >>= λ _. second

-- A chain that succeeds, taken apart.
pub bind_ok {ℓ κ} :
    {X : Type ℓ} {Y : Type κ} (r : Result X) (next : X → Result Y) {y : Y}
    → (r >>= next) ≡ ok y
    → (x : X) × (r ≡ ok x) × (next x ≡ ok y)
bind_ok (ok x) next e = (x, refl, e)
bind_ok (fault why) next e = cc
