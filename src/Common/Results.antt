-- ===== src/Common/Results.antt =====
-- How a run can stop short, and results of runs that can.
use mathlib.Core.Path.{◌≡◌, refl}

pub data Fault : Type 0 where
  -- an `assert` that fails, or a call of `exit`
  assertion : Fault
  -- an array access outside its bounds, or a null pointer
  out_of_bounds : Fault
  -- a division that C leaves undefined
  undefined : Fault
  -- a loop or a recursion of the model that was given too few rounds
  out_of_fuel : Fault

pub data Result {ℓ} (A : Type ℓ) : Type ℓ where
  ok : A → Result A
  fail : Fault → Result A

abbrev pub and_then {ℓ κ} : {A : Type ℓ} {B : Type κ} → Result A → (A → Result B) → Result B
and_then (ok a) f = f a
and_then (fail x) f = fail x

pub and_then-eq-ok {ℓ κ} :
    {A : Type ℓ} {B : Type κ} (m : Result A) (f : A → Result B) {b : B}
    → and_then m f ≡ ok b
    → (a : A) × (m ≡ ok a) × (f a ≡ ok b)
and_then-eq-ok (ok a) f h = (a, refl, h)
and_then-eq-ok (fail x) f h = cc
