-- ===== src/Base/Results.antt =====
-- Results of code that may stop the process, and their bind.
use mathlib.Core.Path.{◌≡◌, refl}

-- `assert_failed`: an `assert` does not hold. `undefined`: what C leaves undefined, such as a read
-- outside an object. `aborted`: a call of `abort`.
pub data Fault : Type 0 where
  assert_failed undefined aborted : Fault

pub data Result {ℓ} (A : Type ℓ) : Type ℓ where
  ok : A → Result A
  err : Fault → Result A

-- Runs the rest on a value; a fault ends the run.
abbrev pub and_then {ℓ κ} : {A : Type ℓ} {B : Type κ} → Result A → (A → Result B) → Result B
and_then (ok a) f = f a
and_then (err e) f = err e

infixl 5 ◌>>=◌
abbrev pub ◌>>=◌ {ℓ κ} : {A : Type ℓ} {B : Type κ} → Result A → (A → Result B) → Result B
m >>= f = and_then m f

-- A run that ends well has been through a value of its first part.
pub and_then-ok {ℓ κ} :
    {A : Type ℓ} {B : Type κ} (r : Result A) (f : A → Result B) {b : B}
    → and_then r f ≡ ok b
    → (a : A) × (r ≡ ok a) × (f a ≡ ok b)
and_then-ok (ok a) f h = (a, refl, h)
and_then-ok (err e) f h = cc
