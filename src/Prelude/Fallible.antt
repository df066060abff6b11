-- ===== src/Prelude/Fallible.antt =====
-- A value or an error, and the chain of steps that may fail.
use mathlib.Core.Path.{◌≡◌, refl}
use mathlib.Core.Bool.{Bool, true, false}
use mathlib.Core.Option.{Option, none, some}

pub data Result {ℓ κ} (E : Type ℓ) (A : Type κ) : Type (ℓ ⊔ κ) where
  ok : A → Result E A
  err : E → Result E A

module _ {ℓ κ} {E : Type ℓ} where
  abbrev pub bind {η} : {A : Type κ} {B : Type η} → Result E A → (A → Result E B) → Result E B
  bind (ok a) f = f a
  bind (err e) f = err e

  -- Goes on only past a test that holds.
  abbrev pub require : {A : Type κ} → Bool → E → Result E A → Result E A
  require true e r = r
  require false e r = err e

pub require_ok {ℓ κ} :
    {E : Type ℓ} {A : Type κ} (b : Bool) (e : E) (r : Result E A) (a : A)
    → require b e r ≡ ok a
    → (b ≡ true) × (r ≡ ok a)
require_ok true e r a h = (refl, h)
require_ok false e r a h = cc

-- SQL's `coalesce(x, y)`
abbrev pub coalesce {ℓ} : {A : Type ℓ} → Option A → Option A → Option A
coalesce none y = y
coalesce (some x) y = some x
