-- ===== src/Prelude/Control.antt =====
-- What a fallible call gives back: a value, an error, or a panic that unwinds. A panic carries what
-- `Error::from_panic` tells apart: whether its message names a poisoned lock.
use mathlib.Core.Path.{◌≡◌}
use native.Mathlib.Omega.{arith}

pub data Panic : Type 0 where
  poisoned_lock : Panic
  crash : Panic

pub data Outcome {ℓ κ} (E : Type ℓ) (A : Type κ) : Type (ℓ ⊔ κ) where
  ok : A → Outcome E A
  err : E → Outcome E A
  panic : Panic → Outcome E A

infixl 5 ◌>>=◌ ◌>>◌
abbrev pub ◌>>=◌ {ℓ κ ι} :
    {E : Type ℓ} {A : Type κ} {B : Type ι} → Outcome E A → (A → Outcome E B) → Outcome E B
ok a >>= f = f a
err e >>= f = err e
panic p >>= f = panic p

abbrev pub ◌>>◌ {ℓ κ} : {E : Type ℓ} {B : Type κ} → Outcome E (Unit {0}) → Outcome E B → Outcome E B
m >> k = m >>= λ _. k

-- `map_err`, and the `From` conversion that `?` applies to an error.
abbrev pub map_err {ℓ κ ι} :
    {E : Type ℓ} {F : Type κ} {A : Type ι} → (E → F) → Outcome E A → Outcome F A
map_err f (ok a) = ok a
map_err f (err e) = err (f e)
map_err f (panic p) = panic p

pub map_err-ok {ℓ κ ι} :
    {E : Type ℓ} {F : Type κ} {A : Type ι} (f : E → F) (m : Outcome E A) {a : A}
    → map_err f m ≡ ok a
    → m ≡ ok a
map_err-ok f (ok a) h = ground arith
map_err-ok f (err e) h = cc h
map_err-ok f (panic p) h = cc h
