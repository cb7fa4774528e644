-- ===== src/Prelude/Exec/Keeps.antt =====
-- Rules for what an action keeps of its state, whether it succeeds or not.
use mathlib.Core.Path.{◌≡◌, refl}
use mathlib.Core.Bool.{Bool, true, false}
use tmkms.Prelude.Tests.{if◌then◌else◌}
use tmkms.Prelude.Control.{Outcome, ok, err, panic}
use tmkms.Prelude.Exec.{Exec, pure, lift, continue, ◌>>=◌}

module _ {S E : Type 0} (P : S → Type 0) where
  pub record Keeps {A : Type 0} (m : Exec S E A) : Type 0 where
    pub at : (s : S) → P s → P (m s).1

  pub Keeps-pure : {A : Type 0} (a : A) → Keeps (pure {A = A} a)
  Keeps-pure a = record { at = λ s h. h }

  pub Keeps-lift-bind :
      {A B : Type 0} (r : Outcome E A) (f : A → Exec S E B)
      → ((a : A) → r ≡ ok a → Keeps (f a))
      → Keeps (λ s. continue r f s)
  Keeps-lift-bind (ok a) f k = record { at = λ s h. (k a refl).at s h }
  Keeps-lift-bind (err e) f k = record { at = λ s h. h }
  Keeps-lift-bind (panic p) f k = record { at = λ s h. h }

  pub Keeps-bind :
      {A B : Type 0} (m : Exec S E A) (f : A → Exec S E B)
      → Keeps m
      → ((a : A) → Keeps (f a))
      → Keeps (m >>= f)
  Keeps-bind m f km kf = record {
    at = λ s h. (Keeps-lift-bind (m s).0 f (λ a _. kf a)).at (m s).1 (km.at s h);
  }

  pub Keeps-lift : {A : Type 0} (r : Outcome E A) → Keeps (lift r)
  Keeps-lift r = record { at = λ s h. h }

  pub Keeps-if :
      {A : Type 0} (b : Bool) (m k : Exec S E A) → Keeps m → Keeps k → Keeps (if b then m else k)
  Keeps-if true m k km kk = km
  Keeps-if false m k km kk = kk

  -- The rest of a chain is looked at only where its first action succeeds.
  pub Keeps-step :
      {A B : Type 0} (m : Exec S E A) (f : A → Exec S E B) (s : S)
      → P (m s).1
      → ((a : A) → (m s).0 ≡ ok a → P (f a (m s).1).1)
      → P ((m >>= f) s).1
  Keeps-step {A} m f s h k = continued (m s).0 refl
    where
      continued : (r : Outcome E A) → (m s).0 ≡ r → P (continue r f (m s).1).1
      continued (ok a) e = k a e
      continued (err e) e' = h
      continued (panic p) e = h
