-- ===== src/Prelude/Exec.antt =====
-- Actions that change a state and may fail or panic. What was written before stays written.
pub mod Keeps
use mathlib.Core.Path.{◌≡◌, refl, sym, ap, ◌∙◌, fun_ext}
use mathlib.Core.Logic.{◌⊎◌, inl, inr}
use tmkms.Prelude.Control.{Outcome, ok, err, panic}

abbrev pub Exec {ℓ κ ι} : Type ℓ → Type κ → Type ι → Type (ℓ ⊔ κ ⊔ ι)
Exec S E A = S → Outcome E A × S

module _ {ℓ κ ι} {S : Type ℓ} {E : Type κ} {A : Type ι} where
  abbrev pub pure : A → Exec S E A
  pure a s = (ok a, s)

  abbrev pub lift : Outcome E A → Exec S E A
  lift r s = (r, s)

module _ {ℓ κ ι ο} {S : Type ℓ} {E : Type κ} {A : Type ι} {B : Type ο} where
  abbrev pub continue : Outcome E A → (A → Exec S E B) → Exec S E B
  continue (ok a) f s = f a s
  continue (err e) f s = (err e, s)
  continue (panic p) f s = (panic p, s)

  infixl 5 ◌>>=◌ ◌>>◌
  abbrev pub ◌>>=◌ : Exec S E A → (A → Exec S E B) → Exec S E B
  ◌>>=◌ m f s = continue (m s).0 f (m s).1

  abbrev pub ◌>>◌ : Exec S E A → Exec S E B → Exec S E B
  ◌>>◌ m k = m >>= (λ _. k)

module _ {ℓ κ ι ο} {S : Type ℓ} {E : Type κ} {A : Type ι} {B : Type ο} where
  continue-ok :
      (r : Outcome E A) (f : A → Exec S E B) (s : S) {b : B}
      → (continue r f s).0 ≡ ok b
      → (a : A) × (r ≡ ok a) × (continue r f s ≡ f a s)
  continue-ok (ok a) f s h = (a, refl, refl)
  continue-ok (err e) f s h = cc h
  continue-ok (panic p) f s h = cc h

  -- What equals a chain, and succeeds, equals the rest of it, after a first step that succeeds.
  pub >>=-ok :
      (m : Exec S E A) (f : A → Exec S E B) (s : S) {b : B} (whole : Outcome E B × S)
      → whole ≡ (m >>= f) s
      → whole.0 ≡ ok b
      → (a : A) × ((m s).0 ≡ ok a) × (whole ≡ f a (m s).1)
  >>=-ok m f s whole same h =
      let (a, first, rest) =
        continue-ok (m s).0 f (m s).1 (ap (λ (p : Outcome E B × S). p.0) (sym same) ∙ h) in
      (a, first, same ∙ rest)

  continue-cases :
      (r : Outcome E A) (f : A → Exec S E B) (s : S)
      → ((continue r f s).1 ≡ s) ⊎ ((a : A) × (r ≡ ok a) × (continue r f s ≡ f a s))
  continue-cases (ok a) f s = inr (a, refl, refl)
  continue-cases (err e) f s = inl refl
  continue-cases (panic p) f s = inl refl

  -- A chain ends in the state that its first action leaves, or is its rest after a first step that
  -- succeeds.
  pub >>=-cases :
      (m : Exec S E A) (f : A → Exec S E B) (s : S)
      → (((m >>= f) s).1 ≡ (m s).1) ⊎ ((a : A) × ((m s).0 ≡ ok a) × ((m >>= f) s ≡ f a (m s).1))
  >>=-cases m f s = continue-cases (m s).0 f (m s).1
