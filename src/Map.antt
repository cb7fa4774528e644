-- ===== src/Map.antt =====
-- The map of the program, `std::collections::BTreeMap` (src/lib.rs): entries in the order of keys.
pub mod Laws
use tmkms.Prelude.{Bool, true, false, ◌≡◌, ◌↔◌, Option, none, some, List, [], ◌∷◌, if◌then◌else◌}

-- `Ord` of the key type
pub record KeyOrd {ℓ} (K : Type ℓ) : Type ℓ where
  pub beq : K → K → Bool
  pub less : K → K → Bool

-- The documented law of `==`, on which lookups rely
pub record IsKeyOrd {ℓ} {K : Type ℓ} (o : KeyOrd K) : Type ℓ where
  pub beq_iff : (a b : K) → (o.beq a b ≡ true) ↔ (a ≡ b)

abbrev pub Map {ℓ κ} : Type ℓ → Type κ → Type (ℓ ⊔ κ)
Map K V = List (K × V)

module _ {ℓ κ} {K : Type ℓ} {V : Type κ} (o : KeyOrd K) where
  unfoldable pub get : K → Map K V → Option V
  get k [] = none
  get k ((j, v) ∷ m) = if o.beq j k then some v else get k m

  unfoldable pub put : K → V → Map K V → Map K V
  put k v [] = (k, v) ∷ []
  put k v ((j, w) ∷ m) =
      let rest = put k v m in
      if o.beq j k then (j, v) ∷ m else if o.less k j then (k, v) ∷ (j, w) ∷ m else (j, w) ∷ rest

  -- `insert` gives the value that it replaced.
  unfoldable pub insert : K → V → Map K V → Map K V × Option V
  unfolding get put
  insert k v m = (put k v m, get k m)

unfoldable pub keys {ℓ κ} : {K : Type ℓ} {V : Type κ} → Map K V → List K
keys [] = []
keys ((k, v) ∷ m) = k ∷ keys m

unfoldable pub values {ℓ κ} : {K : Type ℓ} {V : Type κ} → Map K V → List V
values [] = []
values ((k, v) ∷ m) = v ∷ values m
