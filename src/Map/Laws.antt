-- ===== src/Map/Laws.antt =====
-- Laws of the map, for keys whose `==` is equality.
use tmkms.Prelude.{◌≡◌, refl, some, [], ◌∷◌, arith, if◌then◌else◌}
use tmkms.Map.{KeyOrd, IsKeyOrd, Map, get, put}

module _ {ℓ κ} {K : Type ℓ} {V : Type κ} (o : KeyOrd K) (lawful : IsKeyOrd o) where
  -- A read after a write.
  pub get-put :
      (k j : K) (v : V) (m : Map K V)
      → get o j (put o k v m) ≡ (if o.beq k j then some v else get o j m)
  unfolding get put
  get-put k j v [] = refl
  get-put k j v ((i, w) ∷ m) =
      ground (arith, lawful.beq_iff i k, lawful.beq_iff i j, lawful.beq_iff k j, get-put k j v m)

  pub get-put_self : (k : K) (v : V) (m : Map K V) → get o k (put o k v m) ≡ some v
  get-put_self k v m = ground (arith, get-put k k v m, lawful.beq_iff k k)
