-- ===== src/Commands/Setup/Paths.antt =====
-- src/commands/yubihsm/setup.rs: paths of derivation, as bytes.
use tmkms.Prelude.{
  ℕ, ◌+◌, ◌%◌, ◌/◌, ◌<◌, ◌≤◌, ◌≡◌, refl, List, [], ◌∷◌, ◌++◌, length, ltb, if◌then◌else◌, arith,
  All,
}
use tmkms.Tendermint.{Bytes}

-- One component: a byte for its length less one, and its bytes. `len() - 1` panics on an empty
-- component, since the release build checks for overflow; the program has no empty components.
unfoldable pub component_bytes : Bytes → Bytes
component_bytes component = (length component + 255) % 256 ∷ component

unfoldable pub components_bytes : List Bytes → Bytes
unfolding component_bytes
components_bytes [] = []
components_bytes (component ∷ path) = component_bytes component ++ components_bytes path

abbrev pub derivation_version : Bytes
derivation_version = 49 ∷ []

unfoldable pub construct_derivation_path : List Bytes → Bytes
unfolding components_bytes
construct_derivation_path path = components_bytes (derivation_version ∷ path)

-- `{:x}` of one digit
unfoldable pub hex_digit : ℕ → ℕ
hex_digit d = if ltb d 10 then 48 + d else 87 + d

-- `format!("0x{:04x}", key_id)`, for a `u16`
unfoldable pub serialize_key_id : ℕ → Bytes
unfolding hex_digit
serialize_key_id key_id =
    48
    ∷ 120
    ∷ hex_digit (key_id / 4096)
    ∷ hex_digit (key_id / 256 % 16)
    ∷ hex_digit (key_id / 16 % 16)
    ∷ hex_digit (key_id % 16)
    ∷ []

abbrev pub IsComponent : Bytes → Type 0
IsComponent component = (0 < length component) × (length component ≤ 256)

append-injective : (a b x y : Bytes) → length a ≡ length b → a ++ x ≡ b ++ y → (a ≡ b) × (x ≡ y)
append-injective [] [] x y e h = (refl, h)
append-injective [] (b ∷ bs) x y e h = absurd (omega (arith, e))
append-injective (a ∷ as_) [] x y e h = absurd (omega (arith, e))
append-injective (a ∷ as_) (b ∷ bs) x y e h =
    let (tails, rests) = append-injective as_ bs x y (omega (arith, e)) (cc h) in
    (cc (h, tails), rests)

components_bytes-injective :
    (p q : List Bytes)
    → All IsComponent p
    → All IsComponent q
    → components_bytes p ≡ components_bytes q
    → p ≡ q
unfolding components_bytes component_bytes
components_bytes-injective [] [] hp hq h = refl
components_bytes-injective [] (b ∷ q) hp hq h = cc h
components_bytes-injective (a ∷ p) [] hp hq h = cc h
components_bytes-injective (a ∷ p) (b ∷ q) (ha, hp) (hb, hq) h =
    let heads : (length a + 255) % 256 ≡ (length b + 255) % 256 = cc h in
    let tails : a ++ components_bytes p ≡ b ++ components_bytes q = cc h in
    let (same, rests) =
      append-injective a b (components_bytes p) (components_bytes q) (omega (arith, heads, ha, hb))
        tails in
    cc (same, components_bytes-injective p q hp hq rests)

-- Two paths of derivation with the same bytes are the same path, if their components have between 1 and
-- 256 bytes: secrets for different purposes are never derived from the same bytes.
pub construct_derivation_path-injective :
    (p q : List Bytes)
    → All IsComponent p
    → All IsComponent q
    → construct_derivation_path p ≡ construct_derivation_path q
    → p ≡ q
unfolding construct_derivation_path components_bytes component_bytes
construct_derivation_path-injective p q hp hq h = components_bytes-injective p q hp hq (cc h)

hex_digit-injective : (a b : ℕ) → a < 16 → b < 16 → hex_digit a ≡ hex_digit b → a ≡ b
unfolding hex_digit
hex_digit-injective a b ha hb h = ground arith

-- Different key IDs are written differently.
pub serialize_key_id-injective :
    (a b : ℕ) → a < 65536 → b < 65536 → serialize_key_id a ≡ serialize_key_id b → a ≡ b
unfolding serialize_key_id
serialize_key_id-injective a b ha hb h =
    let e₃ = hex_digit-injective (a / 4096) (b / 4096) (omega arith) (omega arith) (cc h) in
    let e₂ = hex_digit-injective (a / 256 % 16) (b / 256 % 16) (omega arith) (omega arith) (cc h) in
    let e₁ = hex_digit-injective (a / 16 % 16) (b / 16 % 16) (omega arith) (omega arith) (cc h) in
    let e₀ = hex_digit-injective (a % 16) (b % 16) (omega arith) (omega arith) (cc h) in
    omega (arith, e₃, e₂, e₁, e₀)
