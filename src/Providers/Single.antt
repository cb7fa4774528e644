-- ===== src/Providers/Single.antt =====
-- Which keys the chains hold after the software provider has been set up
-- (src/keyring/providers/softsign.rs), and with which key they sign.
use tmkms.Prelude.{
  ◌≡◌, ◌≢◌, refl, sym, ap, ◌∙◌, subst, ◌⊎◌, inl, inr, String, Option, none, some, map_option, List,
  [], ◌∷◌, All, arith, if◌then◌else◌, Outcome, ok, Option-cases,
}
use tmkms.Prelude.Exec.{Exec, >>=-ok}
use tmkms.Prelude.Exec.Keeps.{Keeps-step}
use tmkms.Error.{ErrorKind}
use tmkms.Map.{Map, KeyOrd, IsKeyOrd, get, put}
use tmkms.Map.Laws.{get-put}
use tmkms.KeyRing.{KeyRing, add_ecdsa, add_ed25519}
use tmkms.KeyRing.Keys.{PublicKey, TendermintKey, account_key, consensus_key}
use tmkms.KeyRing.Ed25519
use tmkms.KeyRing.Ecdsa
use tmkms.Chain.{Chain}
use tmkms.Chain.Registry.{Registry, get_chain, add_account_key, add_consensus_key}
use tmkms.Providers.{for_chains, add_consensus_keys}

abbrev pub Ring : Type 0
Ring = Map TendermintKey Ed25519.Signer

-- The Ed25519 keys of a chain.
abbrev pub ring : KeyOrd String → String → Registry → Option Ring
ring ids chain_id r = map_option (λ (c : Chain). c.keyring.ed25519_keys) (get_chain ids chain_id r)

add_ecdsa_keeps :
    (keys : KeyOrd TendermintKey) (signer : Ecdsa.Signer) (k : KeyRing) (pk : TendermintKey)
    → signer.public_key ≡ pk
    → (add_ecdsa keys signer k).1.ed25519_keys ≡ k.ed25519_keys
unfolding add_ecdsa
add_ecdsa_keeps keys signer k (account_key pk) e = rw e refl
add_ecdsa_keeps keys signer k (consensus_key pk) e = rw e refl

add_ed25519_puts :
    (keys : KeyOrd TendermintKey) (signer : Ed25519.Signer) (k : KeyRing) (pk : PublicKey)
    → signer.public_key ≡ consensus_key pk
    → (add_ed25519 keys signer k).1.ed25519_keys ≡ put keys (consensus_key pk) signer k.ed25519_keys
unfolding add_ed25519
add_ed25519_puts keys signer k pk e = rw e refl

module _ (ids : KeyOrd String) (keys : KeyOrd TendermintKey) (lawful : IsKeyOrd ids) where
  pub ring-add_account_key :
      (chain_id id : String) (signer : Ecdsa.Signer) (r : Registry)
      → ring ids id (add_account_key ids keys chain_id signer r).1 ≡ ring ids id r
  unfolding add_account_key get_chain
  ring-add_account_key chain_id id signer r = elim (Option-cases (get ids chain_id r)) [
    | inl missing ↦ ground arith
    | inr (chain, known) ↦
        let new = record chain { keyring = (add_ecdsa keys signer chain.keyring).1 } in
        ground (
          arith,
          get-put ids lawful chain_id id new r,
          lawful.beq_iff chain_id id,
          add_ecdsa_keeps keys signer chain.keyring signer.public_key refl,
        )
  ]

  pub ring-add_consensus_key :
      (chain_id id : String) (signer : Ed25519.Signer) (pk : PublicKey) (r : Registry)
      → signer.public_key ≡ consensus_key pk
      → ring ids id (add_consensus_key ids keys chain_id signer r).1 ≡ (
          if ids.beq chain_id id
          then map_option (put keys (consensus_key pk) signer) (ring ids id r)
          else ring ids id r)
  unfolding add_consensus_key get_chain
  ring-add_consensus_key chain_id id signer pk r is_key = elim (Option-cases (get ids chain_id r)) [
    | inl missing ↦ ground (arith, lawful.beq_iff chain_id id)
    | inr (chain, known) ↦
        let new = record chain { keyring = (add_ed25519 keys signer chain.keyring).1 } in
        ground (
          arith,
          get-put ids lawful chain_id id new r,
          lawful.beq_iff chain_id id,
          add_ed25519_puts keys signer chain.keyring pk is_key,
        )
  ]

-- A predicate that every chain keeps is kept by the loop over the chains.
pub for_chains_keeps :
    (P : Registry → Type 0) (add : String → Exec Registry ErrorKind (Unit {0}))
    → ((id : String) (r : Registry) → P r → P (add id r).1)
    → (ids : List String) (r : Registry) → P r
    → P (for_chains add ids r).1
unfolding for_chains
for_chains_keeps P add keep [] r h = h
for_chains_keeps P add keep (id ∷ ids) r h =
    Keeps-step P (add id) (λ _. for_chains add ids) r (keep id r h)
      (λ _ _. for_chains_keeps P add keep ids (add id r).1 (keep id r h))

-- What the keyring of a chain is while one key, with its signer, is added to the chains.
abbrev pub IsNew : Option Ring → Type 0
IsNew m = (m ≡ none) ⊎ (m ≡ some [])

abbrev pub IsSole : PublicKey → Ed25519.Signer → Option Ring → Type 0
IsSole pk signer m = m ≡ some ((consensus_key pk, signer) ∷ [])

abbrev pub AllNew : KeyOrd String → Registry → Type 0
AllNew ids r = (id : String) → IsNew (ring ids id r)

abbrev pub AtMost : KeyOrd String → PublicKey → Ed25519.Signer → Registry → Type 0
AtMost ids pk signer r = (id : String) → IsNew (ring ids id r) ⊎ IsSole pk signer (ring ids id r)

module _ (ids : KeyOrd String) (keys : KeyOrd TendermintKey) (lawful : IsKeyOrd ids)
    (keyed : IsKeyOrd keys) where
  add_needs :
      (chain_id : String) (signer : Ed25519.Signer) (r : Registry)
      → (add_consensus_key ids keys chain_id signer r).0 ≡ ok tt
      → ring ids chain_id r ≢ none
  unfolding add_consensus_key get_chain
  add_needs chain_id signer r added missing = ground arith

  module _ (pk : PublicKey) (signer : Ed25519.Signer)
      (is_key : signer.public_key ≡ consensus_key pk) where
    put-AtMost :
        (m : Option Ring)
        → IsNew m ⊎ IsSole pk signer m
        → let m' = map_option (put keys (consensus_key pk) signer) m in
          (IsNew m' ⊎ IsSole pk signer m')
          × (IsSole pk signer m → IsSole pk signer m')
          × (m ≢ none → IsSole pk signer m')
    unfolding put
    put-AtMost m h = ground (arith, keyed.beq_iff (consensus_key pk) (consensus_key pk))

    -- Adding the key to one chain
    pub add-AtMost :
        (chain_id id : String) (r : Registry)
        → IsNew (ring ids id r) ⊎ IsSole pk signer (ring ids id r)
        → let m' = ring ids id (add_consensus_key ids keys chain_id signer r).1 in
          (IsNew m' ⊎ IsSole pk signer m')
          × (IsSole pk signer (ring ids id r) → IsSole pk signer m')
    add-AtMost chain_id id r h = ground (
      arith,
      ring-add_consensus_key ids keys lawful chain_id id signer pk r is_key,
      put-AtMost (ring ids id r) h,
    )

    add-ok :
        (chain_id : String) (r : Registry)
        → IsNew (ring ids chain_id r) ⊎ IsSole pk signer (ring ids chain_id r)
        → (add_consensus_key ids keys chain_id signer r).0 ≡ ok tt
        → IsSole pk signer (ring ids chain_id (add_consensus_key ids keys chain_id signer r).1)
    add-ok chain_id r h added = ground (
      arith,
      ring-add_consensus_key ids keys lawful chain_id chain_id signer pk r is_key,
      (put-AtMost (ring ids chain_id r) h).2 (add_needs chain_id signer r added),
      lawful.beq_iff chain_id chain_id,
    )

    pub add_each-AtMost :
        (chain_ids : List String) (r : Registry)
        → AtMost ids pk signer r
        → AtMost ids pk signer (add_consensus_keys ids keys signer chain_ids r).1
    unfolding add_consensus_keys
    add_each-AtMost =
        for_chains_keeps (AtMost ids pk signer)
          (λ chain_id. add_consensus_key ids keys chain_id signer)
          (λ chain_id r h id. (add-AtMost chain_id id r (h id)).0)

    add_each-IsSole :
        (id : String) (chain_ids : List String) (r : Registry)
        → AtMost ids pk signer r × IsSole pk signer (ring ids id r)
        → AtMost ids pk signer (add_consensus_keys ids keys signer chain_ids r).1
          × IsSole pk signer (ring ids id (add_consensus_keys ids keys signer chain_ids r).1)
    unfolding add_consensus_keys
    add_each-IsSole id =
        for_chains_keeps (λ r. AtMost ids pk signer r × IsSole pk signer (ring ids id r))
          (λ chain_id. add_consensus_key ids keys chain_id signer)
          (λ chain_id r h. (
            (λ other. (add-AtMost chain_id other r (h.0 other)).0),
            (add-AtMost chain_id id r (h.0 id)).1 h.1,
          ))

    -- Where the loop succeeds, each chain has the key alone.
    pub add_each-ok :
        (chain_ids : List String) (r : Registry)
        → AtMost ids pk signer r
        → (add_consensus_keys ids keys signer chain_ids r).0 ≡ ok tt
        → All
            (λ id.
              IsSole pk signer (ring ids id (add_consensus_keys ids keys signer chain_ids r).1))
            chain_ids
    unfolding add_consensus_keys
    add_each-ok [] r h added = tt
    add_each-ok (id ∷ rest) r h added =
        let add = λ (chain_id : String). add_consensus_key ids keys chain_id signer in
        let (_, first, same) =
          >>=-ok (add id) (λ _. for_chains add rest) r (for_chains add (id ∷ rest) r) refl added in
        let r₁ = (add id r).1 in
        let h₁ : AtMost ids pk signer r₁ = λ other. (add-AtMost id other r (h other)).0 in
        let here = add-ok id r (h id) first in
        let finished =
          ap (λ (p : Outcome ErrorKind (Unit {0}) × Registry). p.0) (sym same) ∙ added in
        subst
          (λ (p : Outcome ErrorKind (Unit {0}) × Registry).
            All (λ id'. IsSole pk signer (ring ids id' p.1)) (id ∷ rest))
          (sym same) ((add_each-IsSole id rest r₁ (h₁, here)).1, add_each-ok rest r₁ h₁ finished)
