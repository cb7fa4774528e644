-- ===== src/Providers/Fortanix/Safe.antt =====
-- Setting up the keys of Fortanix DSM (src/keyring/providers/fortanixdsm.rs) cannot panic.
use tmkms.Prelude.{
  ◌≡◌, ◌≢◌, refl, String, some, List, [], ◌∷◌, arith, Option-cases, inl, inr, Outcome, ok, err,
  panic, Panic,
}
use tmkms.Prelude.Exec.{Exec, continue, ◌>>=◌, ◌>>◌}
use tmkms.Error.{ErrorKind}
use tmkms.Tendermint.{Bytes}
use tmkms.Map.{KeyOrd}
use tmkms.KeyRing.{add_ecdsa, add_ed25519}
use tmkms.KeyRing.Keys.{PublicKey, TendermintKey, account_key, consensus_key}
use tmkms.KeyRing.Ed25519
use tmkms.KeyRing.Ecdsa
use tmkms.Chain.Registry.{Registry, add_account_key, add_consensus_key}
use tmkms.Providers.{KeyType, account, consensus, for_chains, add_account_keys, add_consensus_keys}
use tmkms.Providers.Fortanix.{
  KeyDescriptor, SigningKeyConfig, FortanixDsmConfig, Dsm, make_sdkms_client, tendermint_key,
  checked_key, ed25519_from_der, new_signing_key, signer_for, add_key, add_keys, init,
}

module _ {S A : Type 0} where
  -- An action that does not panic in any state.
  pub record Calm (m : Exec S ErrorKind A) : Type 0 where
    pub at : (s : S) (p : Panic) → (m s).0 ≢ panic p

module _ {S A B : Type 0} where
  continue-Calm :
      (r : Outcome ErrorKind A) (f : A → Exec S ErrorKind B) (s : S)
      → ((p : Panic) → r ≢ panic p)
      → ((a : A) → r ≡ ok a → Calm (f a))
      → (p : Panic) → (continue r f s).0 ≢ panic p
  continue-Calm (ok a) f s h k p = (k a refl).at s p
  continue-Calm (err e) f s h k p = λ q. cc q
  continue-Calm (panic p') f s h k p = absurd (h p' refl)

  Calm-bind :
      (m : Exec S ErrorKind A) (f : A → Exec S ErrorKind B)
      → Calm m
      → ((a : A) → Calm (f a))
      → Calm (m >>= f)
  Calm-bind m f c k = record { at = λ s p. continue-Calm (m s).0 f (m s).1 (c.at s) (λ a _. k a) p }

for_chains-Calm :
    (add : String → Exec Registry ErrorKind (Unit {0}))
    → ((id : String) → Calm (add id))
    → (ids : List String) → Calm (for_chains add ids)
unfolding for_chains
for_chains-Calm add c [] = record { at = λ s p q. cc q }
for_chains-Calm add c (id ∷ ids) =
    Calm-bind (add id) (λ _. for_chains add ids) (c id) (λ _. for_chains-Calm add c ids)

module _ (ids : KeyOrd String) (keys : KeyOrd TendermintKey) where
  add_account_key-Calm :
      (id : String) (signer : Ecdsa.Signer) (pk : PublicKey)
      → signer.public_key ≡ account_key pk
      → Calm (add_account_key ids keys id signer)
  unfolding add_account_key add_ecdsa
  add_account_key-Calm id signer pk e = record { at = λ s p q. ground arith }

  add_consensus_key-Calm :
      (id : String) (signer : Ed25519.Signer) (pk : PublicKey)
      → signer.public_key ≡ consensus_key pk
      → Calm (add_consensus_key ids keys id signer)
  unfolding add_consensus_key add_ed25519
  add_consensus_key-Calm id signer pk e = record { at = λ s p q. ground arith }

module _ {Client : Type 0} (dsm : Dsm Client) where
  tendermint_key-account :
      (der : Bytes) (pk : TendermintKey)
      → tendermint_key dsm account der ≡ some pk
      → (a : PublicKey) × (pk ≡ account_key a)
  unfolding tendermint_key
  tendermint_key-account der pk e = elim (Option-cases (dsm.secp256k1_from_der der)) [
    | inl missing ↦ ground arith
    | inr (a, found) ↦ (a, ground arith)
  ]

  tendermint_key-consensus :
      (der : Bytes) (pk : TendermintKey)
      → tendermint_key dsm consensus der ≡ some pk
      → (a : PublicKey) × (pk ≡ consensus_key a)
  unfolding tendermint_key
  tendermint_key-consensus der pk e = elim (Option-cases (ed25519_from_der dsm der)) [
    | inl missing ↦ ground arith
    | inr (a, found) ↦ (a, ground arith)
  ]

  -- What DSM says of a key gives a key of the kind that was asked for.
  new_signing_key-made :
      (client : Client) (descriptor : KeyDescriptor) (t : KeyType) (pk : TendermintKey)
      → new_signing_key dsm client descriptor t ≡ ok pk
      → (der : Bytes) × (tendermint_key dsm t der ≡ some pk)
  unfolding new_signing_key checked_key
  new_signing_key-made client descriptor t pk e =
      elim (Option-cases (dsm.get_sobject client descriptor)) [
        | inl missing ↦ absurd (ground arith)
        | inr (key, found) ↦ elim (Option-cases key.pub_key) [
          | inl no_key ↦ absurd (ground arith)
          | inr (der, has) ↦ (der, ground arith)
        ]
      ]

  new_signing_key-Calm :
      (client : Client) (descriptor : KeyDescriptor) (t : KeyType) (p : Panic)
      → new_signing_key dsm client descriptor t ≢ panic p
  unfolding new_signing_key
  new_signing_key-Calm client descriptor t p e = ground arith

  module _ (ids : KeyOrd String) (keys : KeyOrd TendermintKey) where
    signer_for-Calm :
        (client : Client) (config : SigningKeyConfig) (t : KeyType) (pk : TendermintKey)
        → new_signing_key dsm client config.key t ≡ ok pk
        → Calm (signer_for dsm ids keys client config pk t)
    unfolding signer_for add_account_keys add_consensus_keys
    signer_for-Calm client config account pk e =
        let (der, made) = new_signing_key-made client config.key account pk e in
        let (a, kind) = tendermint_key-account der pk made in
        for_chains-Calm (λ id. add_account_key ids keys id _)
          (λ id. add_account_key-Calm ids keys id _ a kind) config.chain_ids
    signer_for-Calm client config consensus pk e =
        let (der, made) = new_signing_key-made client config.key consensus pk e in
        let (a, kind) = tendermint_key-consensus der pk made in
        for_chains-Calm (λ id. add_consensus_key ids keys id _)
          (λ id. add_consensus_key-Calm ids keys id _ a kind) config.chain_ids

    add_key-Calm :
        (client : Client) (config : SigningKeyConfig) → Calm (add_key dsm ids keys client config)
    unfolding add_key
    add_key-Calm client config = record {
      at = λ s.
          continue-Calm (new_signing_key dsm client config.key config.key_type)
            (λ pk. signer_for dsm ids keys client config pk config.key_type) s
            (new_signing_key-Calm client config.key config.key_type)
            (λ pk e. signer_for-Calm client config config.key_type pk e);
    }

    add_keys-Calm :
        (client : Client) (configs : List SigningKeyConfig)
        → Calm (add_keys dsm ids keys client configs)
    unfolding add_keys
    add_keys-Calm client [] = record { at = λ s p q. cc q }
    add_keys-Calm client (config ∷ configs) =
        Calm-bind (add_key dsm ids keys client config) (λ _. add_keys dsm ids keys client configs)
          (add_key-Calm client config) (λ _. add_keys-Calm client configs)

    make_sdkms_client-Calm :
        (config : FortanixDsmConfig) (p : Panic) → make_sdkms_client dsm config ≢ panic p
    unfolding make_sdkms_client
    make_sdkms_client-Calm config p e = ground arith

    init-Calm : (configs : List FortanixDsmConfig) → Calm (init dsm ids keys configs)
    unfolding init
    init-Calm [] = record { at = λ s p q. cc q }
    init-Calm (config ∷ configs) = record {
      at = λ s.
          continue-Calm (make_sdkms_client dsm config)
            (λ client.
              add_keys dsm ids keys client config.signing_keys >> init dsm ids keys configs)
            s (make_sdkms_client-Calm config)
            (λ client _.
              Calm-bind (add_keys dsm ids keys client config.signing_keys)
                (λ _. init dsm ids keys configs) (add_keys-Calm client config.signing_keys)
                (λ _. init-Calm configs));
    }

    -- Setting up the provider never panics, whatever the service answers: a key is only put into the
    -- keyring that is made for its kind.
    pub init_never_panics :
        (configs : List FortanixDsmConfig) (r : Registry) (p : Panic)
        → (init dsm ids keys configs r).0 ≢ panic p
    init_never_panics configs r p = (init-Calm configs).at r p
