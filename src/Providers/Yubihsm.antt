-- ===== src/Providers/Yubihsm.antt =====
-- src/keyring/providers/yubihsm.rs: keys in a YubiHSM2 device.
pub mod Connector
use tmkms.Prelude.{ℕ, String, Option, none, some, List, [], ◌∷◌, Outcome, ok, err, panic, crash}
use tmkms.Prelude.Exec.{Exec, pure, lift, ◌>>=◌, ◌>>◌}
use tmkms.Error.{ErrorKind, config_error, invalid_key}
use tmkms.Tendermint.{Bytes}
use tmkms.Map.{KeyOrd}
use tmkms.KeyRing.Keys.{PublicKey, TendermintKey, account_key, consensus_key, yubihsm}
use tmkms.Chain.Registry.{Registry}
use tmkms.Providers.{KeyType, account, consensus, add_account_keys, add_consensus_keys}

-- A signer of the yubihsm crate: the public key that tendermint makes of its bytes, if it does, and
-- signing.
pub record Handle : Type 0 where
  pub public_key : Option PublicKey
  pub try_sign : Bytes → Option Bytes

-- `ecdsa::Signer::create` and `ed25519::Signer::create` on a key ID
pub record Hsm : Type 0 where
  pub create_ecdsa : ℕ → Option Handle
  pub create_ed25519 : ℕ → Option Handle

pub record SigningKeyConfig : Type 0 where
  pub chain_ids : List String
  pub key : ℕ
  pub key_type : KeyType

pub created : Option Handle → Outcome ErrorKind Handle
created none = err invalid_key
created (some handle) = ok handle

-- `expect("invalid key")`
pub expected : Option PublicKey → Outcome ErrorKind PublicKey
expected none = panic crash
expected (some pk) = ok pk

module _ (hsm : Hsm) (ids : KeyOrd String) (keys : KeyOrd TendermintKey) where
  unfoldable pub add_account : SigningKeyConfig → Exec Registry ErrorKind (Unit {0})
  unfolding created expected
  add_account config = do
    handle ← lift (created (hsm.create_ecdsa config.key))
    pk ← lift (expected handle.public_key)
    add_account_keys ids keys
        (record { provider = yubihsm; public_key = account_key pk; signer = handle.try_sign })
        config.chain_ids

  unfoldable pub add_consensus : SigningKeyConfig → Exec Registry ErrorKind (Unit {0})
  unfolding created expected
  add_consensus config = do
    handle ← lift (created (hsm.create_ed25519 config.key))
    pk ← lift (expected handle.public_key)
    add_consensus_keys ids keys
        (record { provider = yubihsm; public_key = consensus_key pk; signer = handle.try_sign })
        config.chain_ids

  unfoldable pub add_keys : List SigningKeyConfig → Exec Registry ErrorKind (Unit {0})
  add_keys [] = pure tt
  add_keys (config ∷ configs) = elim config.key_type [
    | account ↦ add_account config >> add_keys configs
    | consensus ↦ add_consensus config >> add_keys configs
  ]

  -- A configuration is the list of its keys.
  unfoldable pub init : List (List SigningKeyConfig) → Exec Registry ErrorKind (Unit {0})
  unfolding add_keys
  init [] = pure tt
  init (config ∷ []) = add_keys config
  init (_ ∷ _ ∷ _) = lift (err config_error)
