-- ===== src/Providers/Softsign.antt =====
-- src/keyring/providers/softsign.rs and src/config/provider/softsign.rs: keys in files.
pub mod Signs
use tmkms.Prelude.{
  String, Bool, true, false, Option, none, some, List, [], ◌∷◌, if◌then◌else◌, str_eq, Outcome, ok,
  err, panic, crash,
}
use tmkms.Prelude.Exec.{Exec, pure, lift, ◌>>=◌, ◌>>◌}
use tmkms.Error.{ErrorKind, config_error}
use tmkms.Tendermint.{Bytes}
use tmkms.Map.{KeyOrd}
use tmkms.KeyUtils.{Files, Base64, Dalek, Keypair, load_base64_secret, load_base64_ed25519_key}
use tmkms.KeyRing.Keys.{PublicKey, ed25519, TendermintKey, account_key, consensus_key, soft_sign}
use tmkms.KeyRing.Ed25519
use tmkms.KeyRing.Ecdsa
use tmkms.Chain.Registry.{Registry}
use tmkms.Providers.{KeyType, account, consensus, add_account_keys, add_consensus_keys}

pub data KeyFormat : Type 0 where
  base64_format json_format : KeyFormat

-- `KeyFormat::from_str`
unfoldable pub parse_format : String → Outcome ErrorKind KeyFormat
parse_format s =
    if str_eq s "base64"
    then ok base64_format
    else if str_eq s "json"
    then ok json_format
    else err config_error

pub record SoftsignConfig : Type 0 where
  pub chain_ids : List String
  pub key_type : KeyType
  pub key_format : Option KeyFormat
  pub path : String

-- `tendermint::PrivateKey`
pub data PrivateKey : Type 0 where
  ed25519_key : Keypair → PrivateKey
  other_key : PrivateKey

-- The crates that the provider calls: `PrivValidatorKey::load_json_file`, signing with ed25519-dalek, and
-- for accounts k256: `SigningKey::from_bytes`, the public key that tendermint makes of the verifying key,
-- and signing.
pub record Crypto : Type 0 where
  pub base64 : Base64
  pub dalek : Dalek
  pub load_json_file : String → Files → Option PrivateKey
  pub sign_ed25519 : Keypair → Bytes → Option Bytes
  pub is_signing_key : Bytes → Bool
  pub account_public : Bytes → Option PublicKey
  pub sign_ecdsa : Bytes → Bytes → Option Bytes

-- `Option<KeyFormat>::unwrap_or_default`
format_of : Option KeyFormat → KeyFormat
format_of none = base64_format
format_of (some format) = format

is_base64 : KeyFormat → Bool
is_base64 base64_format = true
is_base64 json_format = false

module _ (crypto : Crypto) (files : Files) where
  json_key : Option PrivateKey → Outcome ErrorKind Keypair
  json_key none = err config_error
  json_key (some (ed25519_key pk)) = ok pk
  json_key (some other_key) = panic crash

  load_by : KeyFormat → String → Outcome ErrorKind Keypair
  unfolding json_key
  load_by base64_format path = load_base64_ed25519_key crypto.base64 crypto.dalek path files
  load_by json_format path = json_key (crypto.load_json_file path files)

  unfoldable pub load_ed25519_key : SoftsignConfig → Outcome ErrorKind Keypair
  unfolding load_by format_of
  load_ed25519_key config = load_by (format_of config.key_format) config.path

  signing_key : Outcome ErrorKind Bytes → Outcome ErrorKind Bytes
  signing_key (ok bytes) = if crypto.is_signing_key bytes then ok bytes else err config_error
  signing_key (err e) = err e
  signing_key (panic p) = panic p

  unfoldable pub load_secp256k1_key : SoftsignConfig → Outcome ErrorKind Bytes
  unfolding signing_key format_of is_base64
  load_secp256k1_key config =
      if is_base64 (format_of config.key_format)
      then signing_key (load_base64_secret crypto.base64 config.path files)
      else err config_error

  unfoldable pub consensus_signer : Keypair → Ed25519.Signer
  consensus_signer pair = record {
    provider = soft_sign;
    public_key = consensus_key (ed25519 pair.public);
    signer = crypto.sign_ed25519 pair;
  }

  pub account_signer : Bytes → Outcome ErrorKind Ecdsa.Signer
  account_signer key = elim (crypto.account_public key) [
    | none ↦ panic crash
    | some pk ↦ ok (record {
      provider = soft_sign;
      public_key = account_key pk;
      signer = crypto.sign_ecdsa key;
    })
  ]

  module _ (ids : KeyOrd String) (keys : KeyOrd TendermintKey) where
    unfoldable pub init_account : SoftsignConfig → Exec Registry ErrorKind (Unit {0})
    unfolding account_signer
    init_account config = do
      key ← lift (load_secp256k1_key config)
      signer ← lift (account_signer key)
      add_account_keys ids keys signer config.chain_ids

    unfoldable pub init_consensus : SoftsignConfig → Exec Registry ErrorKind (Unit {0})
    init_consensus config = do
      pair ← lift (load_ed25519_key config)
      add_consensus_keys ids keys (consensus_signer pair) config.chain_ids

    -- `loaded` is `loaded_consensus_key`.
    unfoldable pub init_from : Bool → List SoftsignConfig → Exec Registry ErrorKind (Unit {0})
    init_from loaded [] = pure tt
    init_from loaded (config ∷ configs) = elim config.key_type [
      | account ↦ init_account config >> init_from loaded configs
      | consensus ↦ elim loaded [
        | true ↦ lift (err config_error)
        | false ↦ init_consensus config >> init_from true configs
      ]
    ]

    unfoldable pub init : List SoftsignConfig → Exec Registry ErrorKind (Unit {0})
    unfolding init_from
    init configs = init_from false configs
