-- ===== src/Providers/Fortanix.antt =====
-- src/keyring/providers/fortanixdsm.rs and src/config/provider/fortanixdsm.rs: keys in Fortanix DSM.
pub mod Safe
use tmkms.Prelude.{
  ℕ, String, Bool, true, false, not, ◌||◌, Option, none, some, is_some, List, [], ◌∷◌, str_eq,
  if◌then◌else◌, and_then, Outcome, ok, err, panic, crash,
}
use tmkms.Prelude.Exec.{Exec, pure, lift, ◌>>=◌, ◌>>◌}
use tmkms.Error.{ErrorKind, fortanix_dsm_error}
use tmkms.Tendermint.{Bytes}
use tmkms.Map.{KeyOrd}
use tmkms.KeyRing.Keys.{PublicKey, TendermintKey, account_key, consensus_key, fortanix_dsm}
use tmkms.KeyRing.Ed25519
use tmkms.KeyRing.Ecdsa
use tmkms.Chain.Registry.{Registry}
use tmkms.Providers.{KeyType, account, consensus, add_account_keys, add_consensus_keys}

pub data KeyDescriptor : Type 0 where
  key_id : String → KeyDescriptor
  key_name : String → KeyDescriptor

pub record SigningKeyConfig : Type 0 where
  pub chain_ids : List String
  pub key : KeyDescriptor
  pub key_type : KeyType

pub record FortanixDsmConfig : Type 0 where
  pub api_endpoint : String
  pub api_key : String
  pub signing_keys : List SigningKeyConfig

-- `url::Url`
pub record Url : Type 0 where
  pub scheme : String
  pub path : String
  pub query : Option String
  pub fragment : Option String

-- The kinds and curves of the sdkms crate that the program names; `other` stands for all others.
pub data ObjectType : Type 0 where
  ec other_object : ObjectType

pub data EllipticCurve : Type 0 where
  sec_p256_k1 curve_ed25519 other_curve : EllipticCurve

pub data DigestAlgorithm : Type 0 where
  sha256_digest sha512_digest : DigestAlgorithm

-- `sdkms::api_model::Sobject`, as far as it is read
pub record Sobject : Type 0 where
  pub obj_type : ObjectType
  pub elliptic_curve : Option EllipticCurve
  pub pub_key : Option Bytes

-- An SPKI structure: its object identifier, whether the algorithm has parameters, and the key.
pub record Spki : Type 0 where
  pub oid_is_ed25519 : Bool
  pub has_parameters : Bool
  pub subject_public_key : Bytes

-- What the program calls: the url, sdkms, elliptic-curve and tendermint crates. A client is what its
-- endpoint and its API key make of it.
pub record Dsm (Client : Type 0) : Type 0 where
  pub parse_url : String → Option Url
  pub build : String → String → Option Client
  pub get_sobject : Client → KeyDescriptor → Option Sobject
  pub sign : Client → KeyDescriptor → Bytes → DigestAlgorithm → Option Bytes
  pub secp256k1_from_der : Bytes → Option PublicKey
  pub spki_from_der : Bytes → Option Spki
  pub ed25519_from_bytes : Bytes → Option PublicKey
  pub ecdsa_from_der : Bytes → Option Bytes
  pub signature_from_bytes : Bytes → Option Bytes

unfoldable pub required_curve : KeyType → EllipticCurve
required_curve account = sec_p256_k1
required_curve consensus = curve_ed25519

is_ec : ObjectType → Bool
is_ec ec = true
is_ec other_object = false

has_curve : EllipticCurve → Option EllipticCurve → Bool
has_curve sec_p256_k1 (some sec_p256_k1) = true
has_curve curve_ed25519 (some curve_ed25519) = true
has_curve other_curve (some other_curve) = true
has_curve _ _ = false

or_dsm_error {ℓ} : {A : Type ℓ} → Option A → Outcome ErrorKind A
or_dsm_error none = err fortanix_dsm_error
or_dsm_error (some a) = ok a

unfoldable pub endpoint_ok : Url → Bool
endpoint_ok url =
    if not (str_eq url.scheme "https")
    then false
    else if not (str_eq url.path "/")
    then false
    else not (is_some url.query || is_some url.fragment)

module _ {Client : Type 0} (dsm : Dsm Client) where
  unfoldable pub make_sdkms_client : FortanixDsmConfig → Outcome ErrorKind Client
  unfolding endpoint_ok or_dsm_error
  make_sdkms_client config = elim (dsm.parse_url config.api_endpoint) [
    | none ↦ err fortanix_dsm_error
    | some url ↦
        if endpoint_ok url
        then or_dsm_error (dsm.build config.api_endpoint config.api_key)
        else err fortanix_dsm_error
  ]

  -- `Ed25519PublicKey::from_public_key_der`
  unfoldable pub ed25519_from_der : Bytes → Option PublicKey
  ed25519_from_der der = and_then (dsm.spki_from_der der) (λ spki.
      if not spki.oid_is_ed25519
      then none
      else if spki.has_parameters
      then none
      else dsm.ed25519_from_bytes spki.subject_public_key)

  tendermint_key : KeyType → Bytes → Option TendermintKey
  unfolding ed25519_from_der
  tendermint_key account der = and_then (dsm.secp256k1_from_der der) (λ pk. some (account_key pk))
  tendermint_key consensus der = and_then (ed25519_from_der der) (λ pk. some (consensus_key pk))

  checked_key : KeyType → Sobject → Outcome ErrorKind TendermintKey
  unfolding tendermint_key is_ec has_curve required_curve or_dsm_error
  checked_key key_type key =
      if not (is_ec key.obj_type)
      then err fortanix_dsm_error
      else if not (has_curve (required_curve key_type) key.elliptic_curve)
      then err fortanix_dsm_error
      else or_dsm_error (and_then key.pub_key (tendermint_key key_type))

  -- `SigningKey::new`: the key is looked up, and its kind, its curve and its public key are checked.
  unfoldable pub new_signing_key :
      Client → KeyDescriptor → KeyType → Outcome ErrorKind TendermintKey
  unfolding checked_key
  new_signing_key client descriptor key_type = elim (dsm.get_sobject client descriptor) [
    | none ↦ err fortanix_dsm_error
    | some key ↦ checked_key key_type key
  ]

  unfoldable pub try_sign_ecdsa : Client → KeyDescriptor → Bytes → Option Bytes
  try_sign_ecdsa client descriptor msg =
      and_then (dsm.sign client descriptor msg sha256_digest) dsm.ecdsa_from_der

  unfoldable pub try_sign_ed25519 : Client → KeyDescriptor → Bytes → Option Bytes
  try_sign_ed25519 client descriptor msg =
      and_then (dsm.sign client descriptor msg sha512_digest) dsm.signature_from_bytes

  module _ (ids : KeyOrd String) (keys : KeyOrd TendermintKey) where
    unfoldable pub signer_for :
        Client → SigningKeyConfig → TendermintKey → KeyType → Exec Registry ErrorKind (Unit {0})
    unfolding try_sign_ecdsa try_sign_ed25519
    signer_for client config pk account =
        add_account_keys ids keys
          (record {
            provider = fortanix_dsm;
            public_key = pk;
            signer = try_sign_ecdsa client config.key;
          })
          config.chain_ids
    signer_for client config pk consensus =
        add_consensus_keys ids keys
          (record {
            provider = fortanix_dsm;
            public_key = pk;
            signer = try_sign_ed25519 client config.key;
          })
          config.chain_ids

    unfoldable pub add_key : Client → SigningKeyConfig → Exec Registry ErrorKind (Unit {0})
    unfolding signer_for
    add_key client config = do
      pk ← lift (new_signing_key client config.key config.key_type)
      signer_for client config pk config.key_type

    unfoldable pub add_keys : Client → List SigningKeyConfig → Exec Registry ErrorKind (Unit {0})
    add_keys client [] = pure tt
    add_keys client (config ∷ configs) = add_key client config >> add_keys client configs

    unfoldable pub init : List FortanixDsmConfig → Exec Registry ErrorKind (Unit {0})
    unfolding add_keys
    init [] = pure tt
    init (config ∷ configs) = do
      client ← lift (make_sdkms_client config)
      add_keys client config.signing_keys
      init configs
