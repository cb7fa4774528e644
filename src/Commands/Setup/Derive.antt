-- ===== src/Commands/Setup/Derive.antt =====
-- src/commands/yubihsm/setup.rs: the roles and keys that are derived from the mnemonic.
use Prim.Native.Char.{code}
use tmkms.Prelude.{ℕ, String, Option, List, [], ◌∷◌, take}
use Prim.Native.String.{◌++◌ as append}
use tmkms.Tendermint.{Bytes}
use tmkms.Commands.Setup.Paths.{construct_derivation_path, serialize_key_id}

-- `mnemonic::Phrase`
pub record Mnemonic : Type 0 where
  pub phrase : String
  pub entropy : Bytes

-- The crates that the command calls: hkd32, hkdf, bech32, hex, and the key that yubihsm derives from a
-- password.
pub record Crates : Type 0 where
  pub phrase : String → Option Mnemonic
  pub from_entropy : Bytes → Mnemonic
  pub derive_subkey : Bytes → Bytes → Bytes
  pub hkdf_sha512 : Bytes → Bytes
  pub bech32 : String → Bytes → String
  pub hex_encode : Bytes → String
  pub derive_from_password : String → Bytes

-- The capabilities that the program names; `other_capability` stands for all others.
pub data Capability : Type 0 where
  generate_asymmetric_key put_asymmetric_key generate_hmac_key put_hmac_key : Capability
  import_wrapped export_wrapped get_opaque get_option put_option get_log_entries : Capability
  sign_attestation_certificate sign_ecdsa sign_eddsa wrap_data unwrap_data : Capability
  other_capability : Capability

-- A set of capabilities, or of domains
pub data Capabilities : Type 0 where
  all_capabilities : Capabilities
  these : List Capability → Capabilities

pub data Domain : Type 0 where
  all_domains dom1 : Domain

-- `Role`, with the ID and the key of its credentials. The label, a prefix with the time, is left out.
pub record Role : Type 0 where
  pub key_id : ℕ
  pub key : Bytes
  pub capabilities : Capabilities
  pub delegated_capabilities : Capabilities
  pub domains : Domain

pub record WrapKey : Type 0 where
  pub key_id : ℕ
  pub key : Bytes
  pub capabilities : Capabilities
  pub delegated_capabilities : Capabilities
  pub domains : Domain

-- `as_bytes` of the names, which are ASCII
unfoldable pub as_bytes : String → Bytes
as_bytes String.[] = []
as_bytes (String.◌∷◌ c s) = code c ∷ as_bytes s

module _ (c : Crates) (mnemonic : Mnemonic) where
  unfoldable pub derive_secret_from_mnemonic : List Bytes → Bytes
  derive_secret_from_mnemonic path =
      c.derive_subkey mnemonic.entropy (construct_derivation_path path)

  -- The first 16 bytes of the secret are the password.
  unfoldable pub role_password : String → String
  unfolding derive_secret_from_mnemonic as_bytes
  role_password role_name =
      c.bech32 (append "kms-" (append role_name "-password-"))
        (take 16 (derive_secret_from_mnemonic (as_bytes "role" ∷ as_bytes role_name ∷ [])))

  unfoldable pub wrap_secret : ℕ → Bytes
  unfolding derive_secret_from_mnemonic as_bytes
  wrap_secret key_id = derive_secret_from_mnemonic (as_bytes "wrap" ∷ serialize_key_id key_id ∷ [])

  unfoldable pub admin_role : Role
  admin_role = record {
    key_id = 1;
    key = c.derive_from_password mnemonic.phrase;
    capabilities = all_capabilities;
    delegated_capabilities = all_capabilities;
    domains = all_domains;
  }

  abbrev pub operator_capabilities : List Capability
  operator_capabilities =
      generate_asymmetric_key ∷ put_asymmetric_key ∷ generate_hmac_key ∷ put_hmac_key
      ∷ import_wrapped ∷ export_wrapped ∷ get_opaque ∷ get_option ∷ get_log_entries
      ∷ sign_attestation_certificate ∷ []

  abbrev pub auditor_capabilities : List Capability
  auditor_capabilities = get_log_entries ∷ get_option ∷ put_option ∷ get_opaque ∷ []

  abbrev pub validator_capabilities : List Capability
  validator_capabilities =
      sign_ecdsa ∷ sign_eddsa ∷ sign_attestation_certificate ∷ get_log_entries ∷ []

  -- `derive_role_from_mnemonic`, with what is set after it
  derive_role : ℕ → String → List Capability → Capabilities → Domain → Role
  unfolding role_password
  derive_role key_id role_name capabilities delegated domains = record {
    key_id = key_id;
    key = c.derive_from_password (role_password role_name);
    capabilities = these capabilities;
    delegated_capabilities = delegated;
    domains = domains;
  }

  unfoldable pub derive_roles_from_mnemonic : List Role
  unfolding admin_role derive_role
  derive_roles_from_mnemonic =
      admin_role
      ∷ derive_role 2 "operator" operator_capabilities all_capabilities all_domains
      ∷ derive_role 3 "auditor" auditor_capabilities (these []) all_domains
      ∷ derive_role 4 "validator" validator_capabilities (these []) dom1
      ∷ []

  unfoldable pub derive_wrap_key_from_mnemonic : ℕ → WrapKey
  unfolding wrap_secret
  derive_wrap_key_from_mnemonic key_id = record {
    key_id = key_id;
    key = wrap_secret key_id;
    capabilities = these (export_wrapped ∷ import_wrapped ∷ wrap_data ∷ unwrap_data ∷ []);
    delegated_capabilities = all_capabilities;
    domains = all_domains;
  }
