-- ===== src/KeyRing/Keys.antt =====
-- The keys of the tendermint crate that src/keyring.rs tells apart, and src/keyring/providers.rs.
use tmkms.Tendermint.{Bytes}

pub data PublicKey : Type 0 where
  ed25519 : Bytes → PublicKey
  secp256k1 : Bytes → PublicKey

pub data TendermintKey : Type 0 where
  account_key : PublicKey → TendermintKey
  consensus_key : PublicKey → TendermintKey

pub data SigningProvider : Type 0 where
  yubihsm ledger_tm soft_sign fortanix_dsm : SigningProvider
