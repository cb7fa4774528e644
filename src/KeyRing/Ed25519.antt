-- ===== src/KeyRing/Ed25519.antt =====
-- src/keyring/ed25519.rs: a signer, which stands for a key in memory or in a device.
use tmkms.Prelude.{Option, none, some, Outcome, ok, err}
use tmkms.Tendermint.{Bytes}
use tmkms.Error.{ErrorKind, signing_error}
use tmkms.KeyRing.Keys.{TendermintKey, SigningProvider}

-- `signer` is the trait object's `try_sign`.
pub record Signer : Type 0 where
  pub provider : SigningProvider
  pub public_key : TendermintKey
  pub signer : Bytes → Option Bytes

unfoldable pub sign : Signer → Bytes → Outcome ErrorKind Bytes
sign s msg = elim (s.signer msg) [ none ↦ err signing_error | some sig ↦ ok sig ]
