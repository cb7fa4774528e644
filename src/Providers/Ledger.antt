-- ===== src/Providers/Ledger.antt =====
-- src/keyring/providers/ledgertm.rs and signer.rs: the key of a Ledger device.
pub mod Client
pub mod Chunks
pub mod Protocol
use tmkms.Prelude.{
  ℕ, String, Bool, true, false, Option, none, some, List, [], ◌∷◌, length, Outcome, ok, err, panic,
  crash, map_err, if◌then◌else◌,
}
use tmkms.Prelude.Exec.{Exec, pure, lift, ◌>>=◌, ◌>>◌}
use tmkms.Error.{ErrorKind, config_error, signing_error}
use tmkms.Tendermint.{Bytes}
use tmkms.Map.{KeyOrd}
use tmkms.KeyRing.Keys.{PublicKey, ed25519, TendermintKey, consensus_key, ledger_tm}
use tmkms.KeyRing.Ed25519
use tmkms.Chain.Registry.{Registry}
use tmkms.Providers.{add_consensus_keys}
use tmkms.Providers.Ledger.Client

module _ {D : Type 0} (app : Client.App D) where
  -- `Signer::try_sign`; the lock of the app is not poisoned, since nothing panics while it is held.
  unfoldable pub try_sign : D → Bytes → Option Bytes
  try_sign d msg = elim (Client.sign app msg d).0 [
    | ok sig ↦ some sig
    | err e ↦ none
    | panic p ↦ none
  ]

  -- `PublicKey::from(&provider)`, with two panics: no key from the device, and bytes that are no key.
  unfoldable pub public_key : (Bytes → Bool) → D → Outcome ErrorKind Bytes
  public_key is_key d = elim (Client.public_key app d).0 [
    | ok bytes ↦ if is_key bytes then ok bytes else panic crash
    | err e ↦ panic crash
    | panic p ↦ panic p
  ]

  -- The device is taken to be in the state `d` whenever it is asked for a signature.
  unfoldable pub device_signer : D → Bytes → Ed25519.Signer
  unfolding try_sign
  device_signer d bytes = record {
    provider = ledger_tm;
    public_key = consensus_key (ed25519 bytes);
    signer = try_sign d;
  }

  -- A configuration is the list of its chain IDs. `connected` is the device, if it is found.
  unfoldable pub init :
      (Bytes → Bool)
      → KeyOrd String
      → KeyOrd TendermintKey
      → Option D
      → List (List String)
      → Exec Registry ErrorKind (Unit {0})
  init is_key ids keys connected [] = pure tt
  init is_key ids keys none (chain_ids ∷ []) = lift (err signing_error)
  init is_key ids keys (some d) (chain_ids ∷ []) = do
    bytes ← lift (public_key is_key d)
    add_consensus_keys ids keys (device_signer d bytes) chain_ids
  init is_key ids keys connected (_ ∷ _ ∷ _) = lift (err config_error)
