-- ===== src/Providers.antt =====
-- src/config/provider.rs and src/keyring/providers/: the back ends that hold keys, and the signers that
-- they add to the chains.
pub mod Softsign
pub mod Ledger
pub mod Yubihsm
pub mod Fortanix
pub mod Load
pub mod Single
pub mod States
use tmkms.Prelude.{String, List, [], ◌∷◌, Outcome, ok, err, panic}
use tmkms.Prelude.Exec.{Exec, pure, ◌>>=◌, ◌>>◌}
use tmkms.Error.{ErrorKind}
use tmkms.Map.{KeyOrd}
use tmkms.KeyRing.Keys.{TendermintKey}
use tmkms.KeyRing.Ed25519
use tmkms.KeyRing.Ecdsa
use tmkms.Chain.Registry.{Registry, add_account_key, add_consensus_key}

pub data KeyType : Type 0 where
  account consensus : KeyType

-- `for chain_id in chain_ids { add(chain_id)?; }`: the first error ends the loop, and what was added
-- before stays.
unfoldable pub for_chains :
    (String → Exec Registry ErrorKind (Unit {0})) → List String → Exec Registry ErrorKind (Unit {0})
for_chains add [] = pure tt
for_chains add (chain_id ∷ chain_ids) = add chain_id >> for_chains add chain_ids

module _ (ids : KeyOrd String) (keys : KeyOrd TendermintKey) where
  unfoldable pub add_account_keys : Ecdsa.Signer → List String → Exec Registry ErrorKind (Unit {0})
  unfolding for_chains
  add_account_keys signer = for_chains (λ chain_id. add_account_key ids keys chain_id signer)

  unfoldable pub add_consensus_keys :
      Ed25519.Signer → List String → Exec Registry ErrorKind (Unit {0})
  unfolding for_chains
  add_consensus_keys signer = for_chains (λ chain_id. add_consensus_key ids keys chain_id signer)
