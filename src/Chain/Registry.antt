-- ===== src/Chain/Registry.antt =====
-- src/chain/registry.rs and src/chain/guard.rs: the chains that the program knows, by their ID.
pub mod Laws
use tmkms.Prelude.{String, Option, none, some, is_some, if◌then◌else◌, Outcome, ok, err}
use tmkms.Error.{ErrorKind, invalid_key, config_error}
use tmkms.Map.{KeyOrd, Map, get, put, insert}
use tmkms.KeyRing.{add_ecdsa, add_ed25519}
use tmkms.KeyRing.Keys.{TendermintKey}
use tmkms.KeyRing.Ed25519
use tmkms.KeyRing.Ecdsa
use tmkms.Chain.{Chain}

abbrev pub Registry : Type 0
Registry = Map String Chain

module _ (ids : KeyOrd String) where
  unfoldable pub get_chain : String → Registry → Option Chain
  unfolding get
  get_chain chain_id r = get ids chain_id r

  -- The chain is replaced also where an error is returned.
  unfoldable pub register_chain : Chain → Registry → Outcome ErrorKind (Unit {0}) × Registry
  unfolding insert
  register_chain chain r =
      let (r', old) = insert ids chain.id chain r in
      (if is_some old then err config_error else ok tt, r')

  -- `get_mut` gives the chain in its place: what is added to its keyring stays in the registry.
  unfoldable pub add_account_key :
      KeyOrd TendermintKey
      → String
      → Ecdsa.Signer
      → Registry
      → Outcome ErrorKind (Unit {0}) × Registry
  add_account_key keys chain_id signer r = elim (get ids chain_id r) [
    | none ↦ (err invalid_key, r)
    | some chain ↦
        let (out, k) = add_ecdsa keys signer chain.keyring in
        (out, put ids chain_id (record chain { keyring = k }) r)
  ]

  unfoldable pub add_consensus_key :
      KeyOrd TendermintKey
      → String
      → Ed25519.Signer
      → Registry
      → Outcome ErrorKind (Unit {0}) × Registry
  add_consensus_key keys chain_id signer r = elim (get ids chain_id r) [
    | none ↦ (err invalid_key, r)
    | some chain ↦
        let (out, k) = add_ed25519 keys signer chain.keyring in
        (out, put ids chain_id (record chain { keyring = k }) r)
  ]
