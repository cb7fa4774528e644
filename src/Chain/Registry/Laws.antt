-- ===== src/Chain/Registry/Laws.antt =====
-- What registering a chain does to later lookups (src/chain/registry.rs).
use tmkms.Prelude.{String, ◌≡◌, ◌≢◌, some, arith, is_some, if◌then◌else◌, ok, err}
use tmkms.Error.{config_error}
use tmkms.Map.{KeyOrd, IsKeyOrd}
use tmkms.Map.Laws.{get-put, get-put_self}
use tmkms.KeyRing.{add_ed25519}
use tmkms.KeyRing.Keys.{TendermintKey}
use tmkms.KeyRing.Ed25519
use tmkms.Chain.{Chain}
use tmkms.Chain.Registry.{Registry, get_chain, register_chain, add_consensus_key}

module _ (ids : KeyOrd String) (lawful : IsKeyOrd ids) where
  -- If `==` on chain IDs is equality, registering a chain reports an error exactly if its ID is
  -- registered already, but in both cases the new chain is found under this ID from then on, and
  -- the other chains stay.
  pub register_chain-finds :
      (chain : Chain) (other : String) (r : Registry)
      → other ≢ chain.id
      → ((register_chain ids chain r).0
          ≡ (if is_some (get_chain ids chain.id r) then err config_error else ok tt))
        × (get_chain ids chain.id (register_chain ids chain r).1 ≡ some chain)
        × (get_chain ids other (register_chain ids chain r).1 ≡ get_chain ids other r)
  unfolding register_chain get_chain
  register_chain-finds chain other r differs = ground (
    arith,
    get-put_self ids lawful chain.id chain r,
    get-put ids lawful chain.id other chain r,
    lawful.beq_iff chain.id other,
  )

  -- If `==` on chain IDs is equality, a consensus key that is added to a registered chain changes
  -- the keyring of this chain alone, and neither its state nor its lock.
  add_consensus_key-finds :
      (keys : KeyOrd TendermintKey) (chain_id other : String) (s : Ed25519.Signer) (chain : Chain)
      (r : Registry)
      → get_chain ids chain_id r ≡ some chain
      → other ≢ chain_id
      → ((add_consensus_key ids keys chain_id s r).0 ≡ (add_ed25519 keys s chain.keyring).0)
        × (get_chain ids chain_id (add_consensus_key ids keys chain_id s r).1
            ≡ some (record chain { keyring = (add_ed25519 keys s chain.keyring).1 }))
        × (get_chain ids other (add_consensus_key ids keys chain_id s r).1 ≡ get_chain ids other r)
  unfolding add_consensus_key get_chain
  add_consensus_key-finds keys chain_id other s chain r known differs =
      let new = record chain { keyring = (add_ed25519 keys s chain.keyring).1 } in
      ground (
        arith,
        get-put_self ids lawful chain_id new r,
        get-put ids lawful chain_id other new r,
        lawful.beq_iff chain_id other,
      )
