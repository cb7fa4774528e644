-- ===== src/Chain/Load/Keys.antt =====
-- `load_config` of src/chain.rs with src/keyring/providers/softsign.rs: the key that a chain signs with
-- after the program has started.
use tmkms.Prelude.{
  ◌≡◌, refl, ap, ◌∙◌, inl, String, none, some, List, [], ◌∷◌, Memᴰ, at-All, arith, if◌then◌else◌,
  Outcome, ok,
}
use tmkms.Prelude.Exec.{◌>>◌, >>=-ok}
use tmkms.Prelude.Exec.Keeps.{Keeps-step}
use tmkms.Error.{ErrorKind}
use tmkms.Tendermint.{Tendermint, Bytes}
use tmkms.Map.{KeyOrd, IsKeyOrd}
use tmkms.Map.Laws.{get-put}
use tmkms.KeyRing
use tmkms.KeyRing.{KeyRing, sign_ed25519}
use tmkms.KeyRing.Keys.{ed25519, TendermintKey}
use tmkms.KeyRing.Ed25519
use tmkms.Chain.{Chain}
use tmkms.Chain.State.{Serde}
use tmkms.Chain.Startup.{state_path, from_config_empty}
use tmkms.Chain.Registry.{Registry, get_chain, register_chain}
use tmkms.Chain.Load.{Boot, Planned, build, register, register_chains, load_keys, load_config}
use tmkms.Providers.Load
use tmkms.Providers.Load.{Backends, ProviderConfig}
use tmkms.Providers.{consensus}
use tmkms.Providers.Softsign
use tmkms.Providers.Yubihsm
use tmkms.Providers.Ledger
use tmkms.Providers.Fortanix
use tmkms.KeyUtils.{Keypair}
use tmkms.Providers.Softsign.{SoftsignConfig}
use tmkms.Providers.Softsign.Signs.{init-Loaded, sole-signs}
use tmkms.Providers.Single.{ring, IsSole, AllNew}

-- Keys in files only
abbrev pub software_only : List SoftsignConfig → ProviderConfig
software_only configs = record { softsign = configs; yubihsm = []; ledgertm = []; fortanixdsm = [] }

module _ (ids : KeyOrd String) (lawful : IsKeyOrd ids) where
  ring-register_chain :
      (chain : Chain) (r : Registry) (id : String)
      → ring ids id (register_chain ids chain r).1
        ≡ (if ids.beq chain.id id then some chain.keyring.ed25519_keys else ring ids id r)
  unfolding register_chain get_chain
  ring-register_chain chain r id = ground (arith, get-put ids lawful chain.id id chain r)

  register_chain-AllNew :
      (chain : Chain) (r : Registry)
      → chain.keyring ≡ KeyRing.new
      → AllNew ids r
      → AllNew ids (register_chain ids chain r).1
  unfolding KeyRing.new
  register_chain-AllNew chain r empty h id = ground (arith, h id, ring-register_chain chain r id)

  module _ (io : Serde) (t : Tendermint) (default_path : String → String) where
    register_chains-AllNew :
        (ps : List Planned) (boot : Boot)
        → AllNew ids boot.registry
        → AllNew ids (register_chains io t default_path ids ps boot).1.registry
    unfolding register_chains build register
    register_chains-AllNew [] boot new = new
    register_chains-AllNew (p ∷ ps) boot new =
        Keeps-step (λ (b : Boot). AllNew ids b.registry) (build io t default_path ids p)
          (λ chain.
            register io t default_path ids chain >> register_chains io t default_path ids ps)
          boot new
          (λ chain built.
            let boot₁ = (build io t default_path ids p boot).1 in
            let new₁ =
              register_chain-AllNew chain boot.registry
                (from_config_empty io p.weather t p.child default_path p.config
                  (boot.files (state_path default_path p.config)) chain built)
                new in
            Keeps-step (λ (b : Boot). AllNew ids b.registry) (register io t default_path ids chain)
              (λ _. register_chains io t default_path ids ps) boot₁ new₁
              (λ _ _.
                register_chains-AllNew ps (register io t default_path ids chain boot₁).1 new₁))

    module _ {D Client : Type 0} (b : Backends D Client) (keys : KeyOrd TendermintKey)
        (keyed : IsKeyOrd keys) where
      software-ok :
          (configs : List SoftsignConfig) (boot : Boot)
          → (load_keys io t default_path ids b keys (software_only configs) boot).0 ≡ ok tt
          → ((Softsign.init b.crypto b.files ids keys configs boot.registry).0 ≡ ok tt)
            × ((load_keys io t default_path ids b keys (software_only configs) boot).1.registry
                ≡ (Softsign.init b.crypto b.files ids keys configs boot.registry).1)
      unfolding load_keys Load.load_config Yubihsm.init Ledger.init Fortanix.init
      software-ok configs boot h =
          let set_up = Softsign.init b.crypto b.files ids keys configs in
          let (_, done, same) =
            >>=-ok set_up
              (λ _.
                Yubihsm.init b.hsm ids keys []
                >> (Ledger.init b.app b.is_ed25519 ids keys b.connected []
                    >> Fortanix.init b.dsm ids keys []))
              boot.registry (Load.load_config b ids keys (software_only configs) boot.registry) refl
              h in
          (done, ap (λ (p : Outcome ErrorKind (Unit {0}) × Registry). p.1) same)

      -- When the program has started from the software provider alone: every chain that the configuration gives
      -- a consensus key to exists and signs with that key, as it was read from its file.
      pub load_config-signs :
          (chains : List Planned) (configs : List SoftsignConfig) (config : SoftsignConfig)
          (id : String) (boot : Boot)
          → boot.registry ≡ []
          → let result =
              load_config io t default_path ids b keys
                (record { chain = chains; providers = software_only configs })
                boot in
            result.0 ≡ ok tt
            → Memᴰ config configs
            → config.key_type ≡ consensus
            → Memᴰ id config.chain_ids
            → (pair : Keypair) × (chain : Chain) × (Softsign.load_ed25519_key b.crypto b.files
                  config
                ≡ ok pair)
              × (get_chain ids id result.1.registry ≡ some chain)
              × ((msg : Bytes)
                  → sign_ed25519 keys none msg chain.keyring
                    ≡ Ed25519.sign (Softsign.consensus_signer b.crypto b.files pair) msg)
      unfolding load_config Softsign.init get_chain
      load_config-signs chains configs config id boot none_yet h m is_consensus here =
          let (_, _, same) =
            >>=-ok (register_chains io t default_path ids chains)
              (λ _. load_keys io t default_path ids b keys (software_only configs)) boot
              (load_config io t default_path ids b keys
                (record { chain = chains; providers = software_only configs }) boot)
              refl h in
          let registered = (register_chains io t default_path ids chains boot).1 in
          let (done, left) = software-ok configs registered (cc (same, h)) in
          let new =
            register_chains-AllNew chains boot (λ other. inl (ap (ring ids other) none_yet)) in
          let (pair, loaded, sole) =
            init-Loaded b.crypto b.files ids keys lawful keyed configs config registered.registry
              new done m is_consensus in
          let after = (Softsign.init b.crypto b.files ids keys configs registered.registry).1 in
          let (chain, known, signs) =
            sole-signs b.crypto b.files ids keys lawful keyed id after (ed25519 pair.public)
              (Softsign.consensus_signer b.crypto b.files pair)
              (at-All
                (λ (i : String).
                  IsSole (ed25519 pair.public) (Softsign.consensus_signer b.crypto b.files pair)
                    (ring ids i after))
                id config.chain_ids sole here) in
          let e = ap (λ (p : Outcome ErrorKind (Unit {0}) × Boot). p.1.registry) same ∙ left in
          (pair, chain, loaded, ap (get_chain ids id) e ∙ known, signs)
