-- ===== src/Chain/Load.antt =====
-- `load_config` of src/chain.rs: all chains of the configuration are registered, and then the keys of
-- the providers are added to them.
pub mod Keys
pub mod Guarded
use tmkms.Prelude.{
  String, Option, none, some, List, [], ◌∷◌, str_eq, if◌then◌else◌, Outcome, ok, err, panic,
}
use tmkms.Prelude.Exec.{Exec, pure, ◌>>=◌, ◌>>◌}
use tmkms.Error.{ErrorKind}
use tmkms.Tendermint.{Tendermint}
use tmkms.Map.{KeyOrd}
use tmkms.KeyRing.Keys.{TendermintKey}
use tmkms.Chain.{Chain}
use tmkms.Chain.State.{Weather, Disk, Serde}
use tmkms.Chain.Hook.{Child}
use tmkms.Chain.Startup.{ChainConfig, state_path, from_config}
use tmkms.Chain.Registry.{Registry, register_chain}
use tmkms.Providers.Load
use tmkms.Providers.Load.{Backends, ProviderConfig}

-- The registry and the state files, while the program starts.
pub record Boot : Type 0 where
  pub registry : Registry
  pub files : String → Disk

-- A configured chain, with how the disk and its hook behave.
pub record Planned : Type 0 where
  pub config : ChainConfig
  pub weather : Weather
  pub child : Child

-- `KmsConfig`, as far as it is read here
pub record KmsConfig : Type 0 where
  pub chain : List Planned
  pub providers : ProviderConfig

module _ (io : Serde) (t : Tendermint) (default_path : String → String) (ids : KeyOrd String) where
  unfoldable pub build : Planned → Exec Boot ErrorKind Chain
  build p boot =
      let path = state_path default_path p.config in
      let (out, disk) =
        from_config io p.weather t p.child default_path p.config (boot.files path) in
      (out, record boot { files = λ q. if str_eq q path then disk else boot.files q })

  unfoldable pub register : Chain → Exec Boot ErrorKind (Unit {0})
  register chain boot =
      let (out, r) = register_chain ids chain boot.registry in (out, record boot { registry = r })

  unfoldable pub register_chains : List Planned → Exec Boot ErrorKind (Unit {0})
  unfolding build register
  register_chains [] = pure tt
  register_chains (p ∷ ps) = do chain ← build p; register chain; register_chains ps

  module _ {D Client : Type 0} (b : Backends D Client) (keys : KeyOrd TendermintKey) where
    load_keys : ProviderConfig → Exec Boot ErrorKind (Unit {0})
    load_keys config boot =
        let (out, r) = Load.load_config b ids keys config boot.registry in
        (out, record boot { registry = r })

    unfoldable pub load_config : KmsConfig → Exec Boot ErrorKind (Unit {0})
    unfolding register_chains load_keys
    load_config config = register_chains config.chain >> load_keys config.providers
