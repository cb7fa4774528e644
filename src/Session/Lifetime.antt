-- ===== src/Session/Lifetime.antt =====
-- The life of the program: sessions run at the same time (src/session.rs), and at any moment it may
-- stop and be started again (`load_config` of src/chain.rs), over the state files that it has left.
pub mod Saved
pub mod Safety
use tmkms.Prelude.{ℕ, String, List, [], All, Outcome, ok, err, panic}
use tmkms.Error.{ErrorKind}
use tmkms.Config.Validator.{ValidatorConfig}
use tmkms.Chain.State.{Disk}
use tmkms.Chain.Registry.{Registry}
use tmkms.Chain.Load.{Boot, KmsConfig, load_config}
use tmkms.Chain.Load.Guarded.{IsLocated}
use tmkms.Providers.Load.{Backends}
use tmkms.Session.{Platform, Kms}
use tmkms.Session.Interleave.{System, idle, Step, started}

-- A program that could not load its configuration has ended: it knows no chain.
unfoldable pub loaded : Outcome ErrorKind (Unit {0}) → Registry → Registry
loaded (ok _) registry = registry
loaded (err e) registry = []
loaded (panic p) registry = []

-- A program that was never started, over whatever files there are.
abbrev pub off : (String → Disk) → System
off files = started (record { registry = []; files = files })

module _ (env : Platform) (default_path : String → String) {D Client : Type 0} where
  unfoldable pub load : Backends D Client → KmsConfig → (String → Disk) → Kms
  unfolding loaded
  load b config files =
      let (out, boot) =
        load_config env.io env.tendermint default_path env.ids b env.keys config
          (record { registry = []; files = files }) in
      record { registry = loaded out boot.registry; files = boot.files }

  -- Whatever the sessions were doing, only the files are left of the program before.
  abbrev pub boot_step : Backends D Client → KmsConfig → System → System
  boot_step b config s = record s { kms = load b config s.kms.files; phase = λ _. idle }

module _ (env : Platform) (default_path : String → String) (D Client : Type 0)
    (path_of : String → String) (configs : ℕ → ValidatorConfig) where
  -- The configuration may change from start to start, as long as each chain keeps its own state
  -- file.
  pub data Event (s : System) : System → Type 0 where
    session : {t : System} → Step env configs s t → Event s t
    boot :
        (b : Backends D Client) (config : KmsConfig)
        → All (IsLocated default_path path_of) config.chain
        → Event s (boot_step env default_path b config s)

  pub data Life (s : System) : System → Type 0 where
    born : Life s s
    later : {t u : System} → Life s t → Event t u → Life s u
