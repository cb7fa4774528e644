-- ===== src/Providers/Load.antt =====
-- `load_config` of src/keyring.rs, with all back ends built in.
use tmkms.Prelude.{String, Bool, Option, List}
use tmkms.Prelude.Exec.{Exec, ◌>>◌}
use tmkms.Error.{ErrorKind}
use tmkms.Tendermint.{Bytes}
use tmkms.Map.{KeyOrd}
use tmkms.KeyRing.Keys.{TendermintKey}
use tmkms.KeyUtils.{Files}
use tmkms.Chain.Registry.{Registry}
use tmkms.Providers.Softsign
use tmkms.Providers.Yubihsm
use tmkms.Providers.Ledger
use tmkms.Providers.Ledger.Client.{App}
use tmkms.Providers.Fortanix

pub record ProviderConfig : Type 0 where
  pub softsign : List Softsign.SoftsignConfig
  pub yubihsm : List (List Yubihsm.SigningKeyConfig)
  pub ledgertm : List (List String)
  pub fortanixdsm : List Fortanix.FortanixDsmConfig

-- What the back ends call: files and crates, the YubiHSM, the Ledger app with its device, and DSM.
pub record Backends (D : Type 0) (Client : Type 0) : Type 0 where
  pub crypto : Softsign.Crypto
  pub files : Files
  pub hsm : Yubihsm.Hsm
  pub app : App D
  pub connected : Option D
  pub is_ed25519 : Bytes → Bool
  pub dsm : Fortanix.Dsm Client

module _ {D Client : Type 0} (b : Backends D Client) (ids : KeyOrd String)
    (keys : KeyOrd TendermintKey) where
  unfoldable pub load_config : ProviderConfig → Exec Registry ErrorKind (Unit {0})
  load_config config =
      Softsign.init b.crypto b.files ids keys config.softsign
      >> (Yubihsm.init b.hsm ids keys config.yubihsm
          >> (Ledger.init b.app b.is_ed25519 ids keys b.connected config.ledgertm
              >> Fortanix.init b.dsm ids keys config.fortanixdsm))
