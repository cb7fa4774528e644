-- ===== src/Chain/Startup.antt =====
-- src/chain.rs: a chain is built from its configuration.
use tmkms.Prelude.{
  String, ◌≡◌, ◌≢◌, refl, arith, true, false, Option, none, some, [], if◌then◌else◌, Outcome, ok,
  err, panic, crash,
}
use tmkms.Error.{ErrorKind}
use tmkms.Tendermint.{Tendermint}
use tmkms.KeyRing
use tmkms.Chain.{Chain}
use tmkms.Chain.State.{State, Weather, Disk, Serde, load_state, update_from_hook_output}
use tmkms.Chain.Hook
use tmkms.Chain.Hook.{Child, HookConfig}

pub record ChainConfig : Type 0 where
  pub id : String
  pub state_file : Option String
  pub state_hook : Option HookConfig

-- A hook that fails stops the start only if it is configured to fail closed. `update_from_hook_output`
-- never fails.
unfoldable pub apply_hook : Tendermint → Child → Option HookConfig → State → Outcome ErrorKind State
unfolding Hook.run update_from_hook_output
apply_hook t child none state = ok state
apply_hook t child (some hook) state = elim (Hook.run hook child) [
  | ok height ↦ ok (update_from_hook_output t height state).1
  | err e ↦ if hook.fail_closed then err e else ok state
  | panic p ↦ panic p
]

-- the default path, `{id}_priv_validator_state.json`, is given by `default_path`
unfoldable pub state_path : (String → String) → ChainConfig → String
state_path default_path config = elim config.state_file [
  | some path ↦ path
  | none ↦ default_path config.id
]

built : ChainConfig → Outcome ErrorKind State → Outcome ErrorKind Chain
built config (ok state) =
    ok (record { id = config.id; keyring = KeyRing.new; state = state; poisoned = false })
built config (err e) = err e
built config (panic p) = panic p

hooked : Tendermint → Child → ChainConfig → Outcome ErrorKind State → Outcome ErrorKind Chain
unfolding built apply_hook
hooked t child config (ok state) = built config (apply_hook t child config.state_hook state)
hooked t child config (err e) = err e
hooked t child config (panic p) = panic p

unfoldable pub from_config :
    Serde
    → Weather
    → Tendermint
    → Child
    → (String → String)
    → ChainConfig
    → Disk
    → Outcome ErrorKind Chain × Disk
unfolding state_path hooked
from_config io w t child default_path config disk =
    let (out, disk') = load_state io w t (state_path default_path config) disk in
    (hooked t child config out, disk')

-- What the configuration would be without its hook.
abbrev pub without_hook : ChainConfig → ChainConfig
without_hook config = record config { state_hook = none }

module _ (io : Serde) (w : Weather) (t : Tendermint) (child : Child)
    (default_path : String → String) where
  -- A hook with a command that may fail open changes nothing: whatever its command does and prints, the
  -- chain is built, or not built, as if no hook were configured.
  pub from_config_open :
      (config : ChainConfig) (hook : HookConfig) (disk : Disk)
      → config.state_hook ≡ some hook
      → hook.cmd ≢ []
      → hook.fail_closed ≡ false
      → from_config io w t child default_path config disk
        ≡ from_config io w t child default_path (without_hook config) disk
  unfolding from_config
  from_config_open config hook disk h named open_fails = ground (arith, named)

  -- A hook with an empty command panics, whether it may fail open or not, wherever the chain would be
  -- built without the hook.
  pub from_config_nameless :
      (config : ChainConfig) (hook : HookConfig) (disk : Disk) (chain : Chain)
      → config.state_hook ≡ some hook
      → hook.cmd ≡ []
      → (from_config io w t child default_path (without_hook config) disk).0 ≡ ok chain
      → (from_config io w t child default_path config disk).0 ≡ panic crash
  unfolding from_config
  from_config_nameless config hook disk chain h nameless built_ok = ground arith

  -- A hook that fails closed keeps the chain from being built, whatever its command does and prints.
  pub from_config_closed :
      (config : ChainConfig) (hook : HookConfig) (disk : Disk) (chain : Chain)
      → config.state_hook ≡ some hook
      → hook.fail_closed ≡ true
      → (from_config io w t child default_path config disk).0 ≢ ok chain
  unfolding from_config
  from_config_closed config hook disk chain h closed built_ok = ground arith

  -- A chain starts without keys.
  pub from_config_empty :
      (config : ChainConfig) (disk : Disk) (chain : Chain)
      → (from_config io w t child default_path config disk).0 ≡ ok chain
      → chain.keyring ≡ KeyRing.new
  unfolding from_config
  from_config_empty config disk chain h = ground arith

  -- A chain that is built holds the state that was loaded, after its hook.
  pub from_config_built :
      (config : ChainConfig) (disk : Disk) (chain : Chain)
      → (from_config io w t child default_path config disk).0 ≡ ok chain
      → (s : State) × ((load_state io w t (state_path default_path config) disk).0 ≡ ok s)
        × (apply_hook t child config.state_hook s ≡ ok chain.state)
        × (chain.id ≡ config.id)
  unfolding from_config hooked
  from_config_built config disk chain h =
      built_from (load_state io w t (state_path default_path config) disk).0 h
    where
      built_parts :
          (out : Outcome ErrorKind State)
          → built config out ≡ ok chain
          → (out ≡ ok chain.state) × (chain.id ≡ config.id)
      built_parts (ok s) e = (cc e, cc e)
      built_parts (err e') e = cc e
      built_parts (panic p) e = cc e

      built_from :
          (out : Outcome ErrorKind State)
          → hooked t child config out ≡ ok chain
          → (s : State) × (out ≡ ok s)
            × (apply_hook t child config.state_hook s ≡ ok chain.state)
            × (chain.id ≡ config.id)
      built_from (ok s) e =
          let (hooked_ok, same) = built_parts (apply_hook t child config.state_hook s) e in
          (s, refl, hooked_ok, same)
      built_from (err e') e = cc e
      built_from (panic p) e = cc e
