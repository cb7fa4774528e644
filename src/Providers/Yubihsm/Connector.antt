-- ===== src/Providers/Yubihsm/Connector.antt =====
-- src/yubihsm.rs and src/config/provider/yubihsm.rs: how the program connects to a YubiHSM. An exit is
-- an error with its code.
use tmkms.Prelude.{
  ℕ, String, ◌≡◌, refl, Bool, true, false, Option, none, some, and_then, is_some, ◌&&◌, List, [],
  ◌∷◌, if◌then◌else◌, arith, Outcome, ok, err, panic, crash,
}
use tmkms.KeyUtils.{File, Files, trim_end}
use tmkms.Config.Validator.{Address, tcp, unix}

pub data AdapterConfig : Type 0 where
  usb_adapter : ℕ → AdapterConfig
  http_adapter : Address → AdapterConfig

pub data AuthConfig : Type 0 where
  password_in_file : ℕ → String → AuthConfig
  password_in_config : ℕ → String → AuthConfig

pub record CliConfig : Type 0 where
  pub auth_key : Option ℕ

pub record ConnectorServerConfig : Type 0 where
  pub laddr : Address
  pub cli : Option CliConfig

pub record YubihsmConfig : Type 0 where
  pub adapter : AdapterConfig
  pub auth : AuthConfig
  pub serial_number : Option String
  pub connector_server : Option ConnectorServerConfig

-- `Credentials::from_password`, by the ID of the key and the password
pub record Credentials : Type 0 where
  pub key : ℕ
  pub password : String

-- `Connector::usb` and `Connector::http`
pub data Connector : Type 0 where
  usb : Option String → ℕ → Connector
  http : String → ℕ → Connector

-- A connector, and the address at which a server for it runs
pub record Connected : Type 0 where
  pub connector : Connector
  pub server : Option (String × ℕ)

module _ (files : Files) where
  file_password : ℕ → Option File → Outcome ℕ Credentials
  file_password key none = err 1
  file_password key (some file) = ok (record { key = key; password = trim_end file.text })

  unfoldable pub credentials : AuthConfig → Outcome ℕ Credentials
  unfolding file_password
  credentials (password_in_file key path) = file_password key (files path)
  credentials (password_in_config key password) = ok (record { key = key; password = password })

-- `config`: one section is expected.
unfoldable pub config : List YubihsmConfig → Outcome ℕ YubihsmConfig
config (cfg ∷ []) = ok cfg
config _ = err 1

unfoldable pub http_config_for_address : Address → Outcome ℕ (String × ℕ)
http_config_for_address (tcp peer_id host port) = ok (host, port)
http_config_for_address (unix path) = panic crash

connect_http : Outcome ℕ (String × ℕ) → Outcome ℕ Connector
connect_http (ok (host, port)) = ok (http host port)
connect_http (err e) = err e
connect_http (panic p) = panic p

unfoldable pub init_connector_adapter : AdapterConfig → Option String → Outcome ℕ Connector
unfolding connect_http http_config_for_address
init_connector_adapter (http_adapter addr) serial = connect_http (http_config_for_address addr)
init_connector_adapter (usb_adapter timeout_ms) serial = ok (usb serial timeout_ms)

-- `parse::<SerialNumber>().unwrap()`
parse_serial : (String → Bool) → Option String → Outcome ℕ (Option String)
parse_serial is_serial none = ok none
parse_serial is_serial (some serial) = if is_serial serial then ok (some serial) else panic crash

-- the server is started next to the connector
serve_at : Outcome ℕ (String × ℕ) → Connector → Outcome ℕ Connected
serve_at (ok at) connector = ok (record { connector = connector; server = some at })
serve_at (err e) connector = err e
serve_at (panic p) connector = panic p

with_server : Option ConnectorServerConfig → Outcome ℕ Connector → Outcome ℕ Connected
unfolding serve_at http_config_for_address
with_server server (err e) = err e
with_server server (panic p) = panic p
with_server none (ok connector) = ok (record { connector = connector; server = none })
with_server (some server) (ok connector) = serve_at (http_config_for_address server.laddr) connector

alone : Outcome ℕ Connector → Outcome ℕ Connected
unfolding with_server
alone connector = with_server none connector

-- The address of the server, where a command overrides the adapter by it
override : Bool → Option ConnectorServerConfig → Option Address
override cli_command none = none
override cli_command (some server) =
    if is_some server.cli && cli_command then some server.laddr else none

after_serial : Bool → YubihsmConfig → Outcome ℕ (Option String) → Outcome ℕ Connected
unfolding alone with_server override init_connector_adapter
after_serial cli_command cfg (err e) = err e
after_serial cli_command cfg (panic p) = panic p
after_serial cli_command cfg (ok serial) = elim (override cli_command cfg.connector_server) [
  | some laddr ↦ alone (init_connector_adapter (http_adapter laddr) serial)
  | none ↦ with_server cfg.connector_server (init_connector_adapter cfg.adapter serial)
]

-- `init_connector`, where `cli_command` says whether a subcommand of `yubihsm` is running.
unfoldable pub init_connector : (String → Bool) → Bool → YubihsmConfig → Outcome ℕ Connected
unfolding parse_serial after_serial
init_connector is_serial cli_command cfg =
    after_serial cli_command cfg (parse_serial is_serial cfg.serial_number)

-- The key that a command authenticates with, if it is overridden
override_key : Option ConnectorServerConfig → Option ℕ
override_key server = and_then server (λ s. and_then s.cli (λ c. c.auth_key))

with_reconnect : Outcome ℕ Credentials → Bool → Outcome ℕ (Credentials × Bool)
with_reconnect (ok c) reconnect = ok (c, reconnect)
with_reconnect (err e) reconnect = err e
with_reconnect (panic p) reconnect = panic p

-- `typed` is the password that is typed, if it can be read.
prompt_for_auth_key_password : Option String → ℕ → Outcome ℕ Credentials
prompt_for_auth_key_password none auth_key_id = panic crash
prompt_for_auth_key_password (some typed) auth_key_id =
    ok (record { key = auth_key_id; password = typed })

-- `client_config`: the credentials, and whether the client reconnects.
unfoldable pub client_config :
    Files → Option String → Bool → YubihsmConfig → Outcome ℕ (Credentials × Bool)
unfolding override_key with_reconnect prompt_for_auth_key_password credentials
client_config files typed cli_command cfg = elim (override_key cfg.connector_server) [
  | none ↦ with_reconnect (credentials files cfg.auth) true
  | some auth_key_id ↦
      if cli_command
      then with_reconnect (prompt_for_auth_key_password typed auth_key_id) false
      else with_reconnect (credentials files cfg.auth) true
]

command-finds_at :
    (laddr : Address) (is_serial : String → Bool) (cfg : YubihsmConfig)
    (server : ConnectorServerConfig) (cli : CliConfig) (service : Connected)
    → server.laddr ≡ laddr
    → cfg.connector_server ≡ some server
    → server.cli ≡ some cli
    → init_connector is_serial false cfg ≡ ok service
    → (host : String) × (port : ℕ) × (service.server ≡ some (host, port))
      × (init_connector is_serial true cfg
          ≡ ok (record { connector = http host port; server = none }))
unfolding init_connector
command-finds_at (tcp peer_id host port) is_serial cfg server cli service listens configured
      for_commands started =
    (host, port, ground arith, ground arith)
command-finds_at (unix path) is_serial cfg server cli service listens configured for_commands
      started =
    absurd (ground arith)

-- Where the service has started a server for commands, a command connects to the address at which the
-- server runs, and starts none of its own.
command-finds_server :
    (is_serial : String → Bool) (cfg : YubihsmConfig) (server : ConnectorServerConfig)
    (cli : CliConfig) (service : Connected)
    → cfg.connector_server ≡ some server
    → server.cli ≡ some cli
    → init_connector is_serial false cfg ≡ ok service
    → (host : String) × (port : ℕ) × (service.server ≡ some (host, port))
      × (init_connector is_serial true cfg
          ≡ ok (record { connector = http host port; server = none }))
command-finds_server is_serial cfg server cli service configured for_commands started =
    command-finds_at server.laddr is_serial cfg server cli service refl configured for_commands
      started
