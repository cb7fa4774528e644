-- ===== src/Examples/Starts.antt =====
-- Connections, clients and commands: src/connection/, src/client.rs and src/commands/.
use tmkms.Prelude.{
  ◌≡◌, ◌≢◌, ◌↔◌, refl, true, false, String, none, some, List, [], ◌∷◌, arith, ok, str_eq_iff,
  Outcome,
}
use tmkms.Error.{ErrorKind, poison_error, verification_error}
use tmkms.Tendermint.{Bytes}
use tmkms.KeyUtils.{Keypair, load_base64_ed25519_key, load_base64_secret}
use tmkms.Config.Validator.{tcp, ValidatorConfig}
use tmkms.Connection.{
  open_session, Network, SecretVersion, secret_v0_34, established, timeout_of,
  open_secret_connection,
}
use tmkms.Connection.Laws.{Reaches, open_secret_connection_iff}
use tmkms.Session.Loop.{failed, turn}
use tmkms.Client.{Attempt, client_loop}
use tmkms.Client.Peers.{client_loop-stranger}
use tmkms.Client.Ends.{client_loop-failed}
use tmkms.Start.{running, start}
use tmkms.Start.Laws.{ExitsWith, start-ExitsWith}
use tmkms.KeyUtils.{is_whitespace}
use tmkms.Commands.Text.{parse_u16, join, split_whitespace}
use tmkms.Commands.Setup.{SetupCommand, World, run}
use tmkms.Commands.Setup.Derive.{Crates, Mnemonic}
use tmkms.Commands.Setup.Laws.{Explained, untouched, run-Explained}
use tmkms.Examples.Setup.{env, deaf, hub, nil_at, kms_at, base64, dalek, key_files}

-- A network on which one peer answers.
abbrev network : Network
network = record {
  tcp_connects = λ _ _. true;
  read_timeout_set = λ _. true;
  write_timeout_set = λ _. true;
  handshake = λ _ _. established "stranger";
  unix_connects = λ _. true;
}

open_secret_connection_iff_example :
    (open_secret_connection base64 dalek key_files network "hub" 26658
        (some "hub.key")
        none
        none
        secret_v0_34
      ≡ ok "stranger")
    ↔ ((path : String) × (key : Keypair) × (some "hub.key" ≡ some path)
        × (load_base64_ed25519_key base64 dalek path key_files ≡ ok key)
        × Reaches base64 dalek key_files network "hub" 26658 none
            (timeout_of none)
            secret_v0_34
            "stranger"
            key)
open_secret_connection_iff_example =
    open_secret_connection_iff base64 dalek key_files network "hub" 26658 (some "hub.key") none none
      secret_v0_34 "stranger"

abbrev remote : ValidatorConfig
remote = record hub { addr = tcp (some "validator") "hub" 26658; secret_key = some "hub.key" }

never :
    (key : Keypair) (version : SecretVersion)
    → network.handshake key version ≢ established "validator"
never key version h = ground (arith, str_eq_iff "stranger" "validator")

abbrev attempts : List Attempt
attempts = record { net = network; rounds = [] } ∷ []

client_loop-stranger_example :
    ((client_loop env deaf base64 dalek key_files remote attempts (kms_at (nil_at 7))).0 ≡ [])
    × ((client_loop env deaf base64 dalek key_files remote attempts (kms_at (nil_at 7))).2
        ≡ kms_at (nil_at 7))
client_loop-stranger_example =
    client_loop-stranger env deaf base64 dalek key_files remote "validator" "hub" 26658 refl
      attempts (kms_at (nil_at 7)) (never, tt)

abbrev stubborn : ValidatorConfig
stubborn = record remote { reconnect = false }

ended :
    (client_loop env deaf base64 dalek key_files stubborn attempts (kms_at (nil_at 7))).1
    ≡ some (failed verification_error)
unfolding client_loop open_session open_secret_connection turn load_base64_ed25519_key
    load_base64_secret
ended = refl

client_loop-failed_example :
    (e : ErrorKind) × (failed verification_error ≡ failed e) × (false ≡ true → e ≡ poison_error)
client_loop-failed_example =
    client_loop-failed env deaf base64 dalek key_files stubborn attempts (kms_at (nil_at 7))
      (failed verification_error) ended

abbrev loaded : Outcome ErrorKind (Unit {0})
loaded = ok tt

start-ExitsWith_example : ExitsWith 1 (
    start env deaf base64 dalek key_files loaded
      (kms_at (nil_at 7))
      (record { config = stubborn; attempts = attempts; kms = kms_at (nil_at 7) } ∷ [])
      0
      running)
start-ExitsWith_example =
    start-ExitsWith env deaf base64 dalek key_files loaded (kms_at (nil_at 7))
      (record { config = stubborn; attempts = attempts; kms = kms_at (nil_at 7) }) [] running

-- "wrap", and the bytes of a key ID
abbrev path_one : List Bytes
path_one = (119 ∷ 114 ∷ 97 ∷ 112 ∷ []) ∷ (48 ∷ 120 ∷ []) ∷ []

abbrev crates : Crates
crates = record {
  phrase = λ text. some (record { phrase = text; entropy = 7 ∷ [] });
  from_entropy = λ bytes. record { phrase = "abandon"; entropy = bytes };
  derive_subkey = λ ikm path. path;
  hkdf_sha512 = λ bytes. bytes;
  bech32 = λ prefix bytes. prefix;
  hex_encode = λ bytes. "00";
  derive_from_password = λ password. [];
}

abbrev world : World
world = record {
  opens = true;
  device_info = some 1;
  typed_mnemonic = some "abandon";
  opens_again = true;
  random_of_hsm = some (1 ∷ []);
  random_of_os = some (2 ∷ []);
  typed_choice = some "y";
  erases = true;
  report_created = true;
  report_written = true;
}

abbrev setup : SetupCommand
setup = record { print_only = false; restore = false; write_report = true }

run-Explained_example : Explained crates world setup (run crates world setup untouched).1
run-Explained_example = run-Explained crates world setup

abbrev phrase : Mnemonic
phrase = record { phrase = "abandon"; entropy = 7 ∷ [] }

parse_u16_hex : parse_u16 16 "00fF" ≡ some 255
unfolding parse_u16
parse_u16_hex = refl

parse_u16_large : parse_u16 10 "65536" ≡ none
unfolding parse_u16
parse_u16_large = refl

join-split_whitespace : join (split_whitespace " a  b ") ≡ "a b"
unfolding join split_whitespace is_whitespace
join-split_whitespace = refl
