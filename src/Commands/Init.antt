-- ===== src/Commands/Init.antt =====
-- src/commands/init.rs and src/commands/init/networks.rs: the command that prepares a directory for the
-- program. Its configuration file is the text that module Config builds.
pub mod Config
pub mod Laws
use Prim.Native.Char.{code}
use Prim.Native.String.{◌++◌ as append}
use tmkms.Prelude.{
  ℕ, String, Bool, true, false, Option, none, some, List, [], ◌∷◌, str_eq, ◌==◌, if◌then◌else◌,
  Outcome, ok, err, panic,
}
use tmkms.Prelude.Exec.{Exec, pure, lift, ◌>>=◌, ◌>>◌}
use tmkms.Error.{ErrorKind}
use tmkms.Tendermint.{Bytes}
use tmkms.KeyUtils.{Base64, Files, File, Writing, generate_key}

pub data Network : Type 0 where
  columbus cosmos_hub iris_hub sentinel_hub osmosis persistence : Network

-- `Display`
unfoldable pub name_of : Network → String
name_of columbus = "columbus"
name_of cosmos_hub = "cosmoshub"
name_of iris_hub = "irishub"
name_of sentinel_hub = "sentinelhub"
name_of osmosis = "osmosis"
name_of persistence = "core"

-- An unknown name ends the program with the code 1.
unfoldable pub parse : String → Outcome ℕ Network
parse s =
    if str_eq s "columbus"
    then ok columbus
    else if str_eq s "cosmoshub"
    then ok cosmos_hub
    else if str_eq s "irishub"
    then ok iris_hub
    else if str_eq s "sentinelhub"
    then ok sentinel_hub
    else if str_eq s "osmosis"
    then ok osmosis
    else if str_eq s "core"
    then ok persistence
    else err 1

unfoldable pub chain_id : Network → String
chain_id columbus = "columbus-3"
chain_id cosmos_hub = "cosmoshub-3"
chain_id iris_hub = "irishub"
chain_id sentinel_hub = "sentinelhub-2"
chain_id osmosis = "osmosis-1"
chain_id persistence = "core-1"

unfoldable pub schema_file : Network → String
schema_file columbus = "terra.toml"
schema_file cosmos_hub = "cosmos-sdk.toml"
schema_file iris_hub = "iris.toml"
schema_file sentinel_hub = "sentinelhub.toml"
schema_file osmosis = "osmosis.toml"
schema_file persistence = "persistence.toml"

on_first : (String → String) → List String → List String
on_first f [] = f String.[] ∷ []
on_first f (word ∷ words) = f word ∷ words

-- `split(',')`
unfoldable pub split_commas : String → List String
unfolding on_first
split_commas String.[] = String.[] ∷ []
split_commas (String.◌∷◌ c s) =
    let rest = split_commas s in
    if code c == 44 then String.[] ∷ rest else on_first (String.◌∷◌ c) rest

-- The first unknown name ends the program.
unfoldable pub parse_all : List String → Outcome ℕ (List Network)
parse_all [] = ok []
parse_all (s ∷ ss) =
    let rest = parse_all ss in
    elim (parse s) [
      | ok n ↦ elim rest [ ok ns ↦ ok (n ∷ ns) | err e ↦ err e | panic p ↦ panic p ]
      | err e ↦ err e
      | panic p ↦ panic p
    ]

unfoldable pub networks_of : Option String → Outcome ℕ (List Network)
unfolding split_commas parse_all
networks_of none = ok (cosmos_hub ∷ [])
networks_of (some chain_ids) = parse_all (split_commas chain_ids)

-- The directories of the machine, with the permissions that were set, and its files.
pub record Disk : Type 0 where
  pub dirs : String → Option (Option ℕ)
  pub files : Files

-- What the operating system does: which directories it can create, the canonical form of a path,
-- whether permissions can be set and the configuration written, and how the key is written.
pub record System : Type 0 where
  pub creates : String → Bool
  pub canonical : String → Option String
  pub sets : Bool
  pub writes : Bool
  pub key : Writing

abbrev pub secrets_dir_permissions : ℕ
secrets_dir_permissions = 0o700

-- `join` of a path that is no root
abbrev pub in_dir : String → String → String
in_dir dir name = append dir (append "/" name)

exit_on : Outcome ErrorKind (Unit {0}) → Outcome ℕ (Unit {0})
exit_on (ok _) = ok tt
exit_on (err e) = err 1
exit_on (panic p) = panic p

module _ (system : System) where
  set_dir : String → Option ℕ → Disk → Disk
  set_dir path mode disk = record disk {
    dirs = λ p. if str_eq p path then some mode else disk.dirs p;
  }

  -- `create_dir_all`: an existing directory stays as it is.
  unfoldable pub create_dir : String → Exec Disk ℕ (Unit {0})
  unfolding set_dir
  create_dir path disk =
      if system.creates path
      then (ok tt, elim (disk.dirs path) [ none ↦ set_dir path none disk | some mode ↦ disk ])
      else (err 1, disk)

  unfoldable pub set_permissions : String → ℕ → Exec Disk ℕ (Unit {0})
  unfolding set_dir
  set_permissions path mode disk =
      if system.sets then (ok tt, set_dir path (some mode) disk) else (err 1, disk)

  canonicalize : String → Exec Disk ℕ String
  canonicalize path disk = elim (system.canonical path) [
    | none ↦ (err 1, disk)
    | some home ↦ (ok home, disk)
  ]

  -- The directory is created only where it does not exist.
  make_home : String → Exec Disk ℕ (Unit {0})
  make_home path disk = elim (disk.dirs path) [
    | none ↦ create_dir path disk
    | some m ↦ (ok tt, disk)
  ]

  -- A new file has the permissions that the usual umask leaves.
  write_config : String → String → Exec Disk ℕ (Unit {0})
  write_config path text disk =
      if system.writes
      then (
        ok tt,
        record disk {
          files = λ p.
              if str_eq p path
              then some (record {
                text = text;
                mode = elim (disk.files path) [ none ↦ 0o644 | some old ↦ old.mode ];
              })
              else disk.files p;
        },
      )
      else (err 1, disk)

  -- `seed` is what the random number generator gives.
  write_key : Base64 → String → Bytes → Exec Disk ℕ (Unit {0})
  unfolding exit_on
  write_key base64 path seed disk =
      let (out, files') = generate_key base64 path seed system.key disk.files in
      (exit_on out, record disk { files = files' })

  -- `config` builds the text from the home directory and the networks: `generate` of module Config.
  unfoldable pub prepare :
      Base64
      → (String → List Network → String)
      → Bytes
      → String
      → List Network
      → Exec Disk ℕ (Unit {0})
  unfolding canonicalize make_home write_config write_key
  prepare base64 config seed output_path networks = do
    make_home output_path
    home ← canonicalize output_path
    create_dir (in_dir home "schema")
    create_dir (in_dir home "secrets")
    create_dir (in_dir home "state")
    set_permissions (in_dir home "secrets") secrets_dir_permissions
    write_config (in_dir home "tmkms.toml") (config home networks)
    write_key base64 (in_dir (in_dir home "secrets") "kms-identity.key") seed

  -- Exactly one path is expected. The networks are parsed before anything is created.
  unfoldable pub run :
      Base64
      → (String → List Network → String)
      → Bytes
      → List String
      → Option String
      → Exec Disk ℕ (Unit {0})
  run base64 config seed [] networks = lift (err 1)
  run base64 config seed (output_path ∷ []) networks = do
    parsed ← lift (networks_of networks)
    prepare base64 config seed output_path parsed
  run base64 config seed (_ ∷ _ ∷ _) networks = lift (err 1)
