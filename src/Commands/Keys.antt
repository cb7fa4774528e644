-- ===== src/Commands/Keys.antt =====
-- src/commands/yubihsm/keys/: keys in a YubiHSM are generated, exported in wrapped form, and imported.
pub mod Backup
pub mod Listing
use Prim.Native.Char.{code}
use tmkms.Prelude.{
  ℕ, String, Bool, true, false, not, ◌&&◌, ◌==◌, Option, none, some, map_option, List, [], ◌∷◌,
  if◌then◌else◌, str_eq, Outcome, ok, err, panic, crash,
}
use tmkms.Prelude.Exec.{Exec, pure, lift, ◌>>=◌, ◌>>◌}
use tmkms.Tendermint.{Bytes}
use tmkms.KeyUtils.{Files, Base64, Dalek, Writing, write_base64_secret, trim_end}
use tmkms.Providers.{KeyType, account, consensus}
use tmkms.Providers.Softsign.{PrivateKey, ed25519_key, other_key}
use tmkms.Commands.Text.{parse_u16}
use tmkms.Commands.Softsign.{or_exit, named_type}

abbrev pub default_wrap_key : ℕ
default_wrap_key = 1

pub data Algorithm : Type 0 where
  ec_k256 ed25519_algorithm : Algorithm

-- What is known of an object that was imported: its ID, and whether it is an asymmetric key.
pub record Object : Type 0 where
  pub object_id : ℕ
  pub is_asymmetric_key : Bool

-- The device, in a state `H`, as the yubihsm crate gives access to it. A key is made with its ID, whether
-- it may be exported under a wrap key, and its algorithm (its label is left out, its domain is always 1,
-- and its other capability always SIGN_EDDSA); `put_asymmetric_key` also takes the secret.
-- A public key comes with whether its algorithm is Ed25519.
pub record Device (H : Type 0) : Type 0 where
  pub generate_asymmetric_key : ℕ → Bool → Algorithm → H → Bool × H
  pub put_asymmetric_key : ℕ → Bool → Algorithm → Bytes → H → Bool × H
  pub get_public_key : ℕ → H → Option (Bool × Bytes)
  pub export_wrapped : ℕ → ℕ → H → Option Bytes
  pub parse_wrapped : Bytes → Bool
  pub import_wrapped : ℕ → Bytes → H → Option Object × H

-- What the tendermint crates take: validators' key files, and Ed25519 keys
pub record Parsers : Type 0 where
  pub parse_json : String → Option PrivateKey
  pub is_ed25519 : Bytes → Bool

pub record GenerateCommand : Type 0 where
  pub key_type : Option String
  pub non_exportable : Bool
  pub backup_file : Option String
  pub wrap_key_id : Option ℕ
  pub key_ids : List String

pub record ImportCommand : Type 0 where
  pub key_id : Option ℕ
  pub wrap_key_id : Option ℕ
  pub key_type : Option String
  pub named_priv_validator_key : Bool  -- the path ends with `priv_validator_key.json`
  pub path : String

-- A device with the files of the machine
pub record Host (H : Type 0) : Type 0 where
  pub hsm : H
  pub files : Files

ensure : Bool → Outcome ℕ (Unit {0})
ensure true = ok tt
ensure false = err 1

unfoldable pub or_default : Option ℕ → ℕ
or_default none = default_wrap_key
or_default (some id) = id

or_stop : {A : Type 0} → Option A → Outcome ℕ A
or_stop none = err 1
or_stop (some a) = ok a

-- `strip_prefix("0x")`
unfoldable pub strip_0x : String → Option String
strip_0x (String.◌∷◌ c (String.◌∷◌ d s)) = if code c == 48 && code d == 120 then some s else none
strip_0x _ = none

parse_id : Option String → String → Option ℕ
parse_id (some digits) text = parse_u16 16 digits
parse_id none text = parse_u16 10 text

unfoldable pub parse_key_id : List String → Outcome ℕ ℕ
unfolding parse_id or_stop
parse_key_id (text ∷ []) = or_stop (parse_id (strip_0x text) text)
parse_key_id _ = err 1

algorithm_of : KeyType → Algorithm
algorithm_of account = ec_k256
algorithm_of consensus = ed25519_algorithm

module _ {H : Type 0} (device : Device H) (base64 : Base64) (dalek : Dalek)
    (parsers : Parsers) where
  unfoldable pub write_secret : String → Bytes → Writing → Exec (Host H) ℕ (Unit {0})
  write_secret path secret w s =
      let (out, files) = write_base64_secret base64 path secret w s.files in
      (or_exit out, record s { files = files })

  generate_key : ℕ → Bool → Algorithm → Exec (Host H) ℕ (Unit {0})
  generate_key key_id exportable algorithm s =
      let (done, hsm) = device.generate_asymmetric_key key_id exportable algorithm s.hsm in
      (if done then ok tt else err 1, record s { hsm = hsm })

  -- Bytes of the device that tendermint does not take as a key are a panic.
  shown_key : Option (Bool × Bytes) → Outcome ℕ (Unit {0})
  shown_key none = err 1
  shown_key (some (_, bytes)) = if parsers.is_ed25519 bytes then ok tt else panic crash

  -- After an import, keys of other algorithms are only printed.
  imported_key : Option (Bool × Bytes) → Outcome ℕ (Unit {0})
  imported_key none = err 1
  imported_key (some (false, bytes)) = ok tt
  imported_key (some (true, bytes)) = if parsers.is_ed25519 bytes then ok tt else panic crash

  show_key : KeyType → ℕ → Exec (Host H) ℕ (Unit {0})
  unfolding shown_key
  show_key account key_id s = (ok tt, s)
  show_key consensus key_id s = (shown_key (device.get_public_key key_id s.hsm), s)

  -- `ExportCommand::run`, and `create_encrypted_backup` of the generation
  unfoldable pub export_key : ℕ → Option ℕ → String → Writing → Exec (Host H) ℕ (Unit {0})
  unfolding or_default or_stop write_secret
  export_key key_id wrap_key_id path w s =
      (lift (or_stop (device.export_wrapped (or_default wrap_key_id) key_id s.hsm)) >>= λ wrapped.
      write_secret path wrapped w)
        s

  back_up : ℕ → GenerateCommand → Option String → Writing → Exec (Host H) ℕ (Unit {0})
  back_up key_id cmd none w = pure tt
  back_up key_id cmd (some path) w = export_key key_id cmd.wrap_key_id path w

  unfoldable pub generate : GenerateCommand → Writing → Exec (Host H) ℕ (Unit {0})
  unfolding generate_key show_key back_up algorithm_of
  generate cmd w = do
    key_id ← lift (parse_key_id cmd.key_ids)
    t ← lift (named_type cmd.key_type)
    generate_key key_id (not cmd.non_exportable) (algorithm_of t)
    show_key t key_id
    back_up key_id cmd cmd.backup_file w

  -- An object that is no asymmetric key ends the program with success.
  after_import : Object → Exec (Host H) ℕ (Unit {0})
  unfolding imported_key
  after_import object s =
      if not object.is_asymmetric_key
      then (err 0, s)
      else (imported_key (device.get_public_key object.object_id s.hsm), s)

  import_message : ℕ → Bytes → Exec (Host H) ℕ Object
  unfolding or_stop
  import_message wrap_key_id wrapped s =
      let (object, hsm) = device.import_wrapped wrap_key_id wrapped s.hsm in
      (or_stop object, record s { hsm = hsm })

  unfoldable pub import_wrapped : ImportCommand → String → Exec (Host H) ℕ (Unit {0})
  unfolding or_default or_stop import_message after_import ensure
  import_wrapped cmd contents = do
    wrapped ← lift (or_stop (base64.decode contents))
    lift (ensure (device.parse_wrapped wrapped))
    object ← import_message (or_default cmd.wrap_key_id) wrapped
    after_import object

  put_key : ℕ → Bytes → Exec (Host H) ℕ (Unit {0})
  put_key key_id secret s =
      let (done, hsm) = device.put_asymmetric_key key_id true ed25519_algorithm secret s.hsm in
      (if done then ok tt else err 1, record s { hsm = hsm })

  seed_of : Option PrivateKey → Outcome ℕ Bytes
  seed_of none = err 1
  seed_of (some (ed25519_key pk)) = ok pk.secret
  seed_of (some other_key) = panic crash

  import_priv_validator_json : ImportCommand → String → Exec (Host H) ℕ (Unit {0})
  unfolding or_stop seed_of put_key
  import_priv_validator_json cmd contents = do
    key_id ← lift (or_stop cmd.key_id)
    seed ← lift (seed_of (parsers.parse_json contents))
    put_key key_id seed

  import_base64 : ImportCommand → String → Exec (Host H) ℕ (Unit {0})
  unfolding or_stop put_key ensure
  import_base64 cmd contents = do
    key_id ← lift (or_stop cmd.key_id)
    secret ← lift (or_stop (base64.decode (trim_end contents)))
    lift (ensure (dalek.is_secret secret))
    put_key key_id secret

  import_by : Option String → ImportCommand → String → Exec (Host H) ℕ (Unit {0})
  unfolding import_wrapped import_priv_validator_json import_base64
  import_by none cmd contents =
      if cmd.named_priv_validator_key
      then import_priv_validator_json cmd contents
      else import_wrapped cmd contents
  import_by (some name) cmd contents =
      if str_eq name "wrap"
      then import_wrapped cmd contents
      else if str_eq name "json"
      then import_priv_validator_json cmd contents
      else if str_eq name "base64"
      then import_base64 cmd contents
      else lift (err 1)

  unfoldable pub import_key : ImportCommand → Exec (Host H) ℕ (Unit {0})
  unfolding import_by
  import_key cmd s = elim (s.files cmd.path) [
    | none ↦ (err 1, s)
    | some file ↦ import_by cmd.key_type cmd file.text s
  ]
