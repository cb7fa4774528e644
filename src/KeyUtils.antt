-- ===== src/KeyUtils.antt =====
-- src/key_utils.rs: secrets in files. Base64, ed25519-dalek and the operating system's random numbers
-- are parameters; a file has its text and its permissions.
pub mod Laws
use Prim.Native.Char.{code}
use tmkms.Prelude.{
  ℕ, String, Bool, true, false, not, ◌&&◌, ◌||◌, ◌==◌, Option, none, some, leb, str_eq,
  if◌then◌else◌, Outcome, ok, err, panic,
}
use tmkms.Error.{ErrorKind, io_error, invalid_key}
use tmkms.Tendermint.{Bytes}

pub record File : Type 0 where
  pub text : String
  pub mode : ℕ

-- The files of the machine, by their paths.
abbrev pub Files : Type 0
Files = String → Option File

-- `subtle_encoding::base64`
pub record Base64 : Type 0 where
  pub encode : Bytes → String
  pub decode : String → Option Bytes

-- `ed25519_dalek`: `SecretKey::from_bytes` takes 32 bytes; a key pair is kept as its secret.
pub record Dalek : Type 0 where
  pub is_secret : Bytes → Bool
  pub public_of : Bytes → Bytes

pub record Keypair : Type 0 where
  pub secret : Bytes
  pub public : Bytes

-- How the operating system answers when a file is written: `partial` is what stands in the file after
-- a write that failed.
pub record Writing : Type 0 where
  pub openable : Bool
  pub partial : Option String

abbrev pub secret_file_perms : ℕ
secret_file_perms = 0o600

-- `char::is_whitespace`, by code point
unfoldable pub is_whitespace : ℕ → Bool
is_whitespace c =
    leb 9 c && leb c 13
    || c == 32
    || c == 0x85
    || c == 0xA0
    || c == 0x1680
    || leb 0x2000 c && leb c 0x200A
    || c == 0x2028
    || c == 0x2029
    || c == 0x202F
    || c == 0x205F
    || c == 0x3000

-- `str::trim_end`
unfoldable pub trim_end : String → String
unfolding is_whitespace
trim_end String.[] = String.[]
trim_end (String.◌∷◌ c s) =
    let rest = trim_end s in
    if is_whitespace (code c) && str_eq rest String.[] then String.[] else String.◌∷◌ c rest

set_file : String → File → Files → Files
set_file path file files p = if str_eq p path then some file else files p

module _ (base64 : Base64) where
  decode_secret : File → Outcome ErrorKind Bytes
  unfolding trim_end
  decode_secret file = elim (base64.decode (trim_end file.text)) [
    | none ↦ err io_error
    | some data_bytes ↦ ok data_bytes
  ]

  unfoldable pub load_base64_secret : String → Files → Outcome ErrorKind Bytes
  unfolding decode_secret
  load_base64_secret path files = elim (files path) [
    | none ↦ err io_error
    | some file ↦ decode_secret file
  ]

  -- The permissions are set only where the file is created.
  unfoldable pub write_base64_secret :
      String → Bytes → Writing → Files → Outcome ErrorKind (Unit {0}) × Files
  unfolding set_file
  write_base64_secret path data_bytes w files =
      let mode : ℕ = elim (files path) [ none ↦ secret_file_perms | some old ↦ old.mode ] in
      if not w.openable then (err io_error, files) else elim w.partial [
        | some text ↦ (err io_error, set_file path (record { text = text; mode = mode }) files)
        | none ↦
            (ok tt, set_file path (record { text = base64.encode data_bytes; mode = mode }) files)
      ]

  -- `seed` is what the random number generator gives.
  unfoldable pub generate_key :
      String → Bytes → Writing → Files → Outcome ErrorKind (Unit {0}) × Files
  unfolding write_base64_secret
  generate_key path seed w files = write_base64_secret path seed w files

  keypair_of : Dalek → Bytes → Outcome ErrorKind Keypair
  keypair_of dalek bytes =
      if dalek.is_secret bytes
      then ok (record { secret = bytes; public = dalek.public_of bytes })
      else err invalid_key

  unfoldable pub load_base64_ed25519_key : Dalek → String → Files → Outcome ErrorKind Keypair
  unfolding keypair_of
  load_base64_ed25519_key dalek path files = elim (load_base64_secret path files) [
    | ok bytes ↦ keypair_of dalek bytes
    | err e ↦ err e
    | panic p ↦ panic p
  ]
