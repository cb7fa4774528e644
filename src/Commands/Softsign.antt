-- ===== src/Commands/Softsign.antt =====
-- src/commands/softsign/: keys in files are generated, and imported from files of validators.
pub mod Loads
use tmkms.Prelude.{
  ℕ, String, Bool, true, false, Option, none, some, List, [], ◌∷◌, if◌then◌else◌, str_eq, Outcome,
  ok, err, panic, crash,
}
use tmkms.Prelude.Exec.{Exec, pure, lift, ◌>>=◌, ◌>>◌}
use tmkms.Error.{ErrorKind}
use tmkms.Tendermint.{Bytes}
use tmkms.KeyUtils.{Files, Keypair, Writing, write_base64_secret}
use tmkms.Providers.{KeyType, account, consensus}
use tmkms.Providers.Softsign.{
  KeyFormat, base64_format, json_format, parse_format, PrivateKey, ed25519_key, other_key, Crypto,
}

-- A failed result ends the program with the code 1.
unfoldable pub or_exit : {A : Type 0} → Outcome ErrorKind A → Outcome ℕ A
or_exit (ok a) = ok a
or_exit (err e) = err 1
or_exit (panic p) = panic p

-- The kind of key that is named. Without a name it is a consensus key.
unfoldable pub named_type : Option String → Outcome ℕ KeyType
named_type none = ok consensus
named_type (some name) =
    if str_eq name "account"
    then ok account
    else if str_eq name "consensus"
    then ok consensus
    else err 1

module _ (crypto : Crypto) where
  unfoldable pub write_secret : String → Bytes → Writing → Exec Files ℕ (Unit {0})
  unfolding or_exit
  write_secret path secret w files =
      let (out, files') = write_base64_secret crypto.base64 path secret w files in
      (or_exit out, files')

  -- Keygen: `account_secret` is what `SigningKey::random` gives, and `seed` the random bytes of the other
  -- kind of key. `SecretKey::from_bytes(&sk_bytes).unwrap()`
  generate : KeyType → Bytes → Bytes → String → Writing → Exec Files ℕ (Unit {0})
  unfolding write_secret
  generate account account_secret seed output_path w = write_secret output_path account_secret w
  generate consensus account_secret seed output_path w =
      if crypto.dalek.is_secret seed then write_secret output_path seed w else lift (panic crash)

  unfoldable pub keygen :
      Option String → List String → Bytes → Bytes → Writing → Exec Files ℕ (Unit {0})
  unfolding generate named_type
  keygen key_type (output_path ∷ []) account_secret seed w = do
    t ← lift (named_type key_type)
    generate t account_secret seed output_path w
  keygen key_type _ account_secret seed w = lift (err 1)

  is_json : KeyFormat → Bool
  is_json json_format = true
  is_json base64_format = false

  -- `unwrap_or(KeyFormat::Json)`
  unfoldable pub import_format : Option String → Outcome ℕ KeyFormat
  unfolding or_exit parse_format
  import_format none = ok json_format
  import_format (some name) = or_exit (parse_format name)

  write_imported : Option PrivateKey → String → Writing → Exec Files ℕ (Unit {0})
  unfolding write_secret
  write_imported none output_path w = lift (err 1)
  write_imported (some (ed25519_key pk)) output_path w = write_secret output_path pk.secret w
  write_imported (some other_key) output_path w = lift (panic crash)

  unfoldable pub import_key : Option String → List String → Writing → Exec Files ℕ (Unit {0})
  unfolding import_format is_json write_imported
  import_key format (input_path ∷ output_path ∷ []) w files =
      (lift (import_format format) >>= λ f.
      if is_json f
      then write_imported (crypto.load_json_file input_path files) output_path w
      else lift (err 1))
        files
  import_key format _ w files = (err 1, files)
