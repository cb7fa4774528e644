-- ===== src/Commands/Softsign/Loads.antt =====
-- The keys that src/commands/softsign/ writes are the keys that the provider loads.
use tmkms.Prelude.{
  ◌≡◌, ◌⊎◌, String, true, Option, none, some, [], ◌∷◌, arith, Outcome, ok, err, panic,
}
use tmkms.Error.{ErrorKind}
use tmkms.Tendermint.{Bytes}
use tmkms.KeyUtils.{
  load_base64_ed25519_key, Files, Dalek, Keypair, Writing, trim_end, write_base64_secret,
}
use tmkms.KeyUtils.Laws.{load-write, load_base64_ed25519_key-ok}
use tmkms.Providers.Softsign.{base64_format, ed25519_key, Crypto, SoftsignConfig, load_ed25519_key}
use tmkms.Commands.Softsign.{
  or_exit, write_secret, generate, named_type, keygen, write_imported, import_key,
}

-- A key at this path is read in Base64, also where no format is configured.
abbrev pub ReadsBase64 : String → SoftsignConfig → Type 0
ReadsBase64 path config =
    (config.path ≡ path) × ((config.key_format ≡ none) ⊎ (config.key_format ≡ some base64_format))

abbrev pub pair_of : Dalek → Bytes → Keypair
pair_of dalek secret = record { secret = secret; public = dalek.public_of secret }

or_exit-ok : {A : Type 0} (out : Outcome ErrorKind A) (a : A) → or_exit out ≡ ok a → out ≡ ok a
unfolding or_exit
or_exit-ok (ok b) a h = cc h
or_exit-ok (err e) a h = cc h
or_exit-ok (panic p) a h = cc h

module _ (crypto : Crypto) (path : String) (secret : Bytes) (w : Writing) (files : Files)
    (decodes : crypto.base64.decode (crypto.base64.encode secret) ≡ some secret)
    (trims : trim_end (crypto.base64.encode secret) ≡ crypto.base64.encode secret)
    (is_key : crypto.dalek.is_secret secret ≡ true) where
  module _ (config : SoftsignConfig) (reads : ReadsBase64 path config) where
    base64-loads :
        (left : Files) {pair : Keypair}
        → load_base64_ed25519_key crypto.base64 crypto.dalek path left ≡ ok pair
        → load_ed25519_key crypto left config ≡ ok pair
    unfolding load_ed25519_key
    base64-loads left h = ground (arith, h)

    write_secret-loads :
        (write_secret crypto path secret w files).0 ≡ ok tt
        → load_ed25519_key crypto (write_secret crypto path secret w files).1 config
          ≡ ok (pair_of crypto.dalek secret)
    unfolding write_secret
    write_secret-loads h =
        let (read, _, _, _) =
          load-write crypto.base64 path secret w files decodes trims
            (or_exit-ok (write_base64_secret crypto.base64 path secret w files).0 tt h) in
        base64-loads (write_base64_secret crypto.base64 path secret w files).1 (
          load_base64_ed25519_key-ok crypto.base64 crypto.dalek path
            (write_base64_secret crypto.base64 path secret w files).1 secret read is_key)

    -- A consensus key that was generated is the one that the provider then loads from the path.
    keygen-loads :
        (account_secret : Bytes)
        → (keygen crypto none (path ∷ []) account_secret secret w files).0 ≡ ok tt
        → load_ed25519_key crypto
            (keygen crypto none (path ∷ []) account_secret secret w files).1
            config
          ≡ ok (pair_of crypto.dalek secret)
    unfolding keygen generate named_type
    keygen-loads account_secret h = ground (arith, write_secret-loads)

    -- A secret key that was imported with success from a validator's file, with `-f json` or no format,
    -- is the one that the provider then loads from the path that was written, if it is configured for
    -- this path with the format Base64 or none; and if Base64 decodes what it encoded, the text does not
    -- end in white space, and the secret is an Ed25519 key.
    pub import_key-loads :
        (format : Option String) (input : String) (public : Bytes)
        → crypto.load_json_file input files
          ≡ some (ed25519_key (record { secret = secret; public = public }))
        → (import_key crypto format (input ∷ path ∷ []) w files).0 ≡ ok tt
        → load_ed25519_key crypto (import_key crypto format (input ∷ path ∷ []) w files).1 config
          ≡ ok (pair_of crypto.dalek secret)
    unfolding import_key write_imported
    import_key-loads format input public known h = ground (arith, write_secret-loads)
