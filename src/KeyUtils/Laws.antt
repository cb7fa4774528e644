-- ===== src/KeyUtils/Laws.antt =====
-- Secrets that were written are read back (src/key_utils.rs).
use tmkms.Prelude.{map_option, true, String, ◌≡◌, ◌≢◌, none, some, str_eq_iff, arith, ok}
use tmkms.Tendermint.{Bytes}
use tmkms.KeyUtils.{
  File, Files, Base64, Writing, secret_file_perms, trim_end, load_base64_secret,
  write_base64_secret, Dalek, load_base64_ed25519_key, keypair_of,
}

module _ (base64 : Base64) where
  -- A secret that was written without an error is read back, where Base64 decodes what it encoded and
  -- the encoding does not end in white space; other files stay. A new file gets the permissions 0600,
  -- an old one keeps its own.
  pub load-write :
      (path : String) (data_bytes : Bytes) (w : Writing) (files : Files)
      → base64.decode (base64.encode data_bytes) ≡ some data_bytes
      → trim_end (base64.encode data_bytes) ≡ base64.encode data_bytes
      → (write_base64_secret base64 path data_bytes w files).0 ≡ ok tt
      → let after = (write_base64_secret base64 path data_bytes w files).1 in
        (load_base64_secret base64 path after ≡ ok data_bytes)
        × (files path ≡ none
            → after path
              ≡ some (record { text = base64.encode data_bytes; mode = secret_file_perms }))
        × ((old : File)
            → files path ≡ some old
            → after path ≡ some (record { text = base64.encode data_bytes; mode = old.mode }))
        × ((other : String) → other ≢ path → after other ≡ files other)
  unfolding write_base64_secret load_base64_secret
  load-write path data_bytes w files decodes trims h = (
    ground (arith, str_eq_iff path path, decodes, trims),
    (λ fresh. ground (arith, str_eq_iff path path)),
    (λ old known. ground (arith, str_eq_iff path path)),
    (λ other differs. ground (arith, str_eq_iff other path)),
  )

  pub load_base64_ed25519_key-ok :
      (dalek : Dalek) (path : String) (files : Files) (secret : Bytes)
      → load_base64_secret base64 path files ≡ ok secret
      → dalek.is_secret secret ≡ true
      → load_base64_ed25519_key base64 dalek path files
        ≡ ok (record { secret = secret; public = dalek.public_of secret })
  unfolding load_base64_ed25519_key keypair_of
  load_base64_ed25519_key-ok dalek path files secret read is_key = ground arith

  pub write-text :
      (path : String) (data_bytes : Bytes) (w : Writing) (files : Files)
      → (write_base64_secret base64 path data_bytes w files).0 ≡ ok tt
      → map_option
          (λ (f : File). f.text)
          ((write_base64_secret base64 path data_bytes w files).1 path)
        ≡ some (base64.encode data_bytes)
  unfolding write_base64_secret
  write-text path data_bytes w files h = ground (arith, str_eq_iff path path)
