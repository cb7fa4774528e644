-- ===== src/Commands/Keys/Backup.antt =====
-- What src/commands/yubihsm/keys/export.rs writes, src/commands/yubihsm/keys/import.rs reads.
use tmkms.Prelude.{
  map_option, ℕ, ◌≡◌, refl, ap, true, Option-cases, ◌⊎◌, inl, inr, false, Option, none, some, arith,
  ok, str_eq_iff,
}
use tmkms.Prelude.Exec.{◌>>=◌}
use tmkms.Prelude.Exec.Keeps.{Keeps-step}
use tmkms.KeyUtils.Laws.{write-text}
use tmkms.Tendermint.{Bytes}
use tmkms.KeyUtils.{Files, File, Base64, Dalek, Writing}
use tmkms.Commands.Softsign.{or_exit}
use tmkms.Commands.Keys.{
  Device, Parsers, Host, Object, ImportCommand, export_key, import_key, import_by, import_wrapped,
  import_message, after_import, or_default, or_stop, ensure, write_secret,
}

module _ {H : Type 0} (device : Device H) (base64 : Base64) (dalek : Dalek)
    (parsers : Parsers) where
  module _ (cmd : ImportCommand) (wrapped : Bytes)
      (decodes : base64.decode (base64.encode wrapped) ≡ some wrapped)
      (parses : device.parse_wrapped wrapped ≡ true) where
    after_import-same :
        (object : Object) (s : Host H) → (after_import device base64 dalek parsers object s).1 ≡ s
    unfolding after_import
    after_import-same object s = ground arith

    import_message-after :
        (wrap_key_id : ℕ) (s : Host H)
        → ((import_message device base64 dalek parsers wrap_key_id wrapped
              >>= after_import device base64 dalek parsers)
            s).1
          ≡ record s { hsm = (device.import_wrapped wrap_key_id wrapped s.hsm).1 }
    unfolding import_message or_stop
    import_message-after wrap_key_id s =
        Keeps-step
          (λ (t : Host H).
            t ≡ record s { hsm = (device.import_wrapped wrap_key_id wrapped s.hsm).1 })
          (import_message device base64 dalek parsers wrap_key_id wrapped)
          (after_import device base64 dalek parsers) s refl (λ object _. after_import-same object _)

    import_wrapped-reads :
        (s : Host H)
        → (import_wrapped device base64 dalek parsers cmd (base64.encode wrapped) s).1
          ≡ record s { hsm = (device.import_wrapped (or_default cmd.wrap_key_id) wrapped s.hsm).1 }
    unfolding import_wrapped ensure or_stop
    import_wrapped-reads s =
        rw (decodes, parses) (import_message-after (or_default cmd.wrap_key_id) s)

    export_key-text :
        (key_id : ℕ) (wrap_key_id : Option ℕ) (w : Writing) (s : Host H)
        → device.export_wrapped (or_default wrap_key_id) key_id s.hsm ≡ some wrapped
        → (export_key device base64 dalek parsers key_id wrap_key_id cmd.path w s).0 ≡ ok tt
        → map_option
            (λ (f : File). f.text)
            ((export_key device base64 dalek parsers key_id wrap_key_id cmd.path w s).1.files
              cmd.path)
          ≡ some (base64.encode wrapped)
    unfolding export_key write_secret or_stop or_exit
    export_key-text key_id wrap_key_id w s exported h =
        ground (arith, write-text base64 cmd.path wrapped w s.files)

    -- The format of an import is that of a backup if it is named, or if none is named and the file is not
    -- called `priv_validator_key.json`.
    abbrev pub ImportsWrapped : Type 0
    ImportsWrapped =
        (cmd.key_type ≡ some "wrap")
        ⊎ ((cmd.key_type ≡ none) × (cmd.named_priv_validator_key ≡ false))

    import_key-reads :
        (s : Host H) (file : File)
        → s.files cmd.path ≡ some file
        → file.text ≡ base64.encode wrapped
        → ImportsWrapped
        → (import_key device base64 dalek parsers cmd s).1
          ≡ record s { hsm = (device.import_wrapped (or_default cmd.wrap_key_id) wrapped s.hsm).1 }
    unfolding import_key import_by
    import_key-reads s file there text named =
        ground (arith, import_wrapped-reads s, str_eq_iff "wrap" "wrap")

    -- A key that one device has exported is imported into another, or the same, device as the message
    -- that was exported, and nothing else changes, if the import is told `-t wrap`, or no type and a path
    -- that does not end in `priv_validator_key.json`; if Base64 decodes what it encoded, the device parses
    -- the message, and the file is there as the export has left it.
    pub import_key-export_key :
        (key_id : ℕ) (wrap_key_id : Option ℕ) (w : Writing) (s s' : Host H)
        → device.export_wrapped (or_default wrap_key_id) key_id s.hsm ≡ some wrapped
        → (export_key device base64 dalek parsers key_id wrap_key_id cmd.path w s).0 ≡ ok tt
        → s'.files
          ≡ (export_key device base64 dalek parsers key_id wrap_key_id cmd.path w s).1.files
        → ImportsWrapped
        → (import_key device base64 dalek parsers cmd s').1 ≡ record s' {
          hsm = (device.import_wrapped (or_default cmd.wrap_key_id) wrapped s'.hsm).1;
        }
    import_key-export_key key_id wrap_key_id w s s' exported h copied named =
        let written = export_key-text key_id wrap_key_id w s exported h in
        elim (Option-cases (s'.files cmd.path)) [
          | inl missing ↦ absurd (ground (arith, ap (λ (f : Files). f cmd.path) copied))
          | inr (file, there) ↦
              import_key-reads s' file there (ground (arith, ap (λ (f : Files). f cmd.path) copied))
                named
        ]
