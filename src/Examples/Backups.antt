-- ===== src/Examples/Backups.antt =====
-- Keys that are imported and exported: src/commands/softsign/ and src/commands/yubihsm/keys/.
use tmkms.Prelude.{◌≡◌, refl, inl, ℕ, suc, true, false, none, some, [], ◌∷◌, ok}
use tmkms.Tendermint.{Bytes}
use tmkms.KeyUtils.{Files, Writing, trim_end, write_base64_secret}
use tmkms.Providers.Softsign.{SoftsignConfig, Crypto, ed25519_key, load_ed25519_key}
use tmkms.Providers.{consensus}
use tmkms.Commands.Softsign
use tmkms.Commands.Softsign.{or_exit}
use tmkms.Commands.Softsign.Loads.{pair_of, import_key-loads}
use tmkms.Commands.Keys.{Device, Parsers, Host, ImportCommand, export_key, import_key}
use tmkms.Commands.Keys.Backup.{import_key-export_key}
use tmkms.Examples.Setup.{base64, dalek}

abbrev secret : Bytes
secret = 42 ∷ 42 ∷ 42 ∷ 42 ∷ []

abbrev written : Writing
written = record { openable = true; partial = none }

abbrev no_files : Files
no_files path = none

-- A validator's file holds the secret.
abbrev crypto : Crypto
crypto = record {
  base64 = base64;
  dalek = dalek;
  load_json_file = λ _ _. some (ed25519_key (record { secret = secret; public = [] }));
  sign_ed25519 = λ pair msg. some msg;
  is_signing_key = λ _. false;
  account_public = λ _. none;
  sign_ecdsa = λ _ _. none;
}

abbrev hub_config : SoftsignConfig
hub_config = record {
  chain_ids = "hub" ∷ [];
  key_type = consensus;
  key_format = none;
  path = "hub.key";
}

imported :
    (Softsign.import_key crypto none ("validator.json" ∷ "hub.key" ∷ []) written no_files).0 ≡ ok tt
unfolding Softsign.import_key write_base64_secret
imported = refl

import_key-loads_example :
    load_ed25519_key crypto
      (Softsign.import_key crypto none ("validator.json" ∷ "hub.key" ∷ []) written no_files).1
      hub_config
    ≡ ok (pair_of dalek secret)
unfolding trim_end
import_key-loads_example =
    import_key-loads crypto "hub.key" secret written no_files refl refl refl hub_config
      (refl, inl refl) none "validator.json" [] refl imported

-- A device that counts what it has imported, and exports the secret.
abbrev device : Device ℕ
device = record {
  generate_asymmetric_key = λ _ _ _ h. (true, h);
  put_asymmetric_key = λ _ _ _ _ h. (true, h);
  get_public_key = λ _ _. some (true, secret);
  export_wrapped = λ _ _ _. some secret;
  parse_wrapped = λ _. true;
  import_wrapped = λ _ _ h. (some (record { object_id = 1; is_asymmetric_key = true }), suc h);
}

abbrev parsers : Parsers
parsers = record { parse_json = λ _. none; is_ed25519 = λ _. true }

abbrev host : Host ℕ
host = record { hsm = 0; files = no_files }

abbrev after_export : Host ℕ
after_export = (export_key device base64 dalek parsers 1 none "backup" written host).1

abbrev import_command : ImportCommand
import_command = record {
  key_id = none;
  wrap_key_id = none;
  key_type = some "wrap";
  named_priv_validator_key = false;
  path = "backup";
}

exported : (export_key device base64 dalek parsers 1 none "backup" written host).0 ≡ ok tt
unfolding export_key write_base64_secret or_exit
exported = refl

import_key-export_key_example :
    (import_key device base64 dalek parsers import_command after_export).1
    ≡ record after_export { hsm = suc after_export.hsm }
import_key-export_key_example =
    import_key-export_key device base64 dalek parsers import_command secret refl refl 1 none written
      host after_export refl exported refl (inl refl)
