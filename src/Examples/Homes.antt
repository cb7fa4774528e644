-- ===== src/Examples/Homes.antt =====
-- The command that prepares a directory: src/commands/init.rs.
use tmkms.Prelude.{◌≡◌, refl, true, none, some, [], ◌∷◌}
use tmkms.Tendermint.{Bytes}
use tmkms.KeyUtils.{trim_end, generate_key, write_base64_secret}
use tmkms.Commands.Init.{
  Disk, System, networks_of, create_dir, set_permissions, prepare, run, parse, parse_all,
  split_commas,
}
use tmkms.Commands.Init.Config.{Templates, format_template, generate}
use tmkms.Commands.Init.Laws.{Prepared, run-Prepared}
use tmkms.Examples.Setup.{base64, dalek}

-- Every occurrence of a name is replaced.
replaced : format_template "$KMS_HOME/a $KMS_HOME \n" (("$KMS_HOME", "/kms") ∷ []) ≡ "/kms/a /kms"
unfolding format_template trim_end
replaced = refl

abbrev templates : Templates
templates = record {
  network = λ n. "";
  yubihsm = "";
  yubihsm_server = "";
  ledgertm = "";
  softsign_consensus = "";
  softsign_account = "";
  fortanixdsm = "";
  validator = "";
  tx_signer = "";
}

abbrev system : System
system = record {
  creates = λ path. true;
  canonical = λ path. some "/kms";
  sets = true;
  writes = true;
  key = record { openable = true; partial = none };
}

abbrev empty : Disk
empty = record { dirs = λ path. none; files = λ path. none }

abbrev seed : Bytes
seed = 42 ∷ 42 ∷ 42 ∷ 42 ∷ []

run-Prepared_example :
    Prepared system base64 dalek
      (generate templates)
      seed
      ("kms" ∷ [])
      (some "cosmoshub,core")
      (run system base64 (generate templates) seed ("kms" ∷ []) (some "cosmoshub,core") empty).1
unfolding run prepare networks_of create_dir set_permissions parse generate_key write_base64_secret
    trim_end parse_all split_commas
run-Prepared_example =
    run-Prepared system base64 dalek (generate templates) seed ("kms" ∷ []) (some "cosmoshub,core")
      empty refl refl refl refl
