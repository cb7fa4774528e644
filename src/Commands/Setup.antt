-- ===== src/Commands/Setup.antt =====
-- src/commands/yubihsm/setup.rs: a YubiHSM is erased and set up with keys derived from one mnemonic.
pub mod Paths
pub mod Derive
pub mod Laws
use tmkms.Prelude.{
  ℕ, String, Bool, true, false, not, ◌||◌, Option, none, some, List, [], ◌∷◌, ◌++◌, if◌then◌else◌,
  str_eq, Outcome, ok, err, panic, crash,
}
use tmkms.Prelude.Exec.{Exec, pure, lift, ◌>>=◌, ◌>>◌}
use tmkms.Tendermint.{Bytes}
use tmkms.Commands.Text.{trim, split_whitespace, join}
use tmkms.Commands.Setup.Derive.{
  Crates, Mnemonic, Role, WrapKey, derive_roles_from_mnemonic, derive_wrap_key_from_mnemonic,
  wrap_secret, role_password,
}

pub record SetupCommand : Type 0 where
  pub print_only : Bool
  pub restore : Bool
  pub write_report : Bool

-- `yubihsm::setup::Profile`, without the audit option, which is always off
pub record Profile : Type 0 where
  pub roles : List Role
  pub wrap_keys : List WrapKey

-- What is printed: the mnemonic, three passwords and the key in hexadecimal digits.
pub record Sheet : Type 0 where
  pub mnemonic : Mnemonic
  pub operator_password : String
  pub auditor_password : String
  pub validator_password : String
  pub wrapkey_hex : String

-- How the device, the user and the system answer.
pub record World : Type 0 where
  pub opens : Bool
  pub device_info : Option ℕ
  pub typed_mnemonic : Option String
  pub opens_again : Bool
  pub random_of_hsm : Option Bytes
  pub random_of_os : Option Bytes
  pub typed_choice : Option String
  pub erases : Bool
  pub report_created : Bool
  pub report_written : Bool

-- What has happened: what was printed, and with which profile the device was erased and set up.
pub record Done : Type 0 where
  pub shown : Option Sheet
  -- the profile of the set-up that was begun, which erases the device, and whether it has succeeded
  pub device : Option (Profile × Bool)
  pub reported : Bool

-- An exit is an error with its code.
abbrev pub Command : Type 0 → Type 0
Command A = Exec Done ℕ A

-- `unwrap_or_else(|e| hsm_error(&e))` and other exits with the code 1
or_exit : {A : Type 0} → Option A → Outcome ℕ A
or_exit none = err 1
or_exit (some a) = ok a

-- `expect` and `unwrap`
or_panic : {A : Type 0} → Option A → Outcome ℕ A
or_panic none = panic crash
or_panic (some a) = ok a

check : Bool → Outcome ℕ (Unit {0})
check true = ok tt
check false = err 1

sure : Bool → Outcome ℕ (Unit {0})
sure true = ok tt
sure false = panic crash

module _ (c : Crates) (w : World) where
  read_mnemonic_from_stdin : Outcome ℕ Mnemonic
  unfolding or_exit or_panic
  read_mnemonic_from_stdin = elim (or_panic w.typed_mnemonic) [
    | ok input ↦ or_exit (c.phrase (join (split_whitespace input)))
    | err e ↦ err e
    | panic p ↦ panic p
  ]

  -- The random bytes of the device and of the operating system together give the entropy.
  generate_mnemonic : Command Mnemonic
  unfolding or_exit or_panic check
  generate_mnemonic = do
    lift (check w.opens_again)
    ikm ← lift (or_exit w.random_of_hsm)
    os ← lift (or_panic w.random_of_os)
    pure (c.from_entropy (c.hkdf_sha512 (ikm ++ os)))

  obtain_mnemonic : SetupCommand → Command Mnemonic
  unfolding read_mnemonic_from_stdin generate_mnemonic
  obtain_mnemonic cmd = if cmd.restore then lift read_mnemonic_from_stdin else generate_mnemonic

  unfoldable pub profile_of : Mnemonic → Profile
  profile_of mnemonic = record {
    roles = derive_roles_from_mnemonic c mnemonic;
    wrap_keys = derive_wrap_key_from_mnemonic c mnemonic 1 ∷ [];
  }

  unfoldable pub sheet_of : Mnemonic → Sheet
  sheet_of mnemonic = record {
    mnemonic = mnemonic;
    operator_password = role_password c mnemonic "operator";
    auditor_password = role_password c mnemonic "auditor";
    validator_password = role_password c mnemonic "validator";
    wrapkey_hex = c.hex_encode (wrap_secret c mnemonic 1);
  }

  show : Sheet → Command (Unit {0})
  show sheet s = (ok tt, record s { shown = some sheet })

  is_yes : String → Bool
  is_yes choice = str_eq (trim choice) "y" || str_eq (trim choice) "Y"

  unfoldable pub prompt_for_user_approval : Outcome ℕ (Unit {0})
  unfolding or_panic check is_yes
  prompt_for_user_approval = elim (or_panic w.typed_choice) [
    | ok choice ↦ check (is_yes choice)
    | err e ↦ err e
    | panic p ↦ panic p
  ]

  erase_device_and_init_with_profile : Profile → Command (Unit {0})
  unfolding check
  erase_device_and_init_with_profile profile s =
      (check w.erases, record s { device = some (profile, w.erases) })

  write_report : SetupCommand → Command (Unit {0})
  unfolding sure
  write_report cmd s =
      if not cmd.write_report
      then (ok tt, s)
      else if not w.report_created
      then (panic crash, s)
      else if not w.report_written
      then (panic crash, s)
      else (ok tt, record s { reported = true })

  provision : SetupCommand → Mnemonic → Command (Unit {0})
  unfolding prompt_for_user_approval erase_device_and_init_with_profile write_report profile_of
  provision cmd mnemonic = do
    lift prompt_for_user_approval
    erase_device_and_init_with_profile (profile_of mnemonic)
    write_report cmd

  unfoldable pub run : SetupCommand → Command (Unit {0})
  unfolding check or_panic obtain_mnemonic show sheet_of provision
  run cmd = do
    lift (check w.opens)
    serial ← lift (or_panic w.device_info)
    mnemonic ← obtain_mnemonic cmd
    show (sheet_of mnemonic)
    if cmd.print_only then lift (err 0) else provision cmd mnemonic
