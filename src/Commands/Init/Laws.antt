-- ===== src/Commands/Init/Laws.antt =====
-- What `init` (src/commands/init.rs) leaves behind.
use tmkms.Prelude.{
  ℕ, ◌≡◌, refl, sym, ap, ◌∙◌, ◌↔◌, String, true, Option, some, List, [], ◌∷◌, arith, str_eq_iff,
  Outcome, ok, err, panic,
}
use tmkms.Prelude.Exec.{Exec, lift, ◌>>◌, >>=-ok}
use tmkms.Error.{ErrorKind}
use tmkms.Tendermint.{Bytes}
use tmkms.KeyUtils.{Base64, Dalek, trim_end, generate_key, load_base64_ed25519_key}
use tmkms.KeyUtils.Laws.{load-write, load_base64_ed25519_key-ok}
use tmkms.Commands.Init.{
  Network, columbus, cosmos_hub, iris_hub, sentinel_hub, osmosis, persistence, name_of, parse,
  networks_of, Disk, System, secrets_dir_permissions, in_dir, set_dir, create_dir, set_permissions,
  canonicalize, make_home, write_config, exit_on, write_key, prepare, run,
}

known : (s : String) (n : Network) → parse s ≡ ok n → s ≡ name_of n
unfolding parse name_of
known s n h = ground (
  arith,
  str_eq_iff s "columbus",
  str_eq_iff s "cosmoshub",
  str_eq_iff s "irishub",
  str_eq_iff s "sentinelhub",
  str_eq_iff s "osmosis",
  str_eq_iff s "core",
)

-- A network is recognized exactly by its name.
parse_iff : (s : String) (n : Network) → (parse s ≡ ok n) ↔ (s ≡ name_of n)
unfolding parse name_of
parse_iff s columbus = ((λ h. known s columbus h), (λ h. rw h refl))
parse_iff s cosmos_hub = ((λ h. known s cosmos_hub h), (λ h. rw h refl))
parse_iff s iris_hub = ((λ h. known s iris_hub h), (λ h. rw h refl))
parse_iff s sentinel_hub = ((λ h. known s sentinel_hub h), (λ h. rw h refl))
parse_iff s osmosis = ((λ h. known s osmosis h), (λ h. rw h refl))
parse_iff s persistence = ((λ h. known s persistence h), (λ h. rw h refl))

exit_on-ok : (out : Outcome ErrorKind (Unit {0})) → exit_on out ≡ ok tt → out ≡ ok tt
unfolding exit_on
exit_on-ok (ok _) h = refl
exit_on-ok (err e) h = cc h
exit_on-ok (panic p) h = cc h

module _ (system : System) (base64 : Base64) (dalek : Dalek)
    (config : String → List Network → String) (seed : Bytes) where
  set_permissions-ok :
      (path : String) (mode : ℕ) (disk : Disk)
      → (set_permissions system path mode disk).0 ≡ ok tt
      → (set_permissions system path mode disk).1.dirs path ≡ some (some mode)
  unfolding set_permissions set_dir
  set_permissions-ok path mode disk h = ground (arith, str_eq_iff path path)

  write_config_keeps :
      (path text : String) (disk : Disk) → (write_config system path text disk).1.dirs ≡ disk.dirs
  unfolding write_config
  write_config_keeps path text disk = ground arith

  canonicalize-ok :
      (path : String) (disk : Disk) {home : String}
      → (canonicalize system path disk).0 ≡ ok home
      → system.canonical path ≡ some home
  unfolding canonicalize
  canonicalize-ok path disk h = ground arith

  write_key-ok :
      (path : String) (disk : Disk)
      → base64.decode (base64.encode seed) ≡ some seed
      → trim_end (base64.encode seed) ≡ base64.encode seed
      → dalek.is_secret seed ≡ true
      → (write_key system base64 path seed disk).0 ≡ ok tt
      → (load_base64_ed25519_key base64 dalek path (write_key system base64 path seed disk).1.files
          ≡ ok (record { secret = seed; public = dalek.public_of seed }))
        × ((write_key system base64 path seed disk).1.dirs ≡ disk.dirs)
  unfolding write_key generate_key
  write_key-ok path disk decodes trims is_key h =
      let wrote = exit_on-ok (generate_key base64 path seed system.key disk.files).0 h in
      let (read, _, _, _) = load-write base64 path seed system.key disk.files decodes trims wrote in
      (load_base64_ed25519_key-ok base64 dalek path _ seed read is_key, refl)

  -- What a run has left.
  pub record Prepared (output_paths : List String) (names : Option String) (after : Disk)
      : Type 0 where
    pub output_path : String
    pub home : String
    pub networks : List Network
    pub only : output_paths ≡ output_path ∷ []
    pub known_names : networks_of names ≡ ok networks
    pub at_home : system.canonical output_path ≡ some home
    -- only the owner may enter the directory of secrets, and the key in it can be read
    pub secrets : after.dirs (in_dir home "secrets") ≡ some (some secrets_dir_permissions)
    pub identity :
        load_base64_ed25519_key base64 dalek
          (in_dir (in_dir home "secrets") "kms-identity.key")
          after.files
        ≡ ok (record { secret = seed; public = dalek.public_of seed })

  -- Both are what a run with success leaves in the home directory.
  IsSafe : String → Disk → Type 0
  IsSafe home after =
      (after.dirs (in_dir home "secrets") ≡ some (some secrets_dir_permissions))
      × (load_base64_ed25519_key base64 dalek (in_dir (in_dir home "secrets") "kms-identity.key")
            after.files
          ≡ ok (record { secret = seed; public = dalek.public_of seed }))

  -- The end of `prepare`, from the permissions of the secrets on.
  last_steps : String → List Network → Exec Disk ℕ (Unit {0})
  last_steps home networks =
      set_permissions system (in_dir home "secrets") secrets_dir_permissions
      >> (write_config system (in_dir home "tmkms.toml") (config home networks)
          >> write_key system base64 (in_dir (in_dir home "secrets") "kms-identity.key") seed)

  module _ (decodes : base64.decode (base64.encode seed) ≡ some seed)
      (trims : trim_end (base64.encode seed) ≡ base64.encode seed)
      (is_key : dalek.is_secret seed ≡ true) where
    last_steps-IsSafe :
        (home : String) (networks : List Network) (disk : Disk)
        (whole : Outcome ℕ (Unit {0}) × Disk)
        → whole ≡ last_steps home networks disk
        → whole.0 ≡ ok tt
        → IsSafe home whole.1
    unfolding last_steps IsSafe
    last_steps-IsSafe home networks disk whole same h =
        let secrets = in_dir home "secrets" in
        let restrict = set_permissions system secrets secrets_dir_permissions in
        let configure = write_config system (in_dir home "tmkms.toml") (config home networks) in
        let write = write_key system base64 (in_dir secrets "kms-identity.key") seed in
        let (_, restricted, one) = >>=-ok restrict (λ _. configure >> write) disk whole same h in
        let (_, _, two) = >>=-ok configure (λ _. write) (restrict disk).1 whole one h in
        let disk' = (configure (restrict disk).1).1 in
        let answered = ap (λ (p : Outcome ℕ (Unit {0}) × Disk). p.0) (sym two) ∙ h in
        let (read, dirs) =
          write_key-ok (in_dir secrets "kms-identity.key") disk' decodes trims is_key answered in
        let left = ap (λ (p : Outcome ℕ (Unit {0}) × Disk). p.1) two in
        (
          ap (λ (d : Disk). d.dirs secrets) left
              ∙ ap (λ f. f secrets) dirs
              ∙ ap (λ f. f secrets)
                  (write_config_keeps (in_dir home "tmkms.toml") (config home networks)
                    (restrict disk).1)
              ∙ set_permissions-ok secrets secrets_dir_permissions disk restricted,
          ap
                (λ (d : Disk).
                  load_base64_ed25519_key base64 dalek (in_dir secrets "kms-identity.key") d.files)
                left
              ∙ read,
        )

    subdirs-IsSafe :
        (home : String) (networks : List Network) (disk : Disk)
        (whole : Outcome ℕ (Unit {0}) × Disk)
        → whole
          ≡ (create_dir system (in_dir home "schema")
                >> (create_dir system (in_dir home "secrets")
                    >> (create_dir system (in_dir home "state") >> last_steps home networks)))
              disk
        → whole.0 ≡ ok tt
        → IsSafe home whole.1
    subdirs-IsSafe home networks disk whole same h =
        let first = create_dir system (in_dir home "schema") in
        let second = create_dir system (in_dir home "secrets") in
        let third = create_dir system (in_dir home "state") in
        let rest = last_steps home networks in
        let (_, _, one) = >>=-ok first (λ _. second >> (third >> rest)) disk whole same h in
        let (_, _, two) = >>=-ok second (λ _. third >> rest) (first disk).1 whole one h in
        let (_, _, three) = >>=-ok third (λ _. rest) (second (first disk).1).1 whole two h in
        last_steps-IsSafe home networks _ whole three h

    -- The home directory that a run with success has prepared.
    prepare-IsSafe :
        (path : String) (networks : List Network) (disk : Disk)
        (whole : Outcome ℕ (Unit {0}) × Disk)
        → whole ≡ prepare system base64 config seed path networks disk
        → whole.0 ≡ ok tt
        → (home : String) × (system.canonical path ≡ some home) × IsSafe home whole.1
    unfolding prepare last_steps
    prepare-IsSafe path networks disk whole same h =
        let (_, _, one) = >>=-ok (make_home system path) _ disk whole same h in
        let disk' = (make_home system path disk).1 in
        let (home, at_home, two) = >>=-ok (canonicalize system path) _ disk' whole one h in
        (home, canonicalize-ok path disk' at_home, subdirs-IsSafe home networks _ whole two h)

  -- If `init` ends with success, exactly one path was given and all names are those of known
  -- networks; the directory of secrets has the permissions 0700, and the key of the secret connection
  -- in it is read as the one that was generated, if Base64 gives bytes back, its texts do not end in
  -- white space, and the seed is a secret key.
  pub run-Prepared :
      (output_paths : List String) (names : Option String) (disk : Disk)
      → base64.decode (base64.encode seed) ≡ some seed
      → trim_end (base64.encode seed) ≡ base64.encode seed
      → dalek.is_secret seed ≡ true
      → (run system base64 config seed output_paths names disk).0 ≡ ok tt
      → Prepared output_paths names (run system base64 config seed output_paths names disk).1
  unfolding run IsSafe
  run-Prepared [] names disk decodes trims is_key h = cc h
  run-Prepared (_ ∷ _ ∷ _) names disk decodes trims is_key h = cc h
  run-Prepared (path ∷ []) names disk decodes trims is_key h =
      let whole = run system base64 config seed (path ∷ []) names disk in
      let (networks, known_names, one) = >>=-ok (lift (networks_of names)) _ disk whole refl h in
      let (home, at_home, safe) =
        prepare-IsSafe decodes trims is_key path networks disk whole one h in
      record {
        output_path = path;
        home = home;
        networks = networks;
        only = refl;
        known_names = known_names;
        at_home = at_home;
        secrets = safe.0;
        identity = safe.1;
      }
