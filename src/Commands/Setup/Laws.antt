-- ===== src/Commands/Setup/Laws.antt =====
-- What the set-up of a YubiHSM does (src/commands/yubihsm/setup.rs).
use tmkms.Prelude.{
  String, Option-cases, str_eq_iff, Option-cases, str_eq_iff, if◌then◌else◌, ◌≡◌, refl, ap, ◌⊎◌,
  inl, inr, Bool, true, false, none, some, arith, ok, err,
}
use tmkms.Prelude.Exec.{lift, ◌>>◌}
use tmkms.Prelude.Exec.Keeps.{Keeps-step}
use tmkms.Commands.Text.{trim}
use tmkms.Commands.Setup.Derive.{Crates, Mnemonic}
use tmkms.Commands.Setup.{
  is_yes, SetupCommand, World, Done, check, or_panic, obtain_mnemonic, show, generate_mnemonic,
  or_exit, profile_of, sheet_of, provision, prompt_for_user_approval,
  erase_device_and_init_with_profile, write_report, run,
}

-- Nothing has happened yet.
abbrev pub untouched : Done
untouched = record { shown = none; device = none; reported = false }

module _ (c : Crates) (w : World) (cmd : SetupCommand) where
  -- What may have happened to the device: nothing, or an approved set-up from the mnemonic that was
  -- shown was begun, and has succeeded or failed.
  abbrev pub Approved : Type 0
  Approved =
      (choice : String) × (w.typed_choice ≡ some choice)
      × ((trim choice ≡ "y") ⊎ (trim choice ≡ "Y"))

  abbrev pub Explained : Done → Type 0
  Explained s =
      (s.device ≡ none)
      ⊎ ((mnemonic : Mnemonic) × (s.device ≡ some (profile_of c w mnemonic, w.erases))
          × (s.shown ≡ some (sheet_of c w mnemonic))
          × (cmd.print_only ≡ false)
          × Approved)

  prompt-Approved : prompt_for_user_approval c w ≡ ok tt → Approved
  unfolding prompt_for_user_approval or_panic check is_yes
  prompt-Approved h = elim (Option-cases w.typed_choice) [
    | inl missing ↦ absurd (ground arith)
    | inr (choice, typed) ↦
        (choice, typed, ground (arith, str_eq_iff (trim choice) "y", str_eq_iff (trim choice) "Y"))
  ]

  obtain_mnemonic-same : (s : Done) → (obtain_mnemonic c w cmd s).1 ≡ s
  unfolding obtain_mnemonic generate_mnemonic or_exit or_panic check
  obtain_mnemonic-same s = ground arith

  write_report-Explained : (s : Done) → Explained s → Explained (write_report c w cmd s).1
  unfolding write_report
  write_report-Explained s h = ground arith

  erase-Explained :
      (mnemonic : Mnemonic) (s : Done)
      → s.device ≡ none
      → s.shown ≡ some (sheet_of c w mnemonic)
      → cmd.print_only ≡ false
      → Approved
      → Explained (erase_device_and_init_with_profile c w (profile_of c w mnemonic) s).1
  unfolding erase_device_and_init_with_profile
  erase-Explained mnemonic s clean shown printed approved =
      inr (mnemonic, refl, shown, printed, approved)

  provision-Explained :
      (mnemonic : Mnemonic) (s : Done)
      → s.device ≡ none
      → s.shown ≡ some (sheet_of c w mnemonic)
      → cmd.print_only ≡ false
      → Explained (provision c w cmd mnemonic s).1
  unfolding provision
  provision-Explained mnemonic s clean shown printed =
      Keeps-step Explained (lift (prompt_for_user_approval c w))
        (λ _.
          erase_device_and_init_with_profile c w (profile_of c w mnemonic) >> write_report c w cmd)
        s (inl clean)
        (λ _ approved.
          let h = erase-Explained mnemonic s clean shown printed (prompt-Approved approved) in
          Keeps-step Explained (erase_device_and_init_with_profile c w (profile_of c w mnemonic))
            (λ _. write_report c w cmd) s h (λ _ _. write_report-Explained _ h))

  -- after the keys are shown
  decided-Explained :
      (mnemonic : Mnemonic) (s : Done) (printing : Bool)
      → cmd.print_only ≡ printing
      → s.device ≡ none
      → s.shown ≡ some (sheet_of c w mnemonic)
      → Explained ((if printing then lift (err 0) else provision c w cmd mnemonic) s).1
  decided-Explained mnemonic s true printed clean shown = inl clean
  decided-Explained mnemonic s false printed clean shown =
      provision-Explained mnemonic s clean shown printed

  -- after the mnemonic is there
  shown-Explained :
      (mnemonic : Mnemonic) (s : Done)
      → s ≡ untouched
      → Explained
          ((show c w (sheet_of c w mnemonic)
              >> (if cmd.print_only then lift (err 0) else provision c w cmd mnemonic))
            s).1
  unfolding show
  shown-Explained mnemonic s fresh =
      decided-Explained mnemonic _ cmd.print_only refl (ap (λ (d : Done). d.device) fresh) refl

  -- Erasing the device and setting it up is only begun, whether it then succeeds or fails, after the user
  -- has answered "y" or "Y", up to white space, and not where keys are only to be printed, and then with
  -- the roles and the wrap key of the very mnemonic that was shown with the passwords and the key derived
  -- from it.
  pub run-Explained : Explained (run c w cmd untouched).1
  unfolding run
  run-Explained = Keeps-step Explained (lift (check w.opens)) _ untouched (inl refl) (λ _ _.
      Keeps-step Explained (lift (or_panic w.device_info)) _ untouched (inl refl) (λ _ _.
        Keeps-step Explained (obtain_mnemonic c w cmd)
          (λ mnemonic.
            show c w (sheet_of c w mnemonic)
            >> (if cmd.print_only then lift (err 0) else provision c w cmd mnemonic))
          untouched (inl (ap (λ (d : Done). d.device) (obtain_mnemonic-same untouched)))
          (λ mnemonic _. shown-Explained mnemonic _ (obtain_mnemonic-same untouched))))
