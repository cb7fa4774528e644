-- ===== src/Commands/Init/Config.antt =====
-- src/commands/init/config_builder.rs, with all features: the text of the configuration file. The texts
-- of the templates are data of the repository (src/commands/init/templates/).
use Prim.Native.Char.{code}
use Prim.Native.String.{◌++◌ as append}
use tmkms.Prelude.{
  ℕ, zero, suc, ◌+◌, ◌-◌, ◌%◌, ◌/◌, String, Bool, true, false, ◌&&◌, ◌==◌, ltb, List, [], ◌∷◌,
}
use tmkms.KeyUtils.{trim_end}
use tmkms.Commands.Init.{Network, chain_id, schema_file}

pub record Templates : Type 0 where
  pub network : Network → String
  pub yubihsm : String
  pub yubihsm_server : String
  pub ledgertm : String
  pub softsign_consensus : String
  pub softsign_account : String
  pub fortanixdsm : String
  pub validator : String
  pub tx_signer : String

starts_with : String → String → Bool
starts_with String.[] s = true
starts_with (String.◌∷◌ c pattern) String.[] = false
starts_with (String.◌∷◌ c pattern) (String.◌∷◌ d s) = (code c == code d) && starts_with pattern s

size : String → ℕ
size String.[] = 0
size (String.◌∷◌ c s) = suc (size s)

-- `str::replace` of a text that is not empty; the characters of a match are skipped.
replace_from : String → String → ℕ → String → String
unfolding starts_with size
replace_from pattern new skip String.[] = String.[]
replace_from pattern new (suc skip) (String.◌∷◌ c s) = replace_from pattern new skip s
replace_from pattern new zero (String.◌∷◌ c s) = elim (starts_with pattern (String.◌∷◌ c s)) [
  | true ↦ append new (replace_from pattern new (size pattern - 1) s)
  | false ↦ String.◌∷◌ c (replace_from pattern new zero s)
]

substituted : List (String × String) → String → String
unfolding replace_from
substituted [] text = text
substituted ((name, replacement) ∷ rest) text =
    substituted rest (replace_from name replacement zero text)

unfoldable pub format_template : String → List (String × String) → String
unfolding substituted
format_template template substitutions = substituted substitutions (trim_end template)

digit : ℕ → String
digit zero = "0"
digit (suc zero) = "1"
digit (suc (suc zero)) = "2"
digit (suc (suc (suc zero))) = "3"
digit (suc (suc (suc (suc zero)))) = "4"
digit (suc (suc (suc (suc (suc zero))))) = "5"
digit (suc (suc (suc (suc (suc (suc zero)))))) = "6"
digit (suc (suc (suc (suc (suc (suc (suc zero))))))) = "7"
digit (suc (suc (suc (suc (suc (suc (suc (suc zero)))))))) = "8"
digit _ = "9"

-- `{}` of a number, on fuel that is at least the number of its digits.
decimal : ℕ → ℕ → String
unfolding digit
decimal zero n = digit (n % 10)
decimal (suc fuel) n = elim (ltb n 10) [
  | true ↦ digit n
  | false ↦ append (decimal fuel (n / 10)) (digit (n % 10))
]

concat : List String → String
concat [] = ""
concat (s ∷ ss) = append s (concat ss)

-- `for network in networks { .. }`
each : (Network → String) → List Network → String
each f [] = ""
each f (n ∷ ns) = append (f n) (each f ns)

section_comment : String → String
unfolding concat
section_comment section = concat ("## " ∷ section ∷ "\n\n" ∷ [])

-- One entry for each network and each type of key, and the next key ID.
key_entry : ℕ → String → Network → String
unfolding concat decimal
key_entry key_id key_type n = concat (
    "    { key = "
    ∷ decimal key_id key_id
    ∷ ", type = \""
    ∷ key_type
    ∷ "\", chain_ids = [\""
    ∷ chain_id n
    ∷ "\"] }, \n"
    ∷ [])

key_entries : ℕ → List Network → String
unfolding key_entry
key_entries key_id [] = ""
key_entries key_id (n ∷ ns) = concat (
    key_entry key_id "consensus" n
    ∷ key_entry (key_id + 1) "account" n
    ∷ key_entries (key_id + 2) ns
    ∷ [])

module _ (templates : Templates) (kms_home : String) (networks : List Network) where
  -- `add_template_with_chain_id`
  template_with_chain_id : String → String
  unfolding format_template each
  template_with_chain_id template =
      each
        (λ n.
          append
            (format_template template (("$KMS_HOME", kms_home) ∷ ("$CHAIN_ID", chain_id n) ∷ []))
            "\n\n")
        networks

  chain_config : String
  unfolding format_template each section_comment
  chain_config = append (section_comment "Chain Configuration") (
      each
        (λ n. append (format_template (templates.network n) (("$KMS_HOME", kms_home) ∷ [])) "\n\n")
        networks)

  yubihsm_config : String
  unfolding format_template key_entries concat
  yubihsm_config = concat (
      "### YubiHSM2 Provider Configuration\n\n"
      ∷ format_template templates.yubihsm (("$KMS_HOME", kms_home) ∷ [])
      ∷ "\nkeys = [\n"
      ∷ key_entries 1 networks
      ∷ "]\n"
      ∷ templates.yubihsm_server
      ∷ "\n"
      ∷ [])

  provider_config : String
  unfolding yubihsm_config template_with_chain_id section_comment concat
  provider_config = concat (
      section_comment "Signing Provider Configuration"
      ∷ yubihsm_config
      ∷ "### Ledger Provider Configuration\n\n"
      ∷ template_with_chain_id templates.ledgertm
      ∷ "### Software-based Signer Configuration\n\n"
      ∷ template_with_chain_id templates.softsign_consensus
      ∷ template_with_chain_id templates.softsign_account
      ∷ "### Fortanix DSM Signer Configuration\n\n"
      ∷ template_with_chain_id templates.fortanixdsm
      ∷ [])

  validator_config : String
  unfolding template_with_chain_id section_comment
  validator_config =
      append (section_comment "Validator Configuration")
        (template_with_chain_id templates.validator)

  tx_signer_config : String
  unfolding format_template each section_comment
  tx_signer_config = append (section_comment "Transaction Signer Configuration") (
      each
        (λ n.
          append
            (format_template templates.tx_signer (
              ("$KMS_HOME", kms_home)
              ∷ ("$CHAIN_ID", chain_id n)
              ∷ ("$SCHEMA", schema_file n)
              ∷ []))
            "\n\n")
        networks)

  -- `ConfigBuilder::new` and `generate`
  unfoldable pub generate : String
  unfolding chain_config provider_config validator_config tx_signer_config concat
  generate = concat (
      "# Tendermint KMS configuration file" ∷ "\n\n" ∷ chain_config ∷ provider_config
      ∷ validator_config ∷ tx_signer_config ∷ [])
