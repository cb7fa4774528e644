-- ===== src/Commands/Ledger/Laws.antt =====
-- What `ledger init` (src/commands/ledger.rs) signs, and that no session (src/session.rs) signs it.
use tmkms.Prelude.{◌≡◌, String, none, some, List, ok, err}
use tmkms.Prelude.Int.{ℤ}
use tmkms.Error.{signing_error}
use tmkms.Tendermint.{Bytes}
use tmkms.KeyRing.{sign_ed25519}
use tmkms.Config.Validator.{ValidatorConfig, legacy}
use tmkms.Chain.{Chain}
use tmkms.Chain.State.{Weather}
use tmkms.Chain.Registry.{get_chain}
use tmkms.Amino.Vote.{vote_request, sign_vote_bytes}
use tmkms.Session.{Platform, Kms, sign}
use tmkms.Commands.Ledger.{InitCommand, init_request, first_chain}

-- A message of the command, with what signed it.
pub record InitSigned (env : Platform) (validators : List ValidatorConfig) (command : InitCommand)
    (kms : Kms) (signature : Bytes) : Type 0 where
  pub chain_id : String
  pub chain : Chain
  pub height : ℤ
  pub round : ℤ
  pub message : Bytes
  pub first : first_chain validators ≡ ok chain_id
  pub known : get_chain env.ids chain_id kms.registry ≡ some chain
  pub at_height : command.height ≡ some height
  pub at_round : command.round ≡ some round
  pub encoded : sign_vote_bytes env.codec chain_id legacy (init_request height round) ≡ ok message
  pub signed : sign_ed25519 env.keys none message chain.keyring ≡ ok signature
  -- a session refuses the same request, whatever its configuration, and changes nothing
  pub refused :
      (w : Weather) (config : ValidatorConfig) (kms' : Kms)
      → sign env w config (init_request height round) kms' ≡ (err signing_error, kms')
