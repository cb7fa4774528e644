-- ===== src/Commands/Ledger.antt =====
-- src/commands/ledger.rs: the command that sets the height and the round of a Ledger device, by a
-- signature of a message with them.
pub mod Laws
use tmkms.Prelude.{
  ℕ, ◌≡◌, refl, String, Option, none, some, List, [], ◌∷◌, arith, Outcome, ok, err, panic, crash,
}
use tmkms.Prelude.Exec.{Exec, lift, ◌>>=◌, ◌>>◌}
use tmkms.Prelude.Int.{ℤ, pos}
use tmkms.Error.{ErrorKind, signing_error}
use tmkms.Tendermint.{Bytes}
use tmkms.KeyRing.{KeyRing, sign_ed25519}
use tmkms.Config.Validator.{ValidatorConfig, ProtocolVersion, legacy}
use tmkms.Chain.{Chain}
use tmkms.Chain.State.{State, Weather}
use tmkms.Chain.Registry.{get_chain}
use tmkms.Amino.Messages.{Vote, SignVoteRequest}
use tmkms.Amino.BlockId.{invalid_message_type}
use tmkms.Amino.SignedMsg.{SignedMsgType, proposal, to_u32, EncodeError}
use tmkms.Amino.Vote.{
  vote_request, vote_msg_type, validate_vote, validate_vote_request, sign_vote_bytes,
}
use tmkms.Session.{Platform, Kms, validated, sign}

pub record InitCommand : Type 0 where
  pub height : Option ℤ
  pub round : Option ℤ

-- The rest of the vote is `Default::default()`.
unfoldable pub init_vote : ℤ → ℤ → Vote
unfolding to_u32
init_vote height round = record {
  vote_type = to_u32 proposal;
  height = height;
  round = round;
  block_id = none;
  timestamp = none;
  validator_address = [];
  validator_index = pos 0;
  signature = [];
}

abbrev pub init_request : ℤ → ℤ → SignVoteRequest
init_request height round = record { vote = some (init_vote height round) }

-- An `unwrap`.
or_crash : {A : Type 0} → Option A → Outcome ℕ A
or_crash none = panic crash
or_crash (some a) = ok a

unwrapped : {E A : Type 0} → Outcome E A → Outcome ℕ A
unwrapped (ok a) = ok a
unwrapped (err e) = panic crash
unwrapped (panic p) = panic p

-- The chain of the first validator; an index out of range panics.
unfoldable pub first_chain : List ValidatorConfig → Outcome ℕ String
first_chain [] = panic crash
first_chain (v ∷ vs) = ok v.chain_id

module _ (env : Platform) where
  -- The signature, which the program drops.
  sign_init : String → ℤ → ℤ → Chain → Outcome ℕ Bytes
  unfolding unwrapped
  sign_init chain_id height round chain =
      elim (unwrapped (sign_vote_bytes env.codec chain_id legacy (init_request height round))) [
        | ok to_sign ↦ unwrapped (sign_ed25519 env.keys none to_sign chain.keyring)
        | err e ↦ err e
        | panic p ↦ panic p
      ]

  -- After the configuration is loaded into `kms`.
  unfoldable pub init : List ValidatorConfig → InitCommand → Exec Kms ℕ Bytes
  unfolding or_crash first_chain sign_init
  init validators command kms =
      (do
        chain_id ← lift (first_chain validators)
        chain ← lift (or_crash (get_chain env.ids chain_id kms.registry))
        height ← lift (or_crash command.height)
        round ← lift (or_crash command.round)
        lift (sign_init chain_id height round chain))
        kms

  -- `run`: a configuration that cannot be loaded ends the program.
  unfoldable pub run :
      Outcome ErrorKind (Unit {0}) → List ValidatorConfig → InitCommand → Exec Kms ℕ Bytes
  run (ok _) validators command kms = init validators command kms
  run (err e) validators command kms = (err 1, kms)
  run (panic p) validators command kms = (panic p, kms)
