-- ===== src/Session.antt =====
-- src/session.rs: a session with a validator signs what the state of the chain lets through.
pub mod Sign
pub mod Recorded
pub mod Loop
pub mod Limits
pub mod Answers
pub mod Unparsed
pub mod Cases
pub mod Trace
pub mod Interleave
pub mod Lifetime
use tmkms.Prelude.{
  ℕ, ◌^◌, String, Bool, true, false, Option, none, some, if◌then◌else◌, Outcome, ok, err, panic,
  crash, poisoned_lock, map_err, str_eq,
}
use tmkms.Prelude.Exec.{Exec, pure, lift, ◌>>=◌, ◌>>◌}
use tmkms.Prelude.Int.{ℤ, pos, ltb_ℤ, cast_signed}
use tmkms.Error.{ErrorKind, signing_error, exceed_max_height, protocol_error, double_sign}
use tmkms.Tendermint.{Bytes, ConsensusState, Tendermint}
use tmkms.Map.{KeyOrd, put}
use tmkms.KeyRing.{KeyRing, sign_ed25519}
use tmkms.KeyRing.Keys.{TendermintKey}
use tmkms.Config.Validator.{ValidatorConfig}
use tmkms.Chain.{Chain}
use tmkms.Chain.Registry.{Registry, get_chain}
use tmkms.Chain.State
use tmkms.Chain.State.{State, StateErrorKind, Weather, Disk, Serde}
use tmkms.Amino.Messages
use tmkms.Amino.Messages.{RemoteError, Response}
use tmkms.Amino.SignedMsg.{SignedMsgType, pre_vote, pre_commit, proposal, Codec, TendermintRequest}

-- What the code calls and does not implement.
pub record Platform : Type 0 where
  pub tendermint : Tendermint
  pub io : Serde
  pub codec : Codec
  pub ids : KeyOrd String
  pub keys : KeyOrd TendermintKey

-- What sessions share: the registry, and the files that hold the states of its chains.
pub record Kms : Type 0 where
  pub registry : Registry
  pub files : String → Disk

unfoldable pub write_file : String → Disk → (String → Disk) → String → Disk
write_file path disk files p = if str_eq p path then disk else files p

-- `max_height.value() as i64`
abbrev pub as_i64 : ℕ → ℤ
as_i64 = cast_signed (2 ^ 63)

-- The step that a message type stands for, which replaces the one that the request gives.
unfoldable pub step_of : SignedMsgType → ℤ
step_of proposal = pos 0
step_of pre_vote = pos 1
step_of pre_commit = pos 2

module _ {R : Type 0} ⦃request : TendermintRequest R⦄ where
  unfoldable pub parse_request : Tendermint → R → Outcome ErrorKind (SignedMsgType × ConsensusState)
  unfolding step_of
  parse_request t r = elim (request.msg_type r) [
    | none ↦ err protocol_error
    | some ty ↦ elim (request.consensus_state t r) [
      | none ↦ err protocol_error
      | some c ↦ ok (ty, record c { step = step_of ty })
    ]
  ]

  unfoldable pub check_max_height : ValidatorConfig → R → Outcome ErrorKind (Unit {0})
  check_max_height config r = elim config.max_height [
    | none ↦ ok tt
    | some max_height ↦ elim (request.height r) [
      | none ↦ ok tt
      | some height ↦ if ltb_ℤ (as_i64 max_height) height then err exceed_max_height else ok tt
    ]
  ]

  unfoldable pub validated : R → Outcome ErrorKind (Unit {0})
  validated r = elim (request.validate r) [ none ↦ ok tt | some e ↦ err signing_error ]

-- `StateError` turns into an `Error` of the kind DoubleSign, whatever its own kind.
unfoldable pub from_state_error : StateErrorKind → ErrorKind
from_state_error e = double_sign

-- The answer to the update of the state: a double signing is reported, other errors are passed on.
unfoldable pub report :
    ConsensusState → Outcome StateErrorKind (Unit {0}) → Outcome ErrorKind (Option RemoteError)
unfolding from_state_error
report new (ok _) = ok none
report new (err State.double_sign) = ok (some (Messages.double_sign (pos new.height)))
report new (err e) = err (from_state_error e)
report new (panic p) = panic p

-- A panic while the lock is held poisons it.
abbrev pub poisons {ℓ} : {A : Type ℓ} → Outcome StateErrorKind A → Bool
poisons (ok a) = false
poisons (err e) = false
poisons (panic p) = true

module _ (env : Platform) (w : Weather) where
  -- The chain stays under its key in the registry, where every session sees its new state.
  unfoldable pub store :
      String → Chain → Outcome StateErrorKind (Unit {0}) × State × Disk → Kms → Kms
  unfolding write_file
  store key chain (out, state, disk) kms = record {
    registry =
        put env.ids key (record chain { state = state; poisoned = poisons out }) kms.registry;
    files = write_file chain.state.state_file_path disk kms.files;
  }

  unfoldable pub locked_update :
      String → Chain → ConsensusState → Exec Kms ErrorKind (Option RemoteError)
  locked_update key chain new kms =
      if chain.poisoned
      then (panic poisoned_lock, kms)
      else (let result =
            State.update_consensus_state env.io w env.tendermint new chain.state
              (kms.files chain.state.state_file_path) in
          (report new result.0, store key chain result kms))

  unfoldable pub find_chain : ValidatorConfig → Exec Kms ErrorKind Chain
  find_chain config kms = elim (get_chain env.ids config.chain_id kms.registry) [
    | none ↦ (panic crash, kms)
    | some chain ↦ (ok chain, kms)
  ]

  module _ {R : Type 0} ⦃request : TendermintRequest R⦄ where
    unfoldable pub update_consensus_state :
        ValidatorConfig → Chain → R → Exec Kms ErrorKind (Option RemoteError)
    update_consensus_state config chain r = do
      (ty, new) ← lift (parse_request env.tendermint r)
      locked_update config.chain_id chain new

    -- `log_signing_request(..).unwrap()`
    logged : R → Outcome ErrorKind (Unit {0})
    logged r = elim (parse_request env.tendermint r) [
      | ok _ ↦ ok tt
      | err e ↦ panic crash
      | panic p ↦ panic p
    ]

    unfoldable pub respond :
        ValidatorConfig → Chain → R → Option RemoteError → Exec Kms ErrorKind Response
    unfolding logged
    respond config chain r (some e) = pure (request.build_response (some e) r)
    respond config chain r none = do
      to_sign ← lift (
          map_err (λ _. protocol_error)
            (request.sign_bytes env.codec config.chain_id config.protocol_version r))
      signature ← lift (sign_ed25519 env.keys none to_sign chain.keyring)
      lift (logged r)
      pure (request.build_response none (request.set_signature signature r))

    unfoldable pub sign : ValidatorConfig → R → Exec Kms ErrorKind Response
    sign config r = do
      lift (validated r)
      lift (check_max_height config r)
      chain ← find_chain config
      remote ← update_consensus_state config chain r
      respond config chain r remote
