-- ===== src/Session/Limits.antt =====
-- The maximal height, and when `Session::sign` (src/session.rs) does sign.
use tmkms.Prelude.{ℕ, ◌<◌, ◌^◌, ◌≡◌, false, none, some, arith, ok, err}
use tmkms.Prelude.Int.{ℤ, pos, ◌<ℤ◌}
use tmkms.Error.{exceed_max_height}
use tmkms.Tendermint.{Bytes, ConsensusState}
use tmkms.Config.Validator.{ValidatorConfig}
use tmkms.KeyRing.{sign_ed25519}
use tmkms.Chain.{Chain}
use tmkms.Chain.Registry.{get_chain}
use tmkms.Chain.State.{Weather}
use tmkms.Amino.SignedMsg.{SignedMsgType, TendermintRequest}
use tmkms.Session.{
  Platform, Kms, validated, store, check_max_height, find_chain, locked_update,
  update_consensus_state, parse_request, report, respond, sign,
}
use tmkms.Session.Sign.{asked}

module _ {R : Type 0} ⦃request : TendermintRequest R⦄ (env : Platform) (w : Weather) where
  -- A valid request above the configured maximal height is refused, and nothing changes, if the
  -- maximal height fits an i64.
  pub sign-above_max :
      (config : ValidatorConfig) (r : R) (kms : Kms) (max : ℕ) (height : ℤ)
      → request.validate r ≡ none
      → config.max_height ≡ some max
      → max < 2 ^ 63
      → request.height r ≡ some height
      → pos max <ℤ height
      → sign env w config r kms ≡ (err exceed_max_height, kms)
  unfolding sign validated check_max_height
  sign-above_max config r kms max height valid limit fits at above = ground arith

  update-granted :
      (config : ValidatorConfig) (chain : Chain) (r : R) (kms : Kms) (ty : SignedMsgType)
      (new : ConsensusState)
      → chain.poisoned ≡ false
      → parse_request env.tendermint r ≡ ok (ty, new)
      → (asked env w kms chain new).0 ≡ ok tt
      → update_consensus_state env w config chain r kms
        ≡ (ok none, store env w config.chain_id chain (asked env w kms chain new) kms)
  unfolding update_consensus_state locked_update report
  update-granted config chain r kms ty new sound parsed granted = ground arith

  respond-signs :
      (config : ValidatorConfig) (chain : Chain) (r : R) (kms : Kms) (ty : SignedMsgType)
      (new : ConsensusState) (message signature : Bytes)
      → parse_request env.tendermint r ≡ ok (ty, new)
      → request.sign_bytes env.codec config.chain_id config.protocol_version r ≡ ok message
      → sign_ed25519 env.keys none message chain.keyring ≡ ok signature
      → respond env w config chain r none kms
        ≡ (ok (request.build_response none (request.set_signature signature r)), kms)
  unfolding respond
  respond-signs config chain r kms ty new message signature parsed encoded signed = ground arith

  -- A request is signed if it is valid and within the maximal height, its chain is known and sound,
  -- the state grants the update, and its bytes can be encoded and signed.
  pub sign_signs :
      (config : ValidatorConfig) (r : R) (kms : Kms) (chain : Chain) (ty : SignedMsgType)
      (new : ConsensusState) (message signature : Bytes)
      → request.validate r ≡ none
      → check_max_height config r ≡ ok tt
      → get_chain env.ids config.chain_id kms.registry ≡ some chain
      → chain.poisoned ≡ false
      → parse_request env.tendermint r ≡ ok (ty, new)
      → (asked env w kms chain new).0 ≡ ok tt
      → request.sign_bytes env.codec config.chain_id config.protocol_version r ≡ ok message
      → sign_ed25519 env.keys none message chain.keyring ≡ ok signature
      → sign env w config r kms ≡ (
        ok (request.build_response none (request.set_signature signature r)),
        store env w config.chain_id chain (asked env w kms chain new) kms,
      )
  unfolding sign validated find_chain
  sign_signs config r kms chain ty new message signature valid within known sound parsed granted
        encoded signed =
      ground (
        arith,
        update-granted config chain r kms ty new sound parsed granted,
        respond-signs config chain r
            (store env w config.chain_id chain (asked env w kms chain new) kms) ty new message
            signature parsed encoded signed,
      )
