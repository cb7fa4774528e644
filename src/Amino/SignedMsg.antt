-- ===== src/Amino/SignedMsg.antt =====
-- src/amino_types/signature.rs and the trait `TendermintRequest` of src/amino_types.rs: what the
-- session asks of a request, whichever kind it is.
use tmkms.Prelude.{
  ℕ, String, Bool, Option, none, some, ◌≡◌, ◌↔◌, arith, ◌==◌, if◌then◌else◌, Outcome,
}
use tmkms.Prelude.Int.{ℤ}
use tmkms.Tendermint.{Bytes, ConsensusState, Tendermint}
use tmkms.Config.Validator.{ProtocolVersion}
use tmkms.Amino.Messages.{CanonicalVote, CanonicalProposal, RemoteError, Response}
use tmkms.Amino.Messages.Proto
use tmkms.Amino.BlockId.{ValidationError}

pub data SignedMsgType : Type 0 where
  pre_vote pre_commit proposal : SignedMsgType

unfoldable pub to_u32 : SignedMsgType → ℕ
to_u32 pre_vote = 0x01
to_u32 pre_commit = 0x02
to_u32 proposal = 0x20

-- `SignedMsgType::from`, where `none` is the error.
unfoldable pub from_u32 : ℕ → Option SignedMsgType
from_u32 code =
    if code == 0x01
    then some pre_vote
    else if code == 0x02
    then some pre_commit
    else if code == 0x20
    then some proposal
    else none

pub data EncodeError : Type 0 where
  encode_failed : EncodeError

-- The encoders of prost and prost-amino: `encode_length_delimited` of each canonical message.
pub record Codec : Type 0 where
  pub proto_vote : Proto.CanonicalVote → Option Bytes
  pub proto_proposal : Proto.CanonicalProposal → Option Bytes
  pub amino_vote : CanonicalVote → Option Bytes
  pub amino_proposal : CanonicalProposal → Option Bytes

-- `SignableMsg` and `TendermintRequest`: `validate` gives the error, if any.
pub record TendermintRequest (R : Type 0) : Type 0 where
  pub sign_bytes : Codec → String → ProtocolVersion → R → Outcome EncodeError Bytes
  pub set_signature : Bytes → R → R
  pub validate : R → Option ValidationError
  pub consensus_state : Tendermint → R → Option ConsensusState
  pub height : R → Option ℤ
  pub msg_type : R → Option SignedMsgType
  pub build_response : Option RemoteError → R → Response

-- Encoding succeeded; a failure of the protobuf encoder is unwrapped into a panic.
abbrev pub or_panic {ℓ κ} : {E : Type ℓ} {A : Type κ} → Option A → Outcome E A
or_panic none = Outcome.panic tmkms.Prelude.crash
or_panic (some a) = Outcome.ok a

abbrev pub or_error {ℓ κ} : {E : Type ℓ} {A : Type κ} → E → Option A → Outcome E A
or_error e none = Outcome.err e
or_error e (some a) = Outcome.ok a

-- `from` gives a type back exactly for the number that `to_u32` gives it.
from_u32_iff : (code : ℕ) (ty : SignedMsgType) → (from_u32 code ≡ some ty) ↔ (code ≡ to_u32 ty)
unfolding from_u32 to_u32
from_u32_iff code pre_vote = ground arith
from_u32_iff code pre_commit = ground arith
from_u32_iff code proposal = ground arith
