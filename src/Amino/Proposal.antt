-- ===== src/Amino/Proposal.antt =====
-- src/amino_types/proposal.rs
pub mod Laws
use tmkms.Prelude.{
  ℕ, ◌^◌, String, Bool, not, Option, none, some, [], ◌==◌, map_option, and_then, if◌then◌else◌,
  Outcome, panic, crash,
}
use tmkms.Prelude.Int.{ℤ, pos, negsuc, ltb_ℤ, cast_signed}
use tmkms.Tendermint.{Bytes, ConsensusState, Tendermint}
use tmkms.Config.Validator.{ProtocolVersion, is_protobuf}
use tmkms.Amino.Messages.{
  Proposal, CanonicalProposal, SignProposalRequest, RemoteError, Response, signed_proposal,
}
use tmkms.Amino.Messages.Proto
use tmkms.Amino.BlockId.{
  ValidationError, invalid_message_type, missing_consensus_message, negative_height, negative_round,
  negative_pol_round, parse_block_id, canonical_block_id, proto_canonical_block_id,
  to_proto_timestamp,
}
use tmkms.Amino.SignedMsg
use tmkms.Amino.SignedMsg.{
  SignedMsgType, to_u32, EncodeError, encode_failed, Codec, TendermintRequest, or_panic, or_error,
}
use tmkms.Amino.Vote.{as_u16}

unfoldable pub validate_proposal : Proposal → Option ValidationError
unfolding to_u32
validate_proposal p =
    if not (p.msg_type == to_u32 SignedMsg.proposal)
    then some invalid_message_type
    else if ltb_ℤ p.height (pos 0)
    then some negative_height
    else if ltb_ℤ p.round (pos 0)
    then some negative_round
    else if ltb_ℤ p.pol_round (negsuc 0)
    then some negative_pol_round
    else none

unfoldable pub proposal_consensus_state : Tendermint → Proposal → Option ConsensusState
unfolding parse_block_id
proposal_consensus_state t p = and_then (t.height_try_from p.height) (λ h. some (record {
  height = h;
  round = as_u16 p.round;
  step = pos 3;
  block_id = and_then p.block_id (parse_block_id t);
}))

unfoldable pub canonical_proposal : Proposal → String → CanonicalProposal
unfolding canonical_block_id to_u32
canonical_proposal p chain_id = record {
  msg_type = to_u32 SignedMsg.proposal;
  height = p.height;
  round = p.round;
  pol_round = p.pol_round;
  block_id = map_option canonical_block_id p.block_id;
  timestamp = p.timestamp;
  chain_id = chain_id;
}

unfoldable pub proto_canonical_proposal : Proposal → String → Proto.CanonicalProposal
unfolding proto_canonical_block_id to_proto_timestamp to_u32
proto_canonical_proposal p chain_id = record {
  msg_type = cast_signed (2 ^ 31) (to_u32 SignedMsg.proposal);
  height = p.height;
  round = p.round;
  pol_round = p.pol_round;
  block_id = proto_canonical_block_id p.block_id;
  timestamp = map_option to_proto_timestamp p.timestamp;
  chain_id = chain_id;
}

unfoldable pub sign_proposal_bytes :
    Codec → String → ProtocolVersion → SignProposalRequest → Outcome EncodeError Bytes
unfolding canonical_proposal proto_canonical_proposal is_protobuf
sign_proposal_bytes codec chain_id version req = elim req.proposal [
  | none ↦ panic crash
  | some p ↦
      let unsigned : Proposal = record p { signature = [] } in
      if is_protobuf version
      then or_panic (codec.proto_proposal (proto_canonical_proposal unsigned chain_id))
      else or_error encode_failed (codec.amino_proposal (canonical_proposal unsigned chain_id))
]

unfoldable pub build_proposal_response : Option RemoteError → SignProposalRequest → Response
build_proposal_response none req =
    signed_proposal (record { proposal = req.proposal; error = none })
build_proposal_response (some e) req = signed_proposal (record { proposal = none; error = some e })

unfoldable pub validate_proposal_request : SignProposalRequest → Option ValidationError
unfolding validate_proposal
validate_proposal_request req = elim req.proposal [
  | none ↦ some missing_consensus_message
  | some p ↦ validate_proposal p
]

unfoldable pub set_proposal_signature : Bytes → SignProposalRequest → SignProposalRequest
set_proposal_signature sig req = record req {
  proposal = map_option (λ (p : Proposal). record p { signature = sig }) req.proposal;
}

-- Every proposal request is of the type `Proposal`, also one with no proposal in it.
instance abbrev pub proposal_request : TendermintRequest SignProposalRequest
proposal_request = record {
  sign_bytes = sign_proposal_bytes;
  set_signature = set_proposal_signature;
  validate = validate_proposal_request;
  consensus_state = λ t req. and_then req.proposal (proposal_consensus_state t);
  height = λ req. map_option (λ (p : Proposal). p.height) req.proposal;
  msg_type = λ req. some SignedMsg.proposal;
  build_response = build_proposal_response;
}
