-- ===== src/Amino/Vote.antt =====
-- src/amino_types/vote.rs
pub mod Laws
use tmkms.Prelude.{
  ℕ, ◌%◌, ◌^◌, String, Bool, true, false, not, Option, none, some, [], ◌==◌, length, map_option,
  and_then, is_some, if◌then◌else◌, Outcome, ok, err, panic, crash,
}
use tmkms.Prelude.Int.{ℤ, pos, negsuc, ltb_ℤ, cast_unsigned, cast_signed}
use tmkms.Tendermint.{Bytes, ConsensusState, Tendermint}
use tmkms.Config.Validator.{ProtocolVersion, is_protobuf}
use tmkms.Amino.Messages.{
  BlockId, TimeMsg, Vote, CanonicalVote, SignVoteRequest, RemoteError, Response, signed_vote,
}
use tmkms.Amino.Messages.Proto
use tmkms.Amino.BlockId.{
  ValidationError, invalid_message_type, missing_consensus_message, negative_height, negative_round,
  negative_validator_index, invalid_validator_address_size, parse_block_id, validate_block_id,
  canonical_block_id, proto_canonical_block_id, to_proto_timestamp,
}
use tmkms.Amino.SignedMsg.{
  SignedMsgType, pre_vote, pre_commit, to_u32, EncodeError, encode_failed, Codec, TendermintRequest,
  or_panic, or_error,
}

abbrev pub validator_addr_size : ℕ
validator_addr_size = 20

unfoldable pub vote_msg_type : Vote → Option SignedMsgType
unfolding to_u32
vote_msg_type v =
    if v.vote_type == to_u32 pre_vote
    then some pre_vote
    else if v.vote_type == to_u32 pre_commit
    then some pre_commit
    else none

unfoldable pub validate_vote : Vote → Option ValidationError
unfolding vote_msg_type validate_block_id
validate_vote v =
    if not (is_some (vote_msg_type v))
    then some invalid_message_type
    else if ltb_ℤ v.height (pos 0)
    then some negative_height
    else if ltb_ℤ v.round (pos 0)
    then some negative_round
    else if ltb_ℤ v.validator_index (pos 0)
    then some negative_validator_index
    else if not (length v.validator_address == validator_addr_size)
    then some invalid_validator_address_size
    else and_then v.block_id validate_block_id

-- `v.round as u16`
abbrev pub as_u16 : ℤ → ℕ
as_u16 = cast_unsigned (2 ^ 16)

-- A block ID that cannot be parsed counts as none.
unfoldable pub vote_consensus_state : Tendermint → Vote → Option ConsensusState
unfolding parse_block_id
vote_consensus_state t v = and_then (t.height_try_from v.height) (λ h. some (record {
  height = h;
  round = as_u16 v.round;
  step = pos 6;
  block_id = and_then v.block_id (parse_block_id t);
}))

-- `CanonicalVote::new`; a missing time becomes the zero time of Go
unfoldable pub canonical_vote : Vote → String → CanonicalVote
unfolding canonical_block_id
canonical_vote v chain_id = record {
  vote_type = v.vote_type;
  height = v.height;
  round = v.round;
  block_id = map_option canonical_block_id v.block_id;
  timestamp = elim v.timestamp [
    | none ↦ some (record { seconds = negsuc 62_135_596_799; nanos = pos 0 })
    | some ts ↦ some ts
  ];
  chain_id = chain_id;
}

unfoldable pub proto_canonical_vote : Vote → String → Proto.CanonicalVote
unfolding proto_canonical_block_id to_proto_timestamp
proto_canonical_vote v chain_id = record {
  vote_type = cast_signed (2 ^ 31) v.vote_type;
  height = v.height;
  round = v.round;
  block_id = proto_canonical_block_id v.block_id;
  timestamp = map_option to_proto_timestamp v.timestamp;
  chain_id = chain_id;
}

unfoldable pub sign_vote_bytes :
    Codec → String → ProtocolVersion → SignVoteRequest → Outcome EncodeError Bytes
unfolding canonical_vote proto_canonical_vote is_protobuf
sign_vote_bytes codec chain_id version req = elim req.vote [
  | none ↦ panic crash
  | some v ↦
      let vote : Vote = record v { signature = [] } in
      if is_protobuf version
      then or_panic (codec.proto_vote (proto_canonical_vote vote chain_id))
      else or_error encode_failed (codec.amino_vote (canonical_vote vote chain_id))
]

unfoldable pub build_vote_response : Option RemoteError → SignVoteRequest → Response
build_vote_response none req = signed_vote (record { vote = req.vote; error = none })
build_vote_response (some e) req = signed_vote (record { vote = none; error = some e })

unfoldable pub validate_vote_request : SignVoteRequest → Option ValidationError
unfolding validate_vote
validate_vote_request req = elim req.vote [
  | none ↦ some missing_consensus_message
  | some v ↦ validate_vote v
]

unfoldable pub set_vote_signature : Bytes → SignVoteRequest → SignVoteRequest
set_vote_signature sig req = record req {
  vote = map_option (λ (v : Vote). record v { signature = sig }) req.vote;
}

instance abbrev pub vote_request : TendermintRequest SignVoteRequest
vote_request = record {
  sign_bytes = sign_vote_bytes;
  set_signature = set_vote_signature;
  validate = validate_vote_request;
  consensus_state = λ t req. and_then req.vote (vote_consensus_state t);
  height = λ req. map_option (λ (v : Vote). v.height) req.vote;
  msg_type = λ req. and_then req.vote vote_msg_type;
  build_response = build_vote_response;
}
