-- ===== src/Rpc.antt =====
-- src/rpc.rs and the prefixes of src/amino_types.rs: requests are read from the connection, and
-- responses are encoded for it.
pub mod Laws
use tmkms.Prelude.{
  ℕ, ◌^◌, String, Bool, true, false, not, Option, none, some, List, [], ◌∷◌, ◌==◌, ltb, length,
  take, drop, map_option, if◌then◌else◌, Outcome, ok, err, panic, ◌>>=◌,
}
use tmkms.Prelude.Int.{ℤ, pos, cast_unsigned, cast_signed, cast_narrow}
use tmkms.Error.{ErrorKind, io_error, protocol_error}
use tmkms.Tendermint.{Bytes}
use tmkms.Config.Validator.{ProtocolVersion, is_protobuf}
use tmkms.Amino.Messages.{
  Vote, Proposal, SignVoteRequest, SignProposalRequest, SignedVoteResponse, SignedProposalResponse,
  PubKeyResponse, Request, sign_vote, sign_proposal, show_public_key, reply_ping, Response,
  signed_vote, signed_proposal, ping, public_key,
}
use tmkms.Amino.Messages.Proto
use tmkms.Amino.BlockId.{
  from_proto_block_id, to_proto_block_id, from_proto_timestamp, to_proto_timestamp,
}

-- `vote.round as i64` and the like widen, and change nothing.
unfoldable pub vote_from_proto : Proto.Vote → Vote
unfolding from_proto_block_id from_proto_timestamp
vote_from_proto v = record {
  vote_type = cast_unsigned (2 ^ 32) v.vote_type;
  height = v.height;
  round = v.round;
  block_id = map_option from_proto_block_id v.block_id;
  timestamp = map_option from_proto_timestamp v.timestamp;
  validator_address = v.validator_address;
  validator_index = v.validator_index;
  signature = v.signature;
}

unfoldable pub proposal_from_proto : Proto.Proposal → Proposal
unfolding from_proto_block_id from_proto_timestamp
proposal_from_proto p = record {
  msg_type = cast_unsigned (2 ^ 32) p.msg_type;
  height = p.height;
  round = p.round;
  pol_round = p.pol_round;
  block_id = map_option from_proto_block_id p.block_id;
  timestamp = map_option from_proto_timestamp p.timestamp;
  signature = p.signature;
}

-- `as i32` of an i64
abbrev pub as_i32 : ℤ → ℤ
as_i32 = cast_narrow (2 ^ 31)

unfoldable pub vote_to_proto : Vote → Proto.Vote
unfolding to_proto_block_id to_proto_timestamp
vote_to_proto v = record {
  vote_type = cast_signed (2 ^ 31) v.vote_type;
  height = v.height;
  round = as_i32 v.round;
  block_id = map_option to_proto_block_id v.block_id;
  timestamp = map_option to_proto_timestamp v.timestamp;
  validator_address = v.validator_address;
  validator_index = as_i32 v.validator_index;
  signature = v.signature;
}

unfoldable pub proposal_to_proto : Proposal → Proto.Proposal
unfolding to_proto_block_id to_proto_timestamp
proposal_to_proto p = record {
  msg_type = cast_signed (2 ^ 31) p.msg_type;
  height = p.height;
  round = as_i32 p.round;
  pol_round = as_i32 p.pol_round;
  block_id = map_option to_proto_block_id p.block_id;
  timestamp = map_option to_proto_timestamp p.timestamp;
  signature = p.signature;
}

-- What is decoded and encoded by prost, prost-amino and sha2.
pub record Wire : Type 0 where
  -- `privval::Message::decode_length_delimited`, and the `sum` of the message
  pub decode_message : Bytes → Option (Option Proto.RequestSum)
  pub decode_sign_vote : Bytes → Option SignVoteRequest
  pub decode_sign_proposal : Bytes → Option SignProposalRequest
  pub decode_pub_key : Bytes → Option (Unit {0})
  pub decode_ping : Bytes → Option (Unit {0})
  -- what is left of the bytes behind a varint
  pub decode_varint : Bytes → Option Bytes
  pub sha256 : Bytes → Bytes
  pub name_bytes : String → Bytes
  pub encode_message : Proto.ResponseSum → Option Bytes
  pub encode_signed_vote : SignedVoteResponse → Option Bytes
  pub encode_signed_proposal : SignedProposalResponse → Option Bytes
  pub encode_ping : Option Bytes
  pub encode_public_key : PubKeyResponse → Option Bytes

nonzero : Bytes → Bytes
nonzero [] = []
nonzero (b ∷ bs) = let rest = nonzero bs in if b == 0 then rest else b ∷ rest

-- The bytes of a hash that are not zero, without the first three; `sha256` is the crate sha2.
unfoldable pub compute_prefix : Wire → String → Bytes
unfolding nonzero
compute_prefix wire name = take 4 (nonzero (drop 3 (nonzero (wire.sha256 (wire.name_bytes name)))))

unfoldable pub bytes_eq : Bytes → Bytes → Bool
bytes_eq [] [] = true
bytes_eq (a ∷ as') (b ∷ bs) = let rest = bytes_eq as' bs in if a == b then rest else false
bytes_eq _ _ = false

decoded {ℓ} : {A : Type ℓ} → Option A → Outcome ErrorKind A
decoded none = err protocol_error
decoded (some a) = ok a

unfoldable pub request_of_sum : Option Proto.RequestSum → Outcome ErrorKind Request
unfolding vote_from_proto proposal_from_proto
request_of_sum (some (Proto.sign_vote_request v)) =
    ok (sign_vote (record { vote = map_option vote_from_proto v }))
request_of_sum (some (Proto.sign_proposal_request p)) =
    ok (sign_proposal (record { proposal = map_option proposal_from_proto p }))
request_of_sum (some Proto.pub_key_request) = ok show_public_key
request_of_sum (some Proto.ping_request) = ok reply_ping
request_of_sum (some Proto.other) = err protocol_error
request_of_sum none = err protocol_error

module _ (wire : Wire) where
  unfoldable pub parse_amino_prefix : Bytes → Outcome ErrorKind Bytes
  unfolding decoded
  parse_amino_prefix packet = do
    rest ← decoded (wire.decode_varint packet)
    if ltb (length rest) 4 then err protocol_error else ok (take 4 rest)

  -- The request that an amino message is decoded to, by its prefix.
  unfoldable pub dispatch : Bytes → Bytes → Outcome ErrorKind Request
  unfolding compute_prefix bytes_eq decoded
  dispatch prefix msg =
      if bytes_eq prefix (compute_prefix wire "tendermint/remotesigner/SignVoteRequest")
      then (do req ← decoded (wire.decode_sign_vote msg); ok (sign_vote req))
      else if bytes_eq prefix (compute_prefix wire "tendermint/remotesigner/SignProposalRequest")
      then (do req ← decoded (wire.decode_sign_proposal msg); ok (sign_proposal req))
      else if bytes_eq prefix (compute_prefix wire "tendermint/remotesigner/PubKeyRequest")
      then (do _ ← decoded (wire.decode_pub_key msg); ok show_public_key)
      else if bytes_eq prefix (compute_prefix wire "tendermint/remotesigner/PingRequest")
      then (do _ ← decoded (wire.decode_ping msg); ok reply_ping)
      else err protocol_error

  -- `incoming` is what one read of the connection gives, at most DATA_MAX_SIZE bytes.
  unfoldable pub read_msg : Option Bytes → Outcome ErrorKind Bytes
  read_msg none = err io_error
  read_msg (some bytes) = ok bytes

  read_protobuf : Bytes → Outcome ErrorKind Request
  unfolding request_of_sum decoded
  read_protobuf msg = do sum ← decoded (wire.decode_message msg); request_of_sum sum

  read_amino : Bytes → Outcome ErrorKind Request
  unfolding parse_amino_prefix dispatch
  read_amino msg = do prefix ← parse_amino_prefix msg; dispatch prefix msg

  unfoldable pub read : ProtocolVersion → Option Bytes → Outcome ErrorKind Request
  unfolding is_protobuf read_protobuf read_amino read_msg
  read version incoming = do
    msg ← read_msg incoming
    if is_protobuf version then read_protobuf msg else read_amino msg

  -- The protobuf form of a response: its error is not passed on.
  unfoldable pub sum_of_response : Response → Proto.ResponseSum
  unfolding vote_to_proto proposal_to_proto
  sum_of_response (signed_vote r) =
      Proto.signed_vote_response (map_option vote_to_proto r.vote) none
  sum_of_response (signed_proposal r) =
      Proto.signed_proposal_response (map_option proposal_to_proto r.proposal) none
  sum_of_response ping = Proto.ping_response
  sum_of_response (public_key r) = Proto.pub_key_response r.pub_key_ed25519 none

  encode_amino : Response → Option Bytes
  encode_amino (signed_proposal r) = wire.encode_signed_proposal r
  encode_amino (signed_vote r) = wire.encode_signed_vote r
  encode_amino ping = wire.encode_ping
  encode_amino (public_key r) = wire.encode_public_key r

  unfoldable pub encode : ProtocolVersion → Response → Outcome ErrorKind Bytes
  unfolding is_protobuf sum_of_response encode_amino decoded
  encode version response = decoded (
      if is_protobuf version
      then wire.encode_message (sum_of_response response)
      else encode_amino response)
