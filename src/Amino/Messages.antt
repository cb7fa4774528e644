-- ===== src/Amino/Messages.antt =====
-- The message types of src/amino_types/, with the fields that the source declares, and those of the
-- tendermint-proto crate that src/rpc.rs and src/amino_types/ fill field by field (module Proto).
pub mod Proto
use tmkms.Prelude.{ℕ, String, Option}
use tmkms.Prelude.Int.{ℤ, pos}
use tmkms.Tendermint.{Bytes}

-- i64
pub record PartsSetHeader : Type 0 where
  pub total : ℤ
  pub hash : Bytes

pub record BlockId : Type 0 where
  pub hash : Bytes
  pub parts_header : Option PartsSetHeader

pub record CanonicalPartSetHeader : Type 0 where
  pub hash : Bytes
  pub total : ℤ

pub record CanonicalBlockId : Type 0 where
  pub hash : Bytes
  pub parts_header : Option CanonicalPartSetHeader

-- seconds i64, nanos i32
pub record TimeMsg : Type 0 where
  pub seconds : ℤ
  pub nanos : ℤ

-- vote_type u32; height, round and validator_index i64
pub record Vote : Type 0 where
  pub vote_type : ℕ
  pub height : ℤ
  pub round : ℤ
  pub block_id : Option BlockId
  pub timestamp : Option TimeMsg
  pub validator_address : Bytes
  pub validator_index : ℤ
  pub signature : Bytes

pub record CanonicalVote : Type 0 where
  pub vote_type : ℕ
  pub height : ℤ
  pub round : ℤ
  pub block_id : Option CanonicalBlockId
  pub timestamp : Option TimeMsg
  pub chain_id : String

-- msg_type u32; height, round and pol_round i64
pub record Proposal : Type 0 where
  pub msg_type : ℕ
  pub height : ℤ
  pub round : ℤ
  pub pol_round : ℤ
  pub block_id : Option BlockId
  pub timestamp : Option TimeMsg
  pub signature : Bytes

pub record CanonicalProposal : Type 0 where
  pub msg_type : ℕ
  pub height : ℤ
  pub round : ℤ
  pub pol_round : ℤ
  pub block_id : Option CanonicalBlockId
  pub timestamp : Option TimeMsg
  pub chain_id : String

-- `RemoteErrorCode as i32`
pub data RemoteErrorCode : Type 0 where
  remote_signer_error double_sign_error : RemoteErrorCode

-- The text "double signing requested at height: {}", by the height that is printed in it.
pub data Description : Type 0 where
  double_signing_requested_at_height : ℤ → Description

pub record RemoteError : Type 0 where
  pub code : RemoteErrorCode
  pub description : Description

unfoldable pub double_sign : ℤ → RemoteError
double_sign height = record {
  code = double_sign_error;
  description = double_signing_requested_at_height height;
}

pub record SignVoteRequest : Type 0 where
  pub vote : Option Vote

pub record SignedVoteResponse : Type 0 where
  pub vote : Option Vote
  pub error : Option RemoteError

pub record SignProposalRequest : Type 0 where
  pub proposal : Option Proposal

pub record SignedProposalResponse : Type 0 where
  pub proposal : Option Proposal
  pub error : Option RemoteError

pub record PubKeyResponse : Type 0 where
  pub pub_key_ed25519 : Bytes

-- src/rpc.rs: `Request` and `Response`; the payloads of pings and of key requests are empty
pub data Request : Type 0 where
  sign_proposal : SignProposalRequest → Request
  sign_vote : SignVoteRequest → Request
  show_public_key : Request
  reply_ping : Request

pub data Response : Type 0 where
  signed_vote : SignedVoteResponse → Response
  signed_proposal : SignedProposalResponse → Response
  ping : Response
  public_key : PubKeyResponse → Response
