-- ===== src/Amino/Messages/Proto.antt =====
-- The types of the tendermint-proto crate that the program takes apart and fills field by field.
use tmkms.Prelude.{ℕ, String, Option}
use tmkms.Prelude.Int.{ℤ}
use tmkms.Tendermint.{Bytes}

-- total u32
pub record PartSetHeader : Type 0 where
  pub total : ℕ
  pub hash : Bytes

pub record BlockId : Type 0 where
  pub hash : Bytes
  pub part_set_header : Option PartSetHeader

pub record CanonicalBlockId : Type 0 where
  pub hash : Bytes
  pub part_set_header : Option PartSetHeader

pub record Timestamp : Type 0 where
  pub seconds : ℤ
  pub nanos : ℤ

-- type, round and validator_index i32; height i64
pub record Vote : Type 0 where
  pub vote_type : ℤ
  pub height : ℤ
  pub round : ℤ
  pub block_id : Option BlockId
  pub timestamp : Option Timestamp
  pub validator_address : Bytes
  pub validator_index : ℤ
  pub signature : Bytes

-- type, round and pol_round i32; height i64
pub record Proposal : Type 0 where
  pub msg_type : ℤ
  pub height : ℤ
  pub round : ℤ
  pub pol_round : ℤ
  pub block_id : Option BlockId
  pub timestamp : Option Timestamp
  pub signature : Bytes

-- type i32; height and round i64
pub record CanonicalVote : Type 0 where
  pub vote_type : ℤ
  pub height : ℤ
  pub round : ℤ
  pub block_id : Option CanonicalBlockId
  pub timestamp : Option Timestamp
  pub chain_id : String

-- type i32; height, round and pol_round i64
pub record CanonicalProposal : Type 0 where
  pub msg_type : ℤ
  pub height : ℤ
  pub round : ℤ
  pub pol_round : ℤ
  pub block_id : Option CanonicalBlockId
  pub timestamp : Option Timestamp
  pub chain_id : String

-- `privval::message::Sum` of a request that was decoded; `other` stands for all its other cases
pub data RequestSum : Type 0 where
  sign_vote_request : Option Vote → RequestSum
  sign_proposal_request : Option Proposal → RequestSum
  pub_key_request : RequestSum
  ping_request : RequestSum
  other : RequestSum

-- `privval::message::Sum` of a response; `error` is the RemoteSignerError of the message, which the
-- program never fills
pub data ResponseSum : Type 0 where
  signed_vote_response : Option Vote → (error : Option (Unit {0})) → ResponseSum
  signed_proposal_response : Option Proposal → (error : Option (Unit {0})) → ResponseSum
  ping_response : ResponseSum
  pub_key_response : Bytes → (error : Option (Unit {0})) → ResponseSum
