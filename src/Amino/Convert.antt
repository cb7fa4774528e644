-- ===== src/Amino/Convert.antt =====
-- src/amino_types/block_id.rs, vote.rs and time.rs: the messages that are made from the types of the
-- tendermint crate.
pub mod Laws
use tmkms.Prelude.{
  ℕ, ◌≡◌, refl, ◌<◌, ◌^◌, ◌%◌, arith, Option, none, some, [], ◌∷◌, map_option, and_then, length,
  ◌==◌, if◌then◌else◌, Outcome, ok, panic, crash,
}
use tmkms.Prelude.Int.{ℤ, pos, cast_signed}
use tmkms.Tendermint.{Bytes, Hash, sha256, Header, TendermintBlockId, ConsensusState, Tendermint}
use tmkms.Amino.Messages.{
  PartsSetHeader, BlockId, CanonicalPartSetHeader, CanonicalBlockId, TimeMsg, Vote,
}
use tmkms.Amino.SignedMsg.{SignedMsgType, pre_vote, pre_commit, proposal, to_u32}
use tmkms.Amino.BlockId.{as_u32, parse_sha256_hash, parse_parts_header, parse_block_id}
use tmkms.Amino.Vote.{vote_msg_type, vote_consensus_state}

abbrev as_bytes : Hash → Bytes
as_bytes (sha256 b) = b

-- `total as i64` of a u32
unfoldable pub from_header : Header → PartsSetHeader
from_header h = record { total = pos h.total; hash = as_bytes h.hash }

unfoldable pub from_block_id : TendermintBlockId → BlockId
unfolding from_header
from_block_id b = record {
  hash = as_bytes b.hash;
  parts_header = some (from_header b.part_set_header);
}

-- `vote::Type`
pub data VoteType : Type 0 where
  prevote precommit : VoteType

-- `vote::Vote` of the tendermint crate, with the fields that are read; a time is what it is after the
-- Unix epoch, in seconds and nanoseconds, if it is not before.
pub record TendermintVote : Type 0 where
  pub vote_type : VoteType
  pub height : ℕ
  pub round : ℕ
  pub block_id : Option TendermintBlockId
  pub timestamp : Option (Option (ℕ × ℕ))
  pub validator_address : Bytes
  pub validator_index : ℕ
  pub signature : Option Bytes

abbrev as_i64 : ℕ → ℤ
as_i64 = cast_signed (2 ^ 63)

abbrev as_i32 : ℕ → ℤ
as_i32 = cast_signed (2 ^ 31)

-- `TimeMsg::from`: a time before the epoch panics.
unfoldable pub from_time : Option (ℕ × ℕ) → Outcome (Unit {0}) TimeMsg
from_time none = panic crash
from_time (some (seconds, nanos)) = ok (record { seconds = as_i64 seconds; nanos = as_i32 nanos })

-- `i32::from(vote_type) as u32`
type_code : VoteType → ℕ
type_code prevote = 1
type_code precommit = 2

with_time : TendermintVote → Option TimeMsg → Vote
unfolding from_block_id type_code
with_time v time = record {
  vote_type = type_code v.vote_type;
  height = as_i64 v.height;
  round = as_i64 v.round;
  block_id = map_option from_block_id v.block_id;
  timestamp = time;
  validator_address = v.validator_address;
  validator_index = as_i64 v.validator_index;
  signature = elim v.signature [ none ↦ [] | some sig ↦ sig ];
}

timed : Outcome (Unit {0}) TimeMsg → TendermintVote → Outcome (Unit {0}) Vote
unfolding with_time
timed (ok time) v = ok (with_time v (some time))
timed (Outcome.err e) v = Outcome.err e
timed (panic p) v = panic p

unfoldable pub from_vote : TendermintVote → Outcome (Unit {0}) Vote
unfolding timed from_time
from_vote v = elim v.timestamp [ none ↦ ok (with_time v none) | some t ↦ timed (from_time t) v ]

-- `ParseId` of a canonical block ID and of its parts header
module _ (t : Tendermint) where
  unfoldable pub parse_canonical_parts : CanonicalPartSetHeader → Option Header
  unfolding parse_sha256_hash
  parse_canonical_parts p =
      and_then (parse_sha256_hash p.hash) (λ hash. t.header_new (as_u32 p.total) hash)

  unfoldable pub parse_canonical_block_id : CanonicalBlockId → Option TendermintBlockId
  unfolding parse_sha256_hash parse_canonical_parts
  parse_canonical_block_id b = and_then (parse_sha256_hash b.hash) (λ hash.
      and_then (and_then b.parts_header parse_canonical_parts)
        (λ header. some (record { hash = hash; part_set_header = header })))
