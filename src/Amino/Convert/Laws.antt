-- ===== src/Amino/Convert/Laws.antt =====
-- A vote that is converted keeps its block and its place (src/amino_types/vote.rs, block_id.rs).
use tmkms.Prelude.{
  ℕ, ◌≡◌, refl, sym, ap, ◌∙◌, ◌<◌, ◌^◌, arith, Option, none, some, length, ok, map_option, and_then,
}
use tmkms.Prelude.Int.{pos}
use tmkms.Tendermint.{Hash, sha256, TendermintBlockId, Tendermint}
use tmkms.Amino.Messages.{BlockId, Vote, TimeMsg}
use tmkms.Amino.SignedMsg.{SignedMsgType, pre_vote, pre_commit, to_u32}
use tmkms.Amino.BlockId.{parse_block_id, canonical_block_id}
use tmkms.Amino.Vote.{as_u16, vote_msg_type, vote_consensus_state}
use tmkms.Amino.Convert.{
  as_i64, as_i32, from_time, VoteType, prevote, precommit, TendermintVote, from_block_id, from_vote,
  with_time, timed, type_code, as_bytes, parse_canonical_block_id,
}

abbrev pub IsSha256 : Hash → Type 0
IsSha256 h = length (as_bytes h) ≡ 32

-- A block ID that the tendermint crate accepts, with hashes of 32 bytes and a total in u32.
pub record IsProper (t : Tendermint) (b : TendermintBlockId) : Type 0 where
  pub hash : IsSha256 b.hash
  pub parts_hash : IsSha256 b.part_set_header.hash
  pub total : b.part_set_header.total < 2 ^ 32
  pub accepted :
      t.header_new b.part_set_header.total b.part_set_header.hash ≡ some b.part_set_header

abbrev pub IsProperBlock : Tendermint → Option TendermintBlockId → Type 0
IsProperBlock t none = Unit
IsProperBlock t (some b) = IsProper t b

module _ (t : Tendermint) where
  parse-from_block_id :
      (hash parts : Hash) (total : ℕ)
      → let b : TendermintBlockId = record {
        hash = hash;
        part_set_header = record { total = total; hash = parts };
      } in
        IsProper t b → parse_block_id t (from_block_id b) ≡ some b
  unfolding parse_block_id from_block_id
  parse-from_block_id (sha256 hash) (sha256 parts) total p =
      ground (arith, p.hash, p.parts_hash, p.total, p.accepted)

  -- The canonical form of a block ID, which is signed, is parsed to the same block ID as the block ID
  -- itself, or to none where it is.
  pub parse-canonical_block_id :
      (b : BlockId) → parse_canonical_block_id t (canonical_block_id b) ≡ parse_block_id t b
  unfolding parse_canonical_block_id canonical_block_id parse_block_id
  parse-canonical_block_id b = ground arith

  parse-block :
      (b : Option TendermintBlockId)
      → IsProperBlock t b
      → and_then (map_option from_block_id b) (parse_block_id t) ≡ b
  parse-block none p = refl
  parse-block (some b) p =
      parse-from_block_id b.hash b.part_set_header.hash b.part_set_header.total p

abbrev pub msg_type_of : VoteType → SignedMsgType
msg_type_of prevote = pre_vote
msg_type_of precommit = pre_commit

from_vote-ok :
    (v : TendermintVote) (vote : Vote)
    → from_vote v ≡ ok vote
    → (time : Option TimeMsg) × (with_time v time ≡ vote)
unfolding from_vote timed from_time with_time
from_vote-ok v vote h = timed-ok v.timestamp h
  where
    timed-ok :
        (t : Option (Option (ℕ × ℕ)))
        → (elim t [ none ↦ ok (with_time v none) | some t' ↦ timed (from_time t') v ]) ≡ ok vote
        → (time : Option TimeMsg) × (with_time v time ≡ vote)
    timed-ok none e = (none, cc e)
    timed-ok (some none) e = cc e
    timed-ok (some (some (seconds, nanos))) e =
        (some (record { seconds = as_i64 seconds; nanos = as_i32 nanos }), cc e)

module _ (t : Tendermint) where
  with_time-state :
      (v : TendermintVote) (time : Option TimeMsg)
      → v.height < 2 ^ 63
      → v.round < 2 ^ 16
      → t.height_try_from (pos v.height) ≡ some v.height
      → IsProperBlock t v.block_id
      → vote_consensus_state t (with_time v time)
        ≡ some (record { height = v.height; round = v.round; step = pos 6; block_id = v.block_id })
  unfolding vote_consensus_state with_time
  with_time-state v time small_height small_round height p =
      let at_height : as_i64 v.height ≡ pos v.height = ground arith in
      let at_round : as_u16 (as_i64 v.round) ≡ v.round = ground arith in
      rw (at_height, height, at_round, parse-block t v.block_id p) refl

  with_time-type :
      (v : TendermintVote) (time : Option TimeMsg) (ty : VoteType)
      → v.vote_type ≡ ty
      → vote_msg_type (with_time v time) ≡ some (msg_type_of ty)
  unfolding vote_msg_type with_time type_code to_u32
  with_time-type v time prevote h = ground (arith, h)
  with_time-type v time precommit h = ground (arith, h)

  -- A vote of the tendermint crate that is converted to a message keeps its place and its block: its
  -- consensus state has its height, its round, the step 6 that the code gives every vote, and its
  -- block ID, and its type is the one it had. It is assumed that the height is an i64 that the
  -- crate accepts, that the round is below 2 ^ 16, and that the hashes of its block ID are SHA-256
  -- hashes with a total in u32 that the crate accepts.
  pub from_vote-state :
      (v : TendermintVote) (vote : Vote)
      → from_vote v ≡ ok vote
      → v.height < 2 ^ 63
      → v.round < 2 ^ 16
      → t.height_try_from (pos v.height) ≡ some v.height
      → IsProperBlock t v.block_id
      → (vote_consensus_state t vote
          ≡ some
              (record { height = v.height; round = v.round; step = pos 6; block_id = v.block_id }))
        × (vote_msg_type vote ≡ some (msg_type_of v.vote_type))
  from_vote-state v vote h small_height small_round height p =
      let (time, same) = from_vote-ok v vote h in
      (
        ap (vote_consensus_state t) (sym same)
            ∙ with_time-state v time small_height small_round height p,
        ap vote_msg_type (sym same) ∙ with_time-type v time v.vote_type refl,
      )
