-- ===== src/Rpc/Laws.antt =====
-- What the translation between the wire and the messages (src/rpc.rs) keeps.
use tmkms.Prelude.{
  ℕ, zero, suc, ◌-◌, ◌<◌, ◌≤◌, ◌^◌, ◌≡◌, refl, ap, inl, inr, String, Option, none, some, [], ◌∷◌,
  All, arith, length, take, drop, ◌==◌, map_option, Bool-cases,
}
use tmkms.Prelude.Int.{ℤ, pos, negsuc, ◌≤ℤ◌, ◌<ℤ◌, cast_unsigned, cast_signed, cast_narrow}
use tmkms.Tendermint.{Bytes}
use tmkms.Amino.Messages.{RemoteError, SignVoteRequest, SignProposalRequest}
use tmkms.Amino.Messages.Proto
use tmkms.Amino.BlockId.{from_proto_block_id, to_proto_block_id}
use tmkms.Amino.BlockId.Laws.{IsU32, to_proto-from_proto}
use tmkms.Amino.Vote.{set_vote_signature, build_vote_response}
use tmkms.Amino.Proposal.{set_proposal_signature, build_proposal_response}
use tmkms.Rpc.{Wire, vote_from_proto, proposal_from_proto, nonzero, compute_prefix, sum_of_response}

abbrev pub IsI32 : ℤ → Type 0
IsI32 x = (negsuc (2 ^ 31 - 1) ≤ℤ x) × (x <ℤ pos (2 ^ 31))

-- A narrowing cast of what fits changes nothing.
narrow-fits : (x : ℤ) → IsI32 x → cast_narrow (2 ^ 31) x ≡ x
narrow-fits x h = ground arith

signed-unsigned : (x : ℤ) → IsI32 x → cast_signed (2 ^ 31) (cast_unsigned (2 ^ 32) x) ≡ x
signed-unsigned x h = ground arith

abbrev pub IsProtoBlock : Option Proto.BlockId → Type 0
IsProtoBlock none = Unit
IsProtoBlock (some b) = IsU32 b.part_set_header

block-back :
    (b : Option Proto.BlockId)
    → IsProtoBlock b
    → map_option to_proto_block_id (map_option from_proto_block_id b) ≡ b
block-back none h = refl
block-back (some b) h = ap some (to_proto-from_proto b h)

-- The numbers of a message fit the widths that its protobuf type gives them.
pub record FitsVote (v : Proto.Vote) : Type 0 where
  pub vote_type : IsI32 v.vote_type
  pub round : IsI32 v.round
  pub validator_index : IsI32 v.validator_index
  pub block_id : IsProtoBlock v.block_id

pub record FitsProposal (p : Proto.Proposal) : Type 0 where
  pub msg_type : IsI32 p.msg_type
  pub round : IsI32 p.round
  pub pol_round : IsI32 p.pol_round
  pub block_id : IsProtoBlock p.block_id

module _ (wire : Wire) where
  -- The protobuf answer to a vote request that was signed is the vote that was sent, with the
  -- signature in it, if its numbers fit the widths that protobuf gives them.
  pub signed_vote_is_request :
      (v : Proto.Vote) (sig : Bytes)
      → FitsVote v
      → sum_of_response wire (
          build_vote_response none
            (set_vote_signature sig (record { vote = some (vote_from_proto v) })))
        ≡ Proto.signed_vote_response (some (record v { signature = sig })) none
  unfolding sum_of_response build_vote_response set_vote_signature vote_from_proto
  signed_vote_is_request v sig h = ground (
    arith,
    signed-unsigned v.vote_type h.vote_type,
    narrow-fits v.round h.round,
    narrow-fits v.validator_index h.validator_index,
    block-back v.block_id h.block_id,
  )

  -- The protobuf answer to a proposal request that was signed is the proposal that was sent, with
  -- the signature in it, if its numbers fit the widths that protobuf gives them.
  signed_proposal_is_request :
      (p : Proto.Proposal) (sig : Bytes)
      → FitsProposal p
      → sum_of_response wire (
          build_proposal_response none
            (set_proposal_signature sig (record { proposal = some (proposal_from_proto p) })))
        ≡ Proto.signed_proposal_response (some (record p { signature = sig })) none
  unfolding sum_of_response build_proposal_response set_proposal_signature proposal_from_proto
  signed_proposal_is_request p sig h = ground (
    arith,
    signed-unsigned p.msg_type h.msg_type,
    narrow-fits p.round h.round,
    narrow-fits p.pol_round h.pol_round,
    block-back p.block_id h.block_id,
  )

  -- The protobuf form of the report of an error has neither the error nor a message in it: reports of
  -- different errors, and the answers to different requests, are the same.
  pub reported_error_is_lost :
      (e : RemoteError) (v : SignVoteRequest) (p : SignProposalRequest)
      → (sum_of_response wire (build_vote_response (some e) v)
          ≡ Proto.signed_vote_response none none)
        × (sum_of_response wire (build_proposal_response (some e) p)
            ≡ Proto.signed_proposal_response none none)
  unfolding sum_of_response build_vote_response build_proposal_response
  reported_error_is_lost e v p = (refl, refl)

abbrev IsNonzero : ℕ → Type 0
IsNonzero b = 0 < b

nonzero-All : (bs : Bytes) → All IsNonzero (nonzero bs)
unfolding nonzero
nonzero-All [] = tt
nonzero-All (b ∷ bs) = elim (Bool-cases (b == 0)) [
  | inl is_zero ↦ rw is_zero (nonzero-All bs)
  | inr not_zero ↦ rw not_zero (ground arith, nonzero-All bs)
]

take-All : (n : ℕ) (bs : Bytes) → All IsNonzero bs → All IsNonzero (take n bs)
take-All zero bs h = tt
take-All (suc n) [] h = tt
take-All (suc n) (b ∷ bs) h = (h.0, take-All n bs h.1)

length-take_le : (n : ℕ) (bs : Bytes) → length (take n bs) ≤ n
length-take_le zero bs = omega arith
length-take_le (suc n) [] = omega arith
length-take_le (suc n) (b ∷ bs) = omega (arith, length-take_le n bs)

-- The prefix of every message name has at most four bytes, none of which is zero.
compute_prefix-IsNonzero :
    (wire : Wire) (name : String)
    → (length (compute_prefix wire name) ≤ 4) × All (λ b. 0 < b) (compute_prefix wire name)
unfolding compute_prefix
compute_prefix-IsNonzero wire name =
    let kept = nonzero (drop 3 (nonzero (wire.sha256 (wire.name_bytes name)))) in
    (
      length-take_le 4 kept,
      take-All 4 kept (nonzero-All (drop 3 (nonzero (wire.sha256 (wire.name_bytes name))))),
    )
