-- ===== src/Examples/Messages.antt =====
-- The messages and their wire forms: src/amino_types/ and src/rpc.rs.
use tmkms.Prelude.{◌≡◌, refl, inl, inr, none, some, [], ◌∷◌, arith}
use tmkms.Prelude.Int.{pos, negsuc}
use tmkms.Tendermint.{Bytes}
use tmkms.Amino.Messages.{BlockId, Vote, Proposal, double_sign}
use tmkms.Amino.Messages.Proto
use tmkms.Amino.Vote.{validate_vote, set_vote_signature, build_vote_response}
use tmkms.Amino.Vote.Laws.{validate_vote_iff}
use tmkms.Amino.Proposal.{build_proposal_response}
use tmkms.Rpc.{vote_from_proto, sum_of_response}
use tmkms.Rpc.Laws.{signed_vote_is_request, reported_error_is_lost}
use tmkms.Examples.Setup.{deaf}

abbrev no_block : BlockId
no_block = record { hash = []; parts_header = some (record { total = pos 0; hash = [] }) }

abbrev address : Bytes
address =
    1 ∷ 2 ∷ 3 ∷ 4 ∷ 5 ∷ 6 ∷ 7 ∷ 8 ∷ 9 ∷ 10 ∷ 11 ∷ 12 ∷ 13 ∷ 14 ∷ 15 ∷ 16 ∷ 17 ∷ 18 ∷ 19 ∷ 20 ∷ []

abbrev vote : Vote
vote = record {
  vote_type = 2;
  height = pos 7;
  round = pos 1;
  block_id = some no_block;
  timestamp = none;
  validator_address = address;
  validator_index = pos 3;
  signature = [];
}

validate_vote_iff_example : validate_vote vote ≡ none
validate_vote_iff_example =
    (validate_vote_iff vote).1
      (inr refl, omega arith, omega arith, omega arith, refl, (inl refl, (omega arith, inl refl)))

abbrev offer : Proposal
offer = record {
  msg_type = 32;
  height = pos 7;
  round = pos 1;
  pol_round = negsuc 0;
  block_id = some no_block;
  timestamp = none;
  signature = [];
}

abbrev proto_block : Proto.BlockId
proto_block = record { hash = 1 ∷ []; part_set_header = some (record { total = 3; hash = 2 ∷ [] }) }

abbrev proto_vote : Proto.Vote
proto_vote = record {
  vote_type = pos 1;
  height = pos 7;
  round = pos 0;
  block_id = some proto_block;
  timestamp = none;
  validator_address = address;
  validator_index = pos 3;
  signature = [];
}

signed_vote_is_request_example :
    sum_of_response deaf (
      build_vote_response none
        (set_vote_signature (5 ∷ []) (record { vote = some (vote_from_proto proto_vote) })))
    ≡ Proto.signed_vote_response (some (record proto_vote { signature = 5 ∷ [] })) none
signed_vote_is_request_example = signed_vote_is_request deaf proto_vote (5 ∷ []) (record {
  vote_type = (omega arith, omega arith);
  round = (omega arith, omega arith);
  validator_index = (omega arith, omega arith);
  block_id = omega arith;
})

reported_error_is_lost_example :
    (sum_of_response deaf
        (build_vote_response (some (double_sign (pos 7))) (record { vote = some vote }))
      ≡ Proto.signed_vote_response none none)
    × (sum_of_response deaf
          (build_proposal_response (some (double_sign (pos 7))) (record { proposal = some offer }))
        ≡ Proto.signed_proposal_response none none)
reported_error_is_lost_example =
    reported_error_is_lost deaf (double_sign (pos 7)) (record { vote = some vote })
      (record { proposal = some offer })
