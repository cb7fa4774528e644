-- ===== src/Examples/Sessions.antt =====
-- Signing in a session: src/session.rs.
use tmkms.Chain.State.{Weather}
use tmkms.Prelude.{◌≡◌, refl, ap, ◌↔◌, ◌⊎◌, inr, arith, none, some, [], ◌∷◌, Outcome, ok, err}
use tmkms.Prelude.Int.{pos}
use tmkms.Error.{ErrorKind, exceed_max_height}
use tmkms.Tendermint.{Bytes}
use tmkms.Chain.State
use tmkms.Chain.State.{refuse, sync_to_disk}
use tmkms.Chain.Registry.{get_chain}
use tmkms.Amino.Messages.{Vote, BlockId, Response}
use tmkms.Amino.BlockId.{parse_block_id}
use tmkms.Amino.SignedMsg.{pre_vote}
use tmkms.Amino.Vote.{
  vote_request, vote_msg_type, vote_consensus_state, validate_vote, validate_vote_request,
  sign_vote_bytes, set_vote_signature, build_vote_response,
}
use tmkms.Map.{values}
use tmkms.KeyRing.{sign_ed25519}
use tmkms.Session.{Kms, check_max_height, parse_request, sign, store}
use tmkms.Session.Sign.{asked}
use tmkms.Session.Recorded.{Signed, Reported, sign_answers}
use tmkms.Session.Limits.{sign-above_max, sign_signs}
use tmkms.Session.Answers.{Answerable, sign_iff_Answerable}
use tmkms.Session.Unparsed.{for_vote, unparsed_vote_signed_again}
use tmkms.Examples.Setup.{crate, env-HasIdEq, json, env, hub, nil_at, chain_at, kms_at, fair}

abbrev block_of : Bytes → BlockId
block_of hash = record { hash = hash; parts_header = none }

abbrev hash_of : Bytes → Bytes
hash_of rest =
    1 ∷ 2 ∷ 3 ∷ 4 ∷ 5 ∷ 6 ∷ 7 ∷ 8 ∷ 9 ∷ 10 ∷ 11 ∷ 12 ∷ 13 ∷ 14 ∷ 15 ∷ 16 ∷ 17 ∷ 18 ∷ 19 ∷ 20 ∷ 21
    ∷ 22 ∷ 23 ∷ 24 ∷ 25 ∷ 26 ∷ 27 ∷ 28 ∷ 29 ∷ 30 ∷ 31 ∷ rest

abbrev address : Bytes
address =
    1 ∷ 2 ∷ 3 ∷ 4 ∷ 5 ∷ 6 ∷ 7 ∷ 8 ∷ 9 ∷ 10 ∷ 11 ∷ 12 ∷ 13 ∷ 14 ∷ 15 ∷ 16 ∷ 17 ∷ 18 ∷ 19 ∷ 20 ∷ []

-- A prevote at the height 7, for a block that is named without its parts.
abbrev vote_for : Bytes → Vote
vote_for hash = record {
  vote_type = 1;
  height = pos 7;
  round = pos 0;
  block_id = some (block_of hash);
  timestamp = none;
  validator_address = address;
  validator_index = pos 0;
  signature = [];
}

abbrev first : Vote
first = vote_for (hash_of (32 ∷ []))

abbrev second : Vote
second = vote_for (hash_of (33 ∷ []))

abbrev at_200 : Vote
at_200 = record first { height = pos 200 }

parsed_first : parse_request crate (for_vote first) ≡ ok (pre_vote, nil_at 7)
unfolding parse_request vote_msg_type vote_consensus_state parse_block_id crate
parsed_first = refl

valid_second : validate_vote second ≡ none
unfolding validate_vote
valid_second = refl

granted_seven : (asked env fair (kms_at (nil_at 7)) (chain_at (nil_at 7)) (nil_at 7)).0 ≡ ok tt
unfolding State.update_consensus_state refuse sync_to_disk env json
granted_seven = refl

vote_is_signed : sign env fair hub (for_vote first) (kms_at (nil_at 7)) ≡ (
  ok (build_vote_response none (set_vote_signature (1 ∷ 2 ∷ 3 ∷ []) (for_vote first))),
  store env fair "hub"
      (chain_at (nil_at 7))
      (asked env fair (kms_at (nil_at 7)) (chain_at (nil_at 7)) (nil_at 7))
      (kms_at (nil_at 7)),
)
unfolding validate_vote_request validate_vote check_max_height get_chain parse_request vote_msg_type
    vote_consensus_state parse_block_id crate env sign_vote_bytes sign_ed25519 values
vote_is_signed =
    sign_signs env fair hub (for_vote first) (kms_at (nil_at 7)) (chain_at (nil_at 7)) pre_vote
      (nil_at 7) (1 ∷ 2 ∷ 3 ∷ []) (1 ∷ 2 ∷ 3 ∷ []) refl refl refl refl refl granted_seven refl refl

answerable : Answerable env fair hub (for_vote first) (kms_at (nil_at 7))
unfolding validate_vote_request validate_vote get_chain sign_vote_bytes sign_ed25519 values env json
answerable = record {
  chain = chain_at (nil_at 7);
  msg_type = pre_vote;
  new = nil_at 7;
  valid = refl;
  within = omega arith;
  known = refl;
  sound = refl;
  parsed = parsed_first;
  answer = inr (
    inr (refl, inr (refl, inr (refl, refl))),
    (("seven", refl), refl, refl, refl, refl),
    (1 ∷ 2 ∷ 3 ∷ [], 1 ∷ 2 ∷ 3 ∷ [], refl, refl),
  );
}

sign_iff_Answerable_example :
    ((resp : Response) × ((sign env fair hub (for_vote first) (kms_at (nil_at 7))).0 ≡ ok resp))
    ↔ Answerable env fair hub (for_vote first) (kms_at (nil_at 7))
sign_iff_Answerable_example =
    sign_iff_Answerable env fair hub (for_vote first) env-HasIdEq (kms_at (nil_at 7))

sign_answers_example :
    let answer = build_vote_response none (set_vote_signature (1 ∷ 2 ∷ 3 ∷ []) (for_vote first)) in
    let after = (sign env fair hub (for_vote first) (kms_at (nil_at 7))).1 in
    Signed env hub (for_vote first) (kms_at (nil_at 7)) after answer
    ⊎ Reported env fair hub (for_vote first) (kms_at (nil_at 7)) after answer
sign_answers_example =
    sign_answers env fair env-HasIdEq hub (for_vote first) (kms_at (nil_at 7))
      (build_vote_response none (set_vote_signature (1 ∷ 2 ∷ 3 ∷ []) (for_vote first)))
      (ap (λ (p : Outcome ErrorKind Response × Kms). p.0) vote_is_signed)

sign-above_max_example :
    sign env fair hub (for_vote at_200) (kms_at (nil_at 7))
    ≡ (err exceed_max_height, kms_at (nil_at 7))
unfolding validate_vote_request validate_vote
sign-above_max_example =
    sign-above_max env fair hub (for_vote at_200) (kms_at (nil_at 7)) 100 (pos 200) refl refl
      (omega arith) refl (omega arith)

unparsed_vote_signed_again_example :
    (sign env fair hub (for_vote second) (kms_at (nil_at 7))).0
    ≡ ok (build_vote_response none (set_vote_signature (1 ∷ 2 ∷ 3 ∷ []) (for_vote second)))
unfolding env json parse_block_id check_max_height get_chain sign_vote_bytes sign_ed25519 values
unparsed_vote_signed_again_example =
    unparsed_vote_signed_again env fair env-HasIdEq hub (kms_at (nil_at 7)) (chain_at (nil_at 7))
      first second pre_vote (nil_at 7) "seven" (1 ∷ 2 ∷ 3 ∷ []) (1 ∷ 2 ∷ 3 ∷ []) refl refl refl refl
      refl parsed_first refl refl refl valid_second refl (refl, refl, refl, refl) refl refl refl
