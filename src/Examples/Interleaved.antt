-- ===== src/Examples/Interleaved.antt =====
-- Two sessions with the same chain: src/session.rs.
use tmkms.Prelude.{◌≡◌, refl, ℕ, none, [], ◌∷◌, Memᴰ}
use tmkms.Config.Validator.{ValidatorConfig}
use tmkms.Map.{get, put}
use tmkms.Prelude.Int.{pos}
use tmkms.Map.{values}
use tmkms.KeyRing.{sign_ed25519}
use tmkms.Chain.State
use tmkms.Chain.State.{refuse, sync_to_disk}
use tmkms.Chain.Registry.{get_chain}
use tmkms.Amino.Messages.{Vote}
use tmkms.Amino.BlockId.{parse_block_id}
use tmkms.Amino.Vote.{
  vote_request, vote_msg_type, vote_consensus_state, validate_vote, validate_vote_request,
  sign_vote_bytes, set_vote_signature, build_vote_response,
}
use tmkms.Session.{
  validated, check_max_height, parse_request, find_chain, update_consensus_state, locked_update,
  report, respond, store,
}
use tmkms.Session.Trace.{after_answer, is_signature}
use tmkms.Session.Unparsed.{for_vote}
use tmkms.Session.Interleave.{
  Signable, signable_request, vote, phase_after, after_update, System, started, check, update,
  Reach, here, next, read, lock, answer,
}
use tmkms.Session.Interleave.Safety.{interleaved_agree}
use tmkms.Examples.Setup.{env, env-HasIdEq, env-IsKeyOrd, json, crate, hub, nil_at, kms_at, fair}

-- A prevote at the height 7, without a block.
abbrev pub nil_vote : Vote
nil_vote = record {
  vote_type = 1;
  height = pos 7;
  round = pos 0;
  block_id = none;
  timestamp = none;
  validator_address =
      1 ∷ 2 ∷ 3 ∷ 4 ∷ 5 ∷ 6 ∷ 7 ∷ 8 ∷ 9 ∷ 10 ∷ 11 ∷ 12 ∷ 13 ∷ 14 ∷ 15 ∷ 16 ∷ 17 ∷ 18 ∷ 19 ∷ 20 ∷ [];
  validator_index = pos 0;
  signature = [];
}

abbrev pub asking : Signable
asking = vote (for_vote nil_vote)

abbrev pub hubs : ℕ → ValidatorConfig
hubs i = hub

abbrev Both : System → Type 0
Both s = (Reach env hubs (started (kms_at (nil_at 7))) s) × Memᴰ (nil_at 7) (s.signed "hub")

-- Both read a request, and the second to read is the first to take the lock and to sign.
overtaking : (s : System) × Both s
unfolding check validated validate_vote_request validate_vote check_max_height update find_chain
    get_chain env update_consensus_state parse_request vote_msg_type vote_consensus_state crate
    locked_update report State.update_consensus_state refuse sync_to_disk json parse_block_id store
    respond put get sign_vote_bytes sign_ed25519 values set_vote_signature build_vote_response
    phase_after after_update after_answer is_signature
overtaking =
    let one = next here (read 0 asking refl) in
    let two = next one (read 1 asking refl) in
    let three = next two (lock 1 fair asking refl) in
    let four = next three (lock 0 fair asking refl) in
    let five = next four (answer 1 fair asking _ _ refl) in
    (_, (next five (answer 0 fair asking _ _ refl), Memᴰ.tail (Memᴰ.head refl)))

interleaved_agree_example : (nil_at 7).block_id ≡ (nil_at 7).block_id
interleaved_agree_example =
    interleaved_agree env env-HasIdEq env-IsKeyOrd hubs overtaking.1.0 "hub" (nil_at 7) (nil_at 7)
      (overtaking.1.1) overtaking.1.1 (refl, refl, refl)
