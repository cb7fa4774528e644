-- ===== src/Session/Unparsed.antt =====
-- Votes whose block ID cannot be parsed: `consensus_state` (src/amino_types/vote.rs) counts them as
-- votes for no block, while `sign_bytes` names their block.
use tmkms.Prelude.{
  ◌≡◌, sym, ◌∙◌, ap, inr, true, false, none, some, String, arith, and_then, Outcome, ok,
}
use tmkms.Error.{ErrorKind}
use tmkms.Tendermint.{Bytes, ConsensusState, Tendermint}
use tmkms.Config.Validator.{ValidatorConfig}
use tmkms.KeyRing.{sign_ed25519}
use tmkms.Chain.{Chain}
use tmkms.Chain.Registry.{get_chain}
use tmkms.Chain.State
use tmkms.Chain.State.{State, Weather, Disk, Serde, refuse, sync_to_disk}
use tmkms.Chain.State.Guards.{HasIdEq, refuse_iff_Allowed}
use tmkms.Amino.Messages.{Vote, SignVoteRequest}
use tmkms.Amino.BlockId.{parse_block_id}
use tmkms.Amino.SignedMsg.{SignedMsgType}
use tmkms.Amino.Vote.{
  vote_msg_type, vote_consensus_state, validate_vote, validate_vote_request, sign_vote_bytes,
  set_vote_signature, build_vote_response, vote_request,
}
use tmkms.Session.{Platform, Kms, check_max_height, parse_request, sign}
use tmkms.Session.Limits.{sign_signs}

abbrev pub for_vote : Vote → SignVoteRequest
for_vote v = record { vote = some v }

-- No block ID is read from the vote.
abbrev pub IsUnparsed : Tendermint → Vote → Type 0
IsUnparsed t v = and_then v.block_id (parse_block_id t) ≡ none

-- Two votes of one type, height and round, from neither of which a block ID is read, ask for the same
-- consensus state, whichever blocks they name.
unparsed_collide :
    (t : Tendermint) (a b : Vote)
    → a.vote_type ≡ b.vote_type
    → a.height ≡ b.height
    → a.round ≡ b.round
    → IsUnparsed t a
    → IsUnparsed t b
    → parse_request t (for_vote a) ≡ parse_request t (for_vote b)
unfolding parse_request vote_msg_type vote_consensus_state
unparsed_collide t a b types heights rounds ua ub = ground arith

-- The weather in which the state file can be written.
abbrev pub IsFair : Weather → Type 0
IsFair w = (w.has_parent ≡ true) × (w.created ≡ true) × (w.written ≡ true) × (w.persisted ≡ true)

repeat-granted :
    (io : Serde) (w : Weather) (t : Tendermint)
    → HasIdEq t
    → (s : State) (disk : Disk) (new : ConsensusState) (json : String) → IsFair w
    → s.consensus_state ≡ new
    → io.to_string new ≡ some json
    → (State.update_consensus_state io w t new s disk).0 ≡ ok tt
unfolding State.update_consensus_state sync_to_disk
repeat-granted io w t lawful s disk new json fair same text =
    let free : refuse t new s.consensus_state ≡ none =
      (refuse_iff_Allowed t lawful new s.consensus_state).1 (
        inr (
          ap (λ (c : ConsensusState). c.height) same,
          inr (
            ap (λ (c : ConsensusState). c.round) same,
            inr (
              ap (λ (c : ConsensusState). c.step) same,
              ap (λ (c : ConsensusState). c.block_id) (sym same),
            ),
          ),
        )) in
    ground arith

-- After a vote from which no block ID is read has been recorded, another one of the same type,
-- height and round is signed too, whichever blocks the two name, if `==` on block IDs is
-- equality: the second is valid and within the maximal height, and the chain is known and sound,
-- and the file, the encoder and the key work.
pub unparsed_vote_signed_again :
    (env : Platform) (w : Weather)
    → HasIdEq env.tendermint
    → (config : ValidatorConfig) (kms : Kms) (chain : Chain) (a b : Vote) (ty : SignedMsgType)
      (new : ConsensusState) (json : String) (message signature : Bytes)
    → a.vote_type ≡ b.vote_type
    → a.height ≡ b.height
    → a.round ≡ b.round
    → IsUnparsed env.tendermint a
    → IsUnparsed env.tendermint b
    → parse_request env.tendermint (for_vote a) ≡ ok (ty, new)
    → get_chain env.ids config.chain_id kms.registry ≡ some chain
    → chain.poisoned ≡ false
    → chain.state.consensus_state ≡ new
    → validate_vote b ≡ none
    → check_max_height config (for_vote b) ≡ ok tt
    → IsFair w
    → env.io.to_string new ≡ some json
    → sign_vote_bytes env.codec config.chain_id config.protocol_version (for_vote b) ≡ ok message
    → sign_ed25519 env.keys none message chain.keyring ≡ ok signature
    → (sign env w config (for_vote b) kms).0
      ≡ ok (build_vote_response none (set_vote_signature signature (for_vote b)))
unparsed_vote_signed_again env w lawful config kms chain a b ty new json message signature types
      heights rounds ua ub parsed known sound same valid within fair text encoded signed =
    let parsed_b = sym (unparsed_collide env.tendermint a b types heights rounds ua ub) ∙ parsed in
    let granted =
      repeat-granted env.io w env.tendermint lawful chain.state
        (kms.files chain.state.state_file_path) new json fair same text in
    let valid_b : validate_vote_request (for_vote b) ≡ none =
      unfold validate_vote_request in valid in
    ap (λ (p : Outcome ErrorKind tmkms.Amino.Messages.Response × Kms). p.0)
      (sign_signs env w config (for_vote b) kms chain ty new message signature valid_b within known
        sound parsed_b granted encoded signed)
