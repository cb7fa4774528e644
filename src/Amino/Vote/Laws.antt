-- ===== src/Amino/Vote/Laws.antt =====
-- What votes pass validation, and what of a vote is signed (src/amino_types/vote.rs).
use tmkms.Prelude.{◌≡◌, ◌↔◌, ◌⊎◌, String, Option, none, some, arith, length}
use tmkms.Prelude.Int.{pos, ◌≤ℤ◌}
use tmkms.Tendermint.{Bytes}
use tmkms.Config.Validator.{ProtocolVersion}
use tmkms.Amino.Messages.{BlockId, Vote, SignVoteRequest}
use tmkms.Amino.BlockId.Laws.{IsBlockId}
use tmkms.Amino.SignedMsg.{Codec}
use tmkms.Amino.Vote.{validate_vote, sign_vote_bytes, set_vote_signature}

abbrev pub IsBlock : Option BlockId → Type 0
IsBlock none = Unit
IsBlock (some b) = IsBlockId b

-- A vote passes validation exactly if it is a prevote or a precommit, its height, round and validator
-- index are not negative, its validator address is 20 bytes long, and its block ID, if any, is valid.
pub validate_vote_iff :
    (v : Vote)
    → (validate_vote v ≡ none) ↔ (
        ((v.vote_type ≡ 1) ⊎ (v.vote_type ≡ 2))
        × (pos 0 ≤ℤ v.height)
        × (pos 0 ≤ℤ v.round)
        × (pos 0 ≤ℤ v.validator_index)
        × (length v.validator_address ≡ 20)
        × IsBlock v.block_id)
unfolding validate_vote
validate_vote_iff v = ((λ h. ground arith), (λ h. ground arith))

-- The bytes of a vote that are signed do not depend on a signature that the request carries.
sign_vote_bytes-set_vote_signature :
    (codec : Codec) (chain_id : String) (version : ProtocolVersion) (sig : Bytes)
    (r : SignVoteRequest)
    → sign_vote_bytes codec chain_id version (set_vote_signature sig r)
      ≡ sign_vote_bytes codec chain_id version r
unfolding sign_vote_bytes set_vote_signature
sign_vote_bytes-set_vote_signature codec chain_id version sig r = ground arith
