-- ===== src/Amino/Proposal/Laws.antt =====
-- What proposals pass validation, and what of a proposal is signed (src/amino_types/proposal.rs).
use tmkms.Prelude.{◌≡◌, ◌↔◌, String, none, arith}
use tmkms.Prelude.Int.{pos, negsuc, ◌≤ℤ◌}
use tmkms.Tendermint.{Bytes}
use tmkms.Config.Validator.{ProtocolVersion}
use tmkms.Amino.Messages.{Proposal, SignProposalRequest}
use tmkms.Amino.SignedMsg.{Codec}
use tmkms.Amino.Proposal.{validate_proposal, sign_proposal_bytes, set_proposal_signature}

-- A proposal passes validation exactly if it is of the type 32, its height and round are not
-- negative, and its proof-of-lock round is at least -1.
pub validate_proposal_iff :
    (p : Proposal)
    → (validate_proposal p ≡ none)
      ↔ ((p.msg_type ≡ 32) × (pos 0 ≤ℤ p.height) × (pos 0 ≤ℤ p.round) × (negsuc 0 ≤ℤ p.pol_round))
unfolding validate_proposal
validate_proposal_iff p = ((λ h. ground arith), (λ h. ground arith))

-- The bytes of a proposal that are signed do not depend on a signature that the request carries.
sign_proposal_bytes-set_proposal_signature :
    (codec : Codec) (chain_id : String) (version : ProtocolVersion) (sig : Bytes)
    (r : SignProposalRequest)
    → sign_proposal_bytes codec chain_id version (set_proposal_signature sig r)
      ≡ sign_proposal_bytes codec chain_id version r
unfolding sign_proposal_bytes set_proposal_signature
sign_proposal_bytes-set_proposal_signature codec chain_id version sig r = ground arith
