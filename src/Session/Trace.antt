-- ===== src/Session/Trace.antt =====
-- The states that the sessions of one chain sign (src/session.rs), over any sequence of requests.
pub mod Covers
pub mod Guarded
use tmkms.Prelude.{
  Bool, true, false, not, ◌&&◌, is_some, List, [], ◌∷◌, if◌then◌else◌, Outcome, ok, err, panic,
}
use tmkms.Error.{ErrorKind}
use tmkms.Tendermint.{ConsensusState, Tendermint}
use tmkms.Config.Validator.{ValidatorConfig}
use tmkms.Chain.State.{Weather}
use tmkms.Amino.Messages.{
  Request, sign_vote, sign_proposal, show_public_key, reply_ping, Response, signed_vote,
  signed_proposal, ping, public_key,
}
use tmkms.Amino.SignedMsg.{SignedMsgType}
use tmkms.Amino.Vote.{vote_request}
use tmkms.Amino.Proposal.{proposal_request}
use tmkms.Rpc.{Wire}
use tmkms.Session.{Platform, Kms, parse_request}
use tmkms.Session.Loop.{respond_to}

-- Whether a response hands out a signature, and is no report of an error.
unfoldable pub is_signature : Response → Bool
is_signature (signed_vote r) = is_some r.vote && not (is_some r.error)
is_signature (signed_proposal r) = is_some r.proposal && not (is_some r.error)
is_signature ping = false
is_signature (public_key r) = false

-- The signed states, the last one first, after one more answer.
unfoldable pub after_answer :
    Outcome ErrorKind Response
    → Outcome ErrorKind (SignedMsgType × ConsensusState)
    → List ConsensusState
    → List ConsensusState
after_answer (ok resp) (ok (ty, new)) signed = if is_signature resp then new ∷ signed else signed
after_answer (ok resp) (err e) signed = signed
after_answer (ok resp) (panic p) signed = signed
after_answer (err e) asked signed = signed
after_answer (panic p) asked signed = signed

module _ (env : Platform) (wire : Wire) (config : ValidatorConfig) where
  unfoldable pub after_request :
      Request → Outcome ErrorKind Response → List ConsensusState → List ConsensusState
  unfolding after_answer
  after_request (sign_vote r) out signed = after_answer out (parse_request env.tendermint r) signed
  after_request (sign_proposal r) out signed =
      after_answer out (parse_request env.tendermint r) signed
  after_request show_public_key out signed = signed
  after_request reply_ping out signed = signed

  -- The requests of all sessions of the chain in the order in which they are served, each with what
  -- the disk does meanwhile.
  unfoldable pub serve : List (Request × Weather) → Kms → List ConsensusState → List ConsensusState
  unfolding after_request
  serve [] kms signed = signed
  serve ((r, w) ∷ rs) kms signed =
      let (out, kms') = respond_to env wire w config r kms in
      serve rs kms' (after_request r out signed)
