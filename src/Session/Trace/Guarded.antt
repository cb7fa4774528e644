-- ===== src/Session/Trace/Guarded.antt =====
-- No two conflicting signatures leave the sessions of a chain (src/session.rs).
use tmkms.Prelude.{◌≡◌, refl, sym, subst, List, [], ◌∷◌, Memᴰ, arith}
use tmkms.Tendermint.{ConsensusState}
use tmkms.Map.{IsKeyOrd}
use tmkms.Config.Validator.{ValidatorConfig}
use tmkms.Chain.State.{Weather}
use tmkms.Chain.State.Guards.{HasIdEq, SameStep}
use tmkms.Chain.State.History.Guarded.{IsGuarded, IsGuarded-agree}
use tmkms.Amino.Messages.{Request, sign_vote, sign_proposal, show_public_key, reply_ping}
use tmkms.Amino.Vote.{vote_request, build_vote_response}
use tmkms.Amino.Proposal.{proposal_request, build_proposal_response}
use tmkms.Rpc.{Wire}
use tmkms.Session.{Platform, Kms, find_chain}
use tmkms.Session.Loop.{respond_to, get_public_key}
use tmkms.Session.Trace.{is_signature, after_request, serve}
use tmkms.Session.Trace.Covers.{Covers, answer-Covers}

module _ (env : Platform) (wire : Wire) (lawful : HasIdEq env.tendermint)
    (keyed : IsKeyOrd env.ids) where
  get_public_key_keeps :
      (w : Weather) (config : ValidatorConfig) (kms : Kms)
      → (get_public_key env wire w config kms).1 ≡ kms
  unfolding get_public_key find_chain
  get_public_key_keeps w config kms = ground arith

  request-Covers :
      (config : ValidatorConfig) (r : Request) (w : Weather) (kms : Kms)
      (signed : List ConsensusState)
      → Covers env config kms signed
      → Covers env config
          (respond_to env wire w config r kms).1
          (after_request env wire config r (respond_to env wire w config r kms).0 signed)
  unfolding respond_to after_request
  request-Covers config (sign_vote r) w kms signed v =
      answer-Covers env lawful keyed w config r kms signed _ _
        (λ e. unfold build_vote_response is_signature in refl) refl refl v
  request-Covers config (sign_proposal r) w kms signed v =
      answer-Covers env lawful keyed w config r kms signed _ _
        (λ e. unfold build_proposal_response is_signature in refl) refl refl v
  request-Covers config show_public_key w kms signed v =
      subst (λ k. Covers env config k signed) (sym (get_public_key_keeps w config kms)) v
  request-Covers config reply_ping w kms signed v = v

  serve-Covers :
      (config : ValidatorConfig) (rs : List (Request × Weather)) (kms : Kms)
      (signed : List ConsensusState)
      → Covers env config kms signed
      → IsGuarded (serve env wire config rs kms signed)
  unfolding serve
  serve-Covers config [] kms signed v = v.guarded
  serve-Covers config ((r, w) ∷ rs) kms signed v =
      serve-Covers config rs _ _ (request-Covers config r w kms signed v)

  -- Whatever requests the sessions of a chain serve one after the other while the program runs,
  -- however the disk behaves, and whatever was in memory first: of the consensus states that the
  -- signed votes and proposals ask for, two of the same height, round and step have the same
  -- block ID, if `==` on block IDs and on chain IDs is equality.
  pub served_agree :
      (config : ValidatorConfig) (rs : List (Request × Weather)) (kms : Kms) (a b : ConsensusState)
      → Memᴰ a (serve env wire config rs kms [])
      → Memᴰ b (serve env wire config rs kms [])
      → SameStep a b
      → a.block_id ≡ b.block_id
  served_agree config rs kms a b =
      IsGuarded-agree
        (serve-Covers config rs kms [] (record { guarded = tt; held = λ chain h. tt }))
