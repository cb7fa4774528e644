-- ===== src/Session/Interleave.antt =====
-- Sessions that run at the same time (src/session.rs, one thread of src/client.rs each): what a
-- session does under the lock of its chain is one step, and the steps of the sessions follow one
-- another in any order.
pub mod Backed
pub mod Covers
pub mod Safety
use tmkms.Prelude.{
  ℕ, ◌≡◌, String, Option, none, some, List, [], ◌∷◌, if◌then◌else◌, Outcome, ok, err, panic, str_eq,
  ◌==◌,
}
use tmkms.Prelude.Exec.{Exec, pure, lift, ◌>>=◌, ◌>>◌}
use tmkms.Error.{ErrorKind}
use tmkms.Tendermint.{ConsensusState}
use tmkms.Config.Validator.{ValidatorConfig}
use tmkms.Chain.{Chain}
use tmkms.Chain.State.{Weather}
use tmkms.Amino.Messages.{SignVoteRequest, SignProposalRequest, Response, RemoteError}
use tmkms.Amino.SignedMsg.{SignedMsgType, TendermintRequest}
use tmkms.Amino.Vote.{vote_request}
use tmkms.Amino.Proposal.{proposal_request}
use tmkms.Session.{
  Platform, Kms, validated, check_max_height, find_chain, parse_request, update_consensus_state,
  respond,
}
use tmkms.Session.Trace.{after_answer}

-- A request that is signed, of either kind.
pub data Signable : Type 0 where
  vote : SignVoteRequest → Signable
  proposal : SignProposalRequest → Signable

abbrev of_kind {ℓ} : {A : Type ℓ} → ((R : Type 0) → TendermintRequest R → R → A) → Signable → A
of_kind f (vote r) = f SignVoteRequest vote_request r
of_kind f (proposal r) = f SignProposalRequest proposal_request r

abbrev with_signature : List ℕ → Signable → Signable
with_signature signature (vote r) = vote (vote_request.set_signature signature r)
with_signature signature (proposal r) = proposal (proposal_request.set_signature signature r)

instance abbrev pub signable_request : TendermintRequest Signable
signable_request = record {
  sign_bytes = λ codec id version. of_kind (λ _ request. request.sign_bytes codec id version);
  set_signature = with_signature;
  validate = of_kind (λ _ request. request.validate);
  consensus_state = λ t. of_kind (λ _ request. request.consensus_state t);
  height = of_kind (λ _ request. request.height);
  msg_type = of_kind (λ _ request. request.msg_type);
  build_response = λ e. of_kind (λ _ request. request.build_response e);
}

-- Where a session stands with its request. It is over with the response that is written back, or
-- with the error or panic that ends the session.
pub data Phase : Type 0 where
  idle : Phase
  checked : Signable → Phase
  updated : Signable → Chain → Option RemoteError → Phase
  over : Outcome ErrorKind Response → Phase

unfoldable pub phase_after {ℓ} : {A : Type ℓ} → (A → Phase) → Outcome ErrorKind A → Phase
phase_after f (ok a) = f a
phase_after f (err e) = over (err e)
phase_after f (panic p) = over (panic p)

abbrev pub updated_to : Signable → Chain × Option RemoteError → Phase
updated_to r (chain, remote) = updated r chain remote

-- The granted states, the last one first, after one more update.
unfoldable pub after_update :
    Outcome ErrorKind (Chain × Option RemoteError)
    → Outcome ErrorKind (SignedMsgType × ConsensusState)
    → List ConsensusState
    → List ConsensusState
after_update (ok (chain, none)) (ok (ty, new)) granted = new ∷ granted
after_update (ok (chain, none)) (err e) granted = granted
after_update (ok (chain, none)) (panic p) granted = granted
after_update (ok (chain, some e)) asks granted = granted
after_update (err e) asks granted = granted
after_update (panic p) asks granted = granted

abbrev pub at_thread {ℓ} : {A : Type ℓ} → (ℕ → A) → ℕ → A → ℕ → A
at_thread f i a j = if j == i then a else f j

abbrev pub at_id {ℓ} : {A : Type ℓ} → (String → A) → String → A → String → A
at_id f id a other = if str_eq other id then a else f other

-- The threads over what they share. `granted` and `signed` are kept for each chain ID, the last
-- state first: what the chain's state let through, and what was handed out signed.
pub record System : Type 0 where
  pub kms : Kms
  pub phase : ℕ → Phase
  pub granted : String → List ConsensusState
  pub signed : String → List ConsensusState

-- The program has started: no session has read a request yet.
abbrev pub started : Kms → System
started kms = record { kms = kms; phase = λ _. idle; granted = λ _. []; signed = λ _. [] }

module _ (env : Platform) where
  -- `sign` before it looks at the chain
  unfoldable pub check : ValidatorConfig → Signable → Exec Kms ErrorKind (Unit {0})
  check config r = do lift (validated r); lift (check_max_height config r)

  -- `sign` until it has let go of the lock
  unfoldable pub update :
      Weather → ValidatorConfig → Signable → Exec Kms ErrorKind (Chain × Option RemoteError)
  update w config r = do
    chain ← find_chain env w config
    remote ← update_consensus_state env w config chain r
    pure (chain, remote)

  module _ (configs : ℕ → ValidatorConfig) (s : System) (i : ℕ) where
    abbrev pub check_step : Signable → System
    check_step r = record s {
      phase = at_thread s.phase i (phase_after (λ _. checked r) (check (configs i) r s.kms).0);
    }

    abbrev pub update_step : Weather → Signable → System
    update_step w r =
        let (out, kms') = update w (configs i) r s.kms in
        let id = (configs i).chain_id in
        record s {
          kms = kms';
          phase = at_thread s.phase i (phase_after (updated_to r) out);
          granted =
              at_id s.granted id (after_update out (parse_request env.tendermint r) (s.granted id));
        }

    abbrev pub respond_step : Weather → Signable → Chain → Option RemoteError → System
    respond_step w r chain remote =
        let (out, kms') = respond env w (configs i) chain r remote s.kms in
        let id = (configs i).chain_id in
        record s {
          kms = kms';
          phase = at_thread s.phase i (over out);
          signed =
              at_id s.signed id (after_answer out (parse_request env.tendermint r) (s.signed id));
        }

  -- One step of the thread `i`, whose session is configured by `configs i`.
  pub data Step (configs : ℕ → ValidatorConfig) (s : System) : System → Type 0 where
    read : (i : ℕ) (r : Signable) → s.phase i ≡ idle → Step configs s (check_step configs s i r)
    lock :
        (i : ℕ) (w : Weather) (r : Signable)
        → s.phase i ≡ checked r
        → Step configs s (update_step configs s i w r)
    answer :
        (i : ℕ) (w : Weather) (r : Signable) (chain : Chain) (remote : Option RemoteError)
        → s.phase i ≡ updated r chain remote
        → Step configs s (respond_step configs s i w r chain remote)
    again :
        (i : ℕ) (out : Outcome ErrorKind Response)
        → s.phase i ≡ over out
        → Step configs s (record s { phase = at_thread s.phase i idle })

  pub data Reach (configs : ℕ → ValidatorConfig) (s : System) : System → Type 0 where
    here : Reach configs s s
    next : {t u : System} → Reach configs s t → Step configs t u → Reach configs s u
