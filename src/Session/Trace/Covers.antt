-- ===== src/Session/Trace/Covers.antt =====
-- The state in memory guards what was signed, after every call of `Session::sign` (src/session.rs).
use tmkms.Prelude.{
  ◌≡◌, ◌≢◌, refl, sym, ap, ◌∙◌, subst, ◌⊎◌, inl, inr, true, false, Option, none, some, List, ◌∷◌,
  All, Outcome, ok, err, panic, Bool-cases,
}
use tmkms.Error.{ErrorKind}
use tmkms.Tendermint.{ConsensusState}
use tmkms.Map.{IsKeyOrd}
use tmkms.Map.Laws.{get-put_self}
use tmkms.Config.Validator.{ValidatorConfig}
use tmkms.Chain.{Chain}
use tmkms.Chain.Registry.{get_chain}
use tmkms.Chain.State.{State, Weather, StateErrorKind}
use tmkms.Chain.State.Guards.{HasIdEq, Guards, Guards-refl, Allowed-Guards}
use tmkms.Chain.State.Update.{update_granted, update_not_granted}
use tmkms.Chain.State.History.Guarded.{IsGuarded, All-Guards}
use tmkms.Amino.Messages.{Response, RemoteError}
use tmkms.Amino.SignedMsg.{SignedMsgType, TendermintRequest}
use tmkms.Amino.Vote.{vote_request}
use tmkms.Amino.Proposal.{proposal_request}
use tmkms.Session.{Platform, Kms, poisons, parse_request, store, respond, sign}
use tmkms.Session.Sign.{Admitted, asked, sign-Admitted}
use tmkms.Session.Cases.{sign_cases, respond_keeps}
use tmkms.Session.Recorded.{report-none}
use tmkms.Session.Trace.{is_signature, after_answer}

-- The state in memory guards all that was signed.
pub record Covers (env : Platform) (config : ValidatorConfig) (kms : Kms)
    (signed : List ConsensusState) : Type 0 where
  pub guarded : IsGuarded signed
  pub held :
      (chain : Chain)
      → get_chain env.ids config.chain_id kms.registry ≡ some chain
      → All (Guards chain.state.consensus_state) signed

pub ok_cases : (out : Outcome StateErrorKind (Unit {0})) → (out ≡ ok tt) ⊎ (out ≢ ok tt)
ok_cases (ok tt) = inl refl
ok_cases (err e) = inr (λ h. cc h)
ok_cases (panic p) = inr (λ h. cc h)

module _ (env : Platform) (lawful : HasIdEq env.tendermint) (keyed : IsKeyOrd env.ids) where
  get_chain-store :
      (w : Weather) (config : ValidatorConfig) (chain : Chain) (new : ConsensusState) (kms : Kms)
      (other : Chain)
      → get_chain env.ids config.chain_id
          (store env w config.chain_id chain (asked env w kms chain new) kms).registry
        ≡ some other
      → other.state ≡ (asked env w kms chain new).1
  unfolding get_chain store
  get_chain-store w config chain new kms other h =
      let result = asked env w kms chain new in
      let put_back =
        get-put_self env.ids keyed config.chain_id
          (record chain { state = result.1; poisoned = poisons result.0 }) kms.registry in
      cc (h, put_back)

  asked-Guards :
      (w : Weather) (chain : Chain) (new : ConsensusState) (kms : Kms)
      → Guards (asked env w kms chain new).1.consensus_state chain.state.consensus_state
  asked-Guards w chain new kms =
      let last = chain.state.consensus_state in
      let result = asked env w kms chain new in
      let file = kms.files chain.state.state_file_path in
      elim (ok_cases result.0) [
        | inl granted ↦
            let (allowed, held, _) =
              update_granted env.io w env.tendermint lawful new chain.state file granted in
            subst (λ c. Guards c last) (sym held) (Allowed-Guards new last allowed)
        | inr refused ↦
            elim (update_not_granted env.io w env.tendermint lawful new chain.state file
              refused).1 [
                | inl same ↦
                    subst (λ (s : State). Guards s.consensus_state last) (sym same)
                      (Guards-refl last)
                | inr (allowed, held) ↦
                    subst (λ c. Guards c last) (sym held) (Allowed-Guards new last allowed)
              ]
      ]

  -- Nothing new is signed: the state that was asked for, granted or not, still covers the rest.
  pub stored-Covers :
      (w : Weather) (config : ValidatorConfig) (chain : Chain) (new : ConsensusState)
      (kms kms' : Kms) (signed : List ConsensusState)
      → get_chain env.ids config.chain_id kms.registry ≡ some chain
      → kms' ≡ store env w config.chain_id chain (asked env w kms chain new) kms
      → Covers env config kms signed
      → Covers env config kms' signed
  stored-Covers w config chain new kms kms' signed known stored v =
      subst (λ k. Covers env config k signed) (sym stored)
        (record {
          guarded = v.guarded;
          held = λ other found.
              subst (λ (s : State). All (Guards s.consensus_state) signed)
                (sym (get_chain-store w config chain new kms other found))
                (All-Guards (asked env w kms chain new).1.consensus_state
                  chain.state.consensus_state signed (asked-Guards w chain new kms)
                  (v.held chain known));
        })

  -- The state that was granted is signed.
  pub granted-Covers :
      (w : Weather) (config : ValidatorConfig) (chain : Chain) (new : ConsensusState)
      (kms kms' : Kms) (signed : List ConsensusState)
      → get_chain env.ids config.chain_id kms.registry ≡ some chain
      → kms' ≡ store env w config.chain_id chain (asked env w kms chain new) kms
      → (asked env w kms chain new).0 ≡ ok tt
      → Covers env config kms signed
      → Covers env config kms' (new ∷ signed)
  granted-Covers w config chain new kms kms' signed known stored granted v =
      let last = chain.state.consensus_state in
      let (allowed, held, _) =
        update_granted env.io w env.tendermint lawful new chain.state
          (kms.files chain.state.state_file_path) granted in
      let older =
        All-Guards new last signed (Allowed-Guards new last allowed) (v.held chain known) in
      subst (λ k. Covers env config k (new ∷ signed)) (sym stored)
        (record {
          guarded = (older, v.guarded);
          held = λ other found.
              subst (λ c. All (Guards c) (new ∷ signed))
                (sym (
                  ap (λ (s : State). s.consensus_state)
                    (get_chain-store w config chain new kms other found)
                  ∙ held))
                (Guards-refl new, older);
        })

module _ {R : Type 0} ⦃request : TendermintRequest R⦄ (env : Platform)
    (lawful : HasIdEq env.tendermint) (keyed : IsKeyOrd env.ids) where
  Admitted-Covers :
      (w : Weather) (config : ValidatorConfig) (r : R) (kms kms' : Kms)
      (signed : List ConsensusState) (resp : Response) (remote : Option RemoteError)
      → ((e : RemoteError) → is_signature (request.build_response (some e) r) ≡ false)
      → (a : Admitted env w config r kms kms' remote)
      → (respond env w config a.chain r remote kms').0 ≡ ok resp
      → is_signature resp ≡ true
      → Covers env config kms signed
      → Covers env config (respond env w config a.chain r remote kms').1 (a.new ∷ signed)
  Admitted-Covers w config r kms kms' signed resp none reports a h is_signed v =
      subst (λ k. Covers env config k (a.new ∷ signed))
        (sym (respond_keeps env w config a.chain r none kms'))
        (granted-Covers env lawful keyed w config a.chain a.new kms kms' signed a.known a.stored
          (report-none a.new (asked env w kms a.chain a.new).0 a.answered) v)
  Admitted-Covers w config r kms kms' signed resp (some e) reports a h is_signed v =
      unfold respond in
      let same : request.build_response (some e) r ≡ resp = cc h in
      absurd (cc (same, is_signed, reports e))

  signed-Covers :
      (w : Weather) (config : ValidatorConfig) (r : R) (kms : Kms) (signed : List ConsensusState)
      (resp : Response) (ty : SignedMsgType) (new : ConsensusState)
      → ((e : RemoteError) → is_signature (request.build_response (some e) r) ≡ false)
      → (sign env w config r kms).0 ≡ ok resp
      → is_signature resp ≡ true
      → parse_request env.tendermint r ≡ ok (ty, new)
      → Covers env config kms signed
      → Covers env config (sign env w config r kms).1 (new ∷ signed)
  signed-Covers w config r kms signed resp ty new reports h is_signed parsed v =
      let (remote, kms', a, same) = sign-Admitted env w config r kms h in
      let answered = ap (λ (p : Outcome ErrorKind Response × Kms). p.0) (sym same) ∙ h in
      let same_new : a.new ≡ new = cc (a.parsed, parsed) in
      subst (λ k. Covers env config k (new ∷ signed))
        (sym (ap (λ (p : Outcome ErrorKind Response × Kms). p.1) same))
        (subst (λ c. Covers env config (respond env w config a.chain r remote kms').1 (c ∷ signed))
          same_new
          (Admitted-Covers w config r kms kms' signed resp remote reports a answered is_signed v))

  kept-Covers :
      (w : Weather) (config : ValidatorConfig) (r : R) (kms : Kms) (signed : List ConsensusState)
      → Covers env config kms signed
      → Covers env config (sign env w config r kms).1 signed
  kept-Covers w config r kms signed v = elim (sign_cases env w config r kms) [
    | inl same ↦ subst (λ k. Covers env config k signed) (sym same) v
    | inr u ↦ stored-Covers env lawful keyed w config u.chain u.new kms _ signed u.known u.stored v
  ]

  pub answer-Covers :
      (w : Weather) (config : ValidatorConfig) (r : R) (kms : Kms) (signed : List ConsensusState)
      (out : Outcome ErrorKind Response) (asks : Outcome ErrorKind (SignedMsgType × ConsensusState))
      → ((e : RemoteError) → is_signature (request.build_response (some e) r) ≡ false)
      → (sign env w config r kms).0 ≡ out
      → parse_request env.tendermint r ≡ asks
      → Covers env config kms signed
      → Covers env config (sign env w config r kms).1 (after_answer out asks signed)
  unfolding after_answer
  answer-Covers w config r kms signed (ok resp) (ok (ty, new)) reports h parsed v =
      elim (Bool-cases (is_signature resp)) [
        | inl is_signed ↦
            rw is_signed
              (signed-Covers w config r kms signed resp ty new reports h is_signed parsed v)
        | inr no_signature ↦ rw no_signature (kept-Covers w config r kms signed v)
      ]
  answer-Covers w config r kms signed (ok resp) (err e) reports h parsed v =
      kept-Covers w config r kms signed v
  answer-Covers w config r kms signed (ok resp) (panic p) reports h parsed v =
      kept-Covers w config r kms signed v
  answer-Covers w config r kms signed (err e) asks reports h parsed v =
      kept-Covers w config r kms signed v
  answer-Covers w config r kms signed (panic p) asks reports h parsed v =
      kept-Covers w config r kms signed v
