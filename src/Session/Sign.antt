-- ===== src/Session/Sign.antt =====
-- What `Session::sign` (src/session.rs) has done when it answers.
use tmkms.Prelude.{◌≡◌, refl, sym, ◌∙◌, ap, false, Option, none, some, String, arith, Outcome, ok}
use tmkms.Prelude.Exec.{◌>>=◌, >>=-ok, lift}
use tmkms.Error.{ErrorKind}
use tmkms.Tendermint.{ConsensusState}
use tmkms.Config.Validator.{ValidatorConfig}
use tmkms.Chain.{Chain}
use tmkms.Chain.Registry.{get_chain}
use tmkms.Chain.State
use tmkms.Chain.State.{State, Weather, StateErrorKind}
use tmkms.Amino.Messages.{Response, RemoteError}
use tmkms.Amino.SignedMsg.{SignedMsgType, TendermintRequest}
use tmkms.Session.{
  Platform, Kms, store, validated, check_max_height, find_chain, parse_request,
  update_consensus_state, locked_update, report, respond, sign,
}

module _ (env : Platform) (w : Weather) where
  pub find_chain-ok :
      (config : ValidatorConfig) (kms : Kms) {chain : Chain}
      → (find_chain env w config kms).0 ≡ ok chain
      → (get_chain env.ids config.chain_id kms.registry ≡ some chain)
        × ((find_chain env w config kms).1 ≡ kms)
  unfolding find_chain
  find_chain-ok config kms h = ground arith

  -- The answer of the state, and what it leaves, for a chain and the state that is asked for.
  abbrev pub asked :
      Kms → Chain → ConsensusState → Outcome StateErrorKind (Unit {0}) × State × State.Disk
  asked kms chain new =
      State.update_consensus_state env.io w env.tendermint new chain.state
        (kms.files chain.state.state_file_path)

  pub locked_update-ok :
      (key : String) (chain : Chain) (new : ConsensusState) (kms : Kms)
      {remote : Option RemoteError}
      → (locked_update env w key chain new kms).0 ≡ ok remote
      → (chain.poisoned ≡ false)
        × (report new (asked kms chain new).0 ≡ ok remote)
        × ((locked_update env w key chain new kms).1
            ≡ store env w key chain (asked kms chain new) kms)
  unfolding locked_update
  locked_update-ok key chain new kms h = ground arith

module _ {R : Type 0} ⦃request : TendermintRequest R⦄ where
  validated-ok : (r : R) {u : Unit {0}} → validated r ≡ ok u → request.validate r ≡ none
  unfolding validated
  validated-ok r h = ground arith

  -- What a request went through before its answer is built.
  pub record Admitted (env : Platform) (w : Weather) (config : ValidatorConfig) (r : R)
      (kms kms' : Kms) (remote : Option RemoteError) : Type 0 where
    pub chain : Chain
    pub msg_type : SignedMsgType
    pub new : ConsensusState
    pub valid : request.validate r ≡ none
    pub within : check_max_height config r ≡ ok tt
    pub known : get_chain env.ids config.chain_id kms.registry ≡ some chain
    pub parsed : parse_request env.tendermint r ≡ ok (msg_type, new)
    pub sound : chain.poisoned ≡ false
    pub answered : report new (asked env w kms chain new).0 ≡ ok remote
    pub stored : kms' ≡ store env w config.chain_id chain (asked env w kms chain new) kms

module _ {R : Type 0} ⦃request : TendermintRequest R⦄ (env : Platform) (w : Weather) where
  pub update_consensus_state-ok :
      (config : ValidatorConfig) (chain : Chain) (r : R) (kms : Kms) {remote : Option RemoteError}
      → (update_consensus_state env w config chain r kms).0 ≡ ok remote
      → (ty : SignedMsgType) × (new : ConsensusState) × (parse_request env.tendermint r
          ≡ ok (ty, new))
        × (update_consensus_state env w config chain r kms
            ≡ locked_update env w config.chain_id chain new kms)
  unfolding update_consensus_state
  update_consensus_state-ok config chain r kms h =
      let ((ty, new), parsed, rest) =
        >>=-ok (lift (parse_request env.tendermint r)) _ kms
          (update_consensus_state env w config chain r kms) refl h in
      (ty, new, parsed, rest)

  pub sign-Admitted :
      (config : ValidatorConfig) (r : R) (kms : Kms) {resp : Response}
      → (sign env w config r kms).0 ≡ ok resp
      → (remote : Option RemoteError) × (kms' : Kms) × (a : Admitted env w config r kms kms' remote)
        × (sign env w config r kms ≡ respond env w config a.chain r remote kms')
  unfolding sign
  sign-Admitted config r kms h =
      let whole = sign env w config r kms in
      let (_, valid, one) = >>=-ok (lift (validated r)) _ kms whole refl h in
      let (_, within, two) = >>=-ok (lift (check_max_height config r)) _ kms whole one h in
      let (chain, found, three) = >>=-ok (find_chain env w config) _ kms whole two h in
      let (known, same) = find_chain-ok env w config kms found in
      let (remote, updated, four) =
        >>=-ok (update_consensus_state env w config chain r) _ kms whole
          (three
            ∙ ap
                (λ (k : Kms).
                  (update_consensus_state env w config chain r >>= λ remote.
                  respond env w config chain r remote)
                    k)
                same)
          h in
      let (ty, new, parsed, locked) = update_consensus_state-ok config chain r kms updated in
      let (sound, answered, stored) =
        locked_update-ok env w config.chain_id chain new kms
          (ap (λ (p : Outcome ErrorKind (Option RemoteError) × Kms). p.0) (sym locked) ∙ updated) in
      (
        remote,
        (update_consensus_state env w config chain r kms).1,
        record {
          chain = chain;
          msg_type = ty;
          new = new;
          valid = validated-ok r valid;
          within = within;
          known = known;
          parsed = parsed;
          sound = sound;
          answered = answered;
          stored = ap (λ (p : Outcome ErrorKind (Option RemoteError) × Kms). p.1) locked ∙ stored;
        },
        four,
      )
