-- ===== src/Session/Cases.antt =====
-- What `Session::sign` (src/session.rs) does to the registry and the files, whatever it answers.
use tmkms.Prelude.{
  ◌≡◌, sym, subst, ◌∙◌, ap, ◌⊎◌, inl, inr, false, Option, some, String, arith, Option-cases,
  Outcome, ok,
}
use tmkms.Prelude.Exec.{◌>>=◌, ◌>>◌, continue, lift, >>=-cases}
use tmkms.Error.{ErrorKind}
use tmkms.Tendermint.{ConsensusState}
use tmkms.Config.Validator.{ValidatorConfig}
use tmkms.Chain.{Chain}
use tmkms.Chain.Registry.{get_chain}
use tmkms.Chain.State.{Weather}
use tmkms.Amino.Messages.{Response, RemoteError}
use tmkms.Amino.SignedMsg.{SignedMsgType, TendermintRequest}
use tmkms.Session.{
  Platform, Kms, store, validated, check_max_height, find_chain, locked_update,
  update_consensus_state, parse_request, respond, sign,
}
use tmkms.Session.Sign.{asked}

module _ (env : Platform) (w : Weather) where
  locked_cases :
      (key : String) (chain : Chain) (new : ConsensusState) (kms : Kms)
      → ((locked_update env w key chain new kms).1 ≡ kms)
        ⊎ ((chain.poisoned ≡ false)
            × ((locked_update env w key chain new kms).1
                ≡ store env w key chain (asked env w kms chain new) kms))
  unfolding locked_update
  locked_cases key chain new kms = ground arith

module _ {R : Type 0} ⦃request : TendermintRequest R⦄ (env : Platform) (w : Weather) where
  pub respond_keeps :
      (config : ValidatorConfig) (chain : Chain) (r : R) (remote : Option RemoteError) (kms : Kms)
      → (respond env w config chain r remote kms).1 ≡ kms
  unfolding respond
  respond_keeps config chain r remote kms = ground arith

  -- The update of the state that was asked for, if it came to this.
  pub record Updated (config : ValidatorConfig) (r : R) (kms kms' : Kms) : Type 0 where
    pub chain : Chain
    pub msg_type : SignedMsgType
    pub new : ConsensusState
    pub known : get_chain env.ids config.chain_id kms.registry ≡ some chain
    pub sound : chain.poisoned ≡ false
    pub parsed : parse_request env.tendermint r ≡ ok (msg_type, new)
    pub stored : kms' ≡ store env w config.chain_id chain (asked env w kms chain new) kms

  pub update_cases :
      (config : ValidatorConfig) (chain : Chain) (r : R) (kms : Kms)
      → get_chain env.ids config.chain_id kms.registry ≡ some chain
      → ((update_consensus_state env w config chain r kms).1 ≡ kms)
        ⊎ Updated config r kms (update_consensus_state env w config chain r kms).1
  unfolding update_consensus_state
  update_cases config chain r kms known =
      elim (>>=-cases (lift (parse_request env.tendermint r))
        (λ p. locked_update env w config.chain_id chain p.1) kms) [
          | inl kept ↦ inl kept
          | inr ((ty, new), parsed, same) ↦
              let state = λ (p : Outcome ErrorKind (Option RemoteError) × Kms). p.1 in
              elim (locked_cases env w config.chain_id chain new kms) [
                | inl kept ↦ inl (ap state same ∙ kept)
                | inr (sound, stored) ↦ inr (record {
                  chain = chain;
                  msg_type = ty;
                  new = new;
                  known = known;
                  sound = sound;
                  parsed = parsed;
                  stored = ap state same ∙ stored;
                })
              ]
        ]

  known_cases :
      (config : ValidatorConfig) (r : R) (kms : Kms) (chain : Chain)
      → get_chain env.ids config.chain_id kms.registry ≡ some chain
      → let rest = λ (remote : Option RemoteError). respond env w config chain r remote in
        (((update_consensus_state env w config chain r >>= rest) kms).1 ≡ kms)
        ⊎ Updated config r kms ((update_consensus_state env w config chain r >>= rest) kms).1
  known_cases config r kms chain known =
      let update = update_consensus_state env w config chain r in
      let rest = λ (remote : Option RemoteError). respond env w config chain r remote in
      let same : ((update >>= rest) kms).1 ≡ (update kms).1 = elim (>>=-cases update rest kms) [
        | inl kept ↦ kept
        | inr (remote, answered, same) ↦
            ap (λ (p : Outcome ErrorKind Response × Kms). p.1) same
            ∙ respond_keeps config chain r remote (update kms).1
      ] in
      subst (λ k. (k ≡ kms) ⊎ Updated config r kms k) (sym same)
        (update_cases config chain r kms known)

  found_cases :
      (config : ValidatorConfig) (r : R) (kms : Kms)
      → let answer = λ (chain : Chain).
        update_consensus_state env w config chain r
        >>= (λ (remote : Option RemoteError). respond env w config chain r remote) in
        (((find_chain env w config >>= answer) kms).1 ≡ kms)
        ⊎ Updated config r kms ((find_chain env w config >>= answer) kms).1
  unfolding find_chain
  found_cases config r kms = elim (Option-cases (get_chain env.ids config.chain_id kms.registry)) [
    | inl missing ↦ inl (ground arith)
    | inr (chain, known) ↦
        let answer = λ (chain : Chain).
          update_consensus_state env w config chain r
          >>= (λ (remote : Option RemoteError). respond env w config chain r remote) in
        let found : find_chain env w config kms ≡ (ok chain, kms) = ground arith in
        subst
          (λ (p : Outcome ErrorKind Chain × Kms).
            ((continue p.0 answer p.1).1 ≡ kms) ⊎ Updated config r kms (continue p.0 answer p.1).1)
          (sym found) (known_cases config r kms chain known)
  ]

  -- A request leaves everything as it was, or updates the state of its chain once.
  pub sign_cases :
      (config : ValidatorConfig) (r : R) (kms : Kms)
      → ((sign env w config r kms).1 ≡ kms) ⊎ Updated config r kms (sign env w config r kms).1
  unfolding sign find_chain
  sign_cases config r kms =
      let state = λ (p : Outcome ErrorKind Response × Kms). p.1 in
      let goal = λ (k : Kms). (k ≡ kms) ⊎ Updated config r kms k in
      let answer = λ (chain : Chain).
        update_consensus_state env w config chain r
        >>= (λ (remote : Option RemoteError). respond env w config chain r remote) in
      let after_check = find_chain env w config >>= answer in
      let after_validate = lift (check_max_height config r) >> after_check in
      elim (>>=-cases (lift (validated r)) (λ _. after_validate) kms) [
        | inl kept ↦ inl kept
        | inr (_, _, one) ↦
            elim (>>=-cases (lift (check_max_height config r)) (λ _. after_check) kms) [
              | inl kept ↦ inl (ap state one ∙ kept)
              | inr (_, _, two) ↦ subst goal (sym (ap state (one ∙ two))) (found_cases config r kms)
            ]
      ]
