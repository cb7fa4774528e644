-- ===== src/Session/Interleave/Covers.antt =====
-- What one locked update of a session (src/session.rs) does to the chain that it is about, and to
-- the other chains.
use tmkms.Prelude.{
  ◌≡◌, ◌≢◌, refl, sym, ap, subst, ◌∙◌, ◌⊎◌, inl, inr, Option, none, some, List, ◌∷◌, arith, Outcome,
  ok, err, panic,
}
use tmkms.Prelude.Exec.{Exec, ◌>>=◌, >>=-ok, >>=-cases, pure}
use tmkms.Error.{ErrorKind}
use tmkms.Tendermint.{ConsensusState}
use tmkms.Map.{IsKeyOrd}
use tmkms.Map.Laws.{get-put}
use tmkms.Config.Validator.{ValidatorConfig}
use tmkms.Chain.{Chain}
use tmkms.Chain.Registry.{get_chain}
use tmkms.Chain.State.{Weather}
use tmkms.Chain.State.Guards.{HasIdEq}
use tmkms.Amino.Messages.{RemoteError}
use tmkms.Amino.SignedMsg.{SignedMsgType}
use tmkms.Session.{
  Platform, Kms, poisons, store, find_chain, parse_request, update_consensus_state, report,
}
use tmkms.Session.Sign.{asked, find_chain-ok, locked_update-ok, update_consensus_state-ok}
use tmkms.Session.Cases.{Updated, update_cases}
use tmkms.Session.Recorded.{report-none}
use tmkms.Session.Trace.Covers.{Covers, stored-Covers, granted-Covers}
use tmkms.Session.Interleave.{Signable, signable_request, after_update, update}

abbrev paired : Chain → Option RemoteError → Exec Kms ErrorKind (Chain × Option RemoteError)
paired chain remote = pure (chain, remote)

module _ (env : Platform) (w : Weather) (config : ValidatorConfig) (r : Signable) (kms : Kms) where
  -- What an update that succeeds has done.
  pub record Answered (chain : Chain) (remote : Option RemoteError) : Type 0 where
    pub msg_type : SignedMsgType
    pub new : ConsensusState
    pub known : get_chain env.ids config.chain_id kms.registry ≡ some chain
    pub parsed : parse_request env.tendermint r ≡ ok (msg_type, new)
    pub answered : report new (asked env w kms chain new).0 ≡ ok remote
    pub stored :
        (update env w config r kms).1
        ≡ store env w config.chain_id chain (asked env w kms chain new) kms

  pub update-Answered :
      (chain : Chain) (remote : Option RemoteError)
      → (update env w config r kms).0 ≡ ok (chain, remote)
      → Answered chain remote
  unfolding update
  update-Answered chain remote h =
      let whole = update env w config r kms in
      let (chain', found, one) = >>=-ok (find_chain env w config) _ kms whole refl h in
      let (known, same) = find_chain-ok env w config kms found in
      let ask = update_consensus_state env w config chain' r in
      let (remote', answered, two) =
        >>=-ok ask (paired chain') kms whole
          (one ∙ ap (λ (k : Kms). (ask >>= paired chain') k) same) h in
      let (ty, new, parsed, locked) =
        update_consensus_state-ok env w config chain' r kms answered in
      let (_, reported, stored) =
        locked_update-ok env w config.chain_id chain' new kms (
          ap (λ (p : Outcome ErrorKind (Option RemoteError) × Kms). p.0) (sym locked) ∙ answered) in
      let pair : (chain', remote') ≡ (chain, remote) = cc h in
      let state = λ (p : Outcome ErrorKind (Chain × Option RemoteError) × Kms). p.1 in
      subst (λ (p : Chain × Option RemoteError). Answered p.0 p.1) {x = (chain', remote')}
        {y = (chain, remote)} pair
        (record {
          msg_type = ty;
          new = new;
          known = known;
          parsed = parsed;
          answered = reported;
          stored =
              ap state two
              ∙ ap (λ (p : Outcome ErrorKind (Option RemoteError) × Kms). p.1) locked
              ∙ stored;
        })

  found_cases :
      (chain : Chain)
      → get_chain env.ids config.chain_id kms.registry ≡ some chain
      → let left = ((update_consensus_state env w config chain r >>= paired chain) kms).1 in
        (left ≡ kms) ⊎ Updated env w config r kms left
  found_cases chain known =
      let ask = update_consensus_state env w config chain r in
      let same : ((ask >>= paired chain) kms).1 ≡ (ask kms).1 =
        elim (>>=-cases ask (paired chain) kms) [
          | inl kept ↦ kept
          | inr (_, _, same) ↦
              ap (λ (p : Outcome ErrorKind (Chain × Option RemoteError) × Kms). p.1) same
        ] in
      subst (λ k. (k ≡ kms) ⊎ Updated env w config r kms k) (sym same)
        (update_cases env w config chain r kms known)

  find_chain_keeps : (find_chain env w config kms).1 ≡ kms
  unfolding find_chain
  find_chain_keeps = ground arith

  pub update-cases :
      let left = (update env w config r kms).1 in (left ≡ kms) ⊎ Updated env w config r kms left
  unfolding update
  update-cases =
      let find = find_chain env w config in
      let rest = λ (chain : Chain). update_consensus_state env w config chain r >>= paired chain in
      elim (>>=-cases find rest kms) [
        | inl kept ↦ inl (kept ∙ find_chain_keeps)
        | inr (chain, found, same) ↦
            let (known, kept) = find_chain-ok env w config kms found in
            subst (λ k. (k ≡ kms) ⊎ Updated env w config r kms k)
              (sym (
                ap (λ (p : Outcome ErrorKind (Chain × Option RemoteError) × Kms). p.1)
                  (same ∙ ap (λ (k : Kms). rest chain k) kept)))
              (found_cases chain known)
      ]

module _ (env : Platform) (w : Weather) (lawful : HasIdEq env.tendermint) (keyed : IsKeyOrd env.ids)
    (config : ValidatorConfig) (r : Signable) (kms : Kms) where
  kept-Covers :
      (granted : List ConsensusState)
      → Covers env config kms granted
      → Covers env config (update env w config r kms).1 granted
  kept-Covers granted v = elim (update-cases env w config r kms) [
    | inl same ↦ subst (λ k. Covers env config k granted) (sym same) v
    | inr u ↦ stored-Covers env lawful keyed w config u.chain u.new kms _ granted u.known u.stored v
  ]

  -- The list of granted states grows as the state of the chain does.
  pub update-Covers :
      (granted : List ConsensusState) (out : Outcome ErrorKind (Chain × Option RemoteError))
      (asks : Outcome ErrorKind (SignedMsgType × ConsensusState))
      → (update env w config r kms).0 ≡ out
      → parse_request env.tendermint r ≡ asks
      → Covers env config kms granted
      → Covers env config (update env w config r kms).1 (after_update out asks granted)
  unfolding after_update
  update-Covers granted (ok (chain, none)) (ok (ty, new)) h parsed v =
      let a = update-Answered env w config r kms chain none h in
      let same_new : a.new ≡ new = cc (a.parsed, parsed) in
      subst (λ c. Covers env config (update env w config r kms).1 (c ∷ granted)) same_new
        (granted-Covers env lawful keyed w config chain a.new kms _ granted a.known a.stored
          (report-none a.new (asked env w kms chain a.new).0 a.answered) v)
  update-Covers granted (ok (chain, none)) (err e) h parsed v = kept-Covers granted v
  update-Covers granted (ok (chain, none)) (panic p) h parsed v = kept-Covers granted v
  update-Covers granted (ok (chain, some e)) asks h parsed v = kept-Covers granted v
  update-Covers granted (err e) asks h parsed v = kept-Covers granted v
  update-Covers granted (panic p) asks h parsed v = kept-Covers granted v

  store_other :
      (chain : Chain) (new : ConsensusState) (other : ValidatorConfig)
      → config.chain_id ≢ other.chain_id
      → get_chain env.ids other.chain_id
          (store env w config.chain_id chain (asked env w kms chain new) kms).registry
        ≡ get_chain env.ids other.chain_id kms.registry
  unfolding store get_chain
  store_other chain new other differ =
      let result = asked env w kms chain new in
      ground (
        arith,
        get-put env.ids keyed config.chain_id other.chain_id
            (record chain { state = result.1; poisoned = poisons result.0 }) kms.registry,
        keyed.beq_iff config.chain_id other.chain_id,
      )

  -- A chain of another ID is not touched.
  pub other-Covers :
      (other : ValidatorConfig) (granted : List ConsensusState)
      → config.chain_id ≢ other.chain_id
      → Covers env other kms granted
      → Covers env other (update env w config r kms).1 granted
  other-Covers other granted differ v = elim (update-cases env w config r kms) [
    | inl same ↦ subst (λ k. Covers env other k granted) (sym same) v
    | inr u ↦ record {
      guarded = v.guarded;
      held = λ chain found. v.held chain (
          sym (store_other u.chain u.new other differ)
          ∙ ap (λ (k : Kms). get_chain env.ids other.chain_id k.registry) (sym u.stored)
          ∙ found);
    }
  ]

-- Only the ID of the chain matters.
pub same_id-Covers :
    (env : Platform) (config other : ValidatorConfig) (kms : Kms) (granted : List ConsensusState)
    → config.chain_id ≡ other.chain_id
    → Covers env config kms granted
    → Covers env other kms granted
same_id-Covers env config other kms granted same v = record {
  guarded = v.guarded;
  held = λ chain found. v.held chain (ap (λ id. get_chain env.ids id kms.registry) same ∙ found);
}
