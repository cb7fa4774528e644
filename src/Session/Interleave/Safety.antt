-- ===== src/Session/Interleave/Safety.antt =====
-- However the sessions interleave (src/session.rs, src/client.rs), no two conflicting signatures
-- are handed out.
use tmkms.Prelude.{
  ℕ, ◌≡◌, refl, sym, ap, subst, ◌∙◌, inl, inr, String, Option, none, some, List, All, Memᴰ, Outcome,
  ok, err, panic, Bool-cases,
}
use tmkms.Error.{ErrorKind}
use tmkms.Tendermint.{ConsensusState}
use tmkms.Map.{IsKeyOrd}
use tmkms.Config.Validator.{ValidatorConfig}
use tmkms.Chain.{Chain}
use tmkms.Chain.State.{Weather}
use tmkms.Chain.State.Guards.{HasIdEq, SameStep}
use tmkms.Chain.State.History.Guarded.{IsGuarded-agree, All-Memᴰ}
use tmkms.Amino.Messages.{RemoteError, Response}
use tmkms.Amino.SignedMsg.{SignedMsgType}
use tmkms.Session.{Platform, Kms, parse_request, respond}
use tmkms.Session.Cases.{respond_keeps}
use tmkms.Session.Trace.{is_signature, after_answer}
use tmkms.Session.Trace.Covers.{Covers}
use tmkms.Session.Interleave.Backed.{
  IsBacked, Inv, started-Inv, grows, grows-IsBacked, All-grows, over-IsBacked, checked-IsBacked,
  updated-IsBacked, reported, thread-IsBacked, at_id_self, at_id-holds,
}
use tmkms.Session.Interleave.Covers.{update-Answered, update-Covers, other-Covers, same_id-Covers}
use tmkms.Session.Interleave.{
  Signable, signable_request, idle, updated, phase_after, updated_to, at_thread, System, started,
  check, update, check_step, update_step, respond_step, Step, read, lock, answer, again, Reach,
  here, next,
}

module _ (env : Platform) (config : ValidatorConfig) (w : Weather) (r : Signable) (kms : Kms)
    (chain : Chain) (granted signed : List ConsensusState)
    (within : All (λ c. Memᴰ c granted) signed) where
  -- A signature that is handed out is of a granted state.
  answer-within :
      (remote : Option RemoteError) (out : Outcome ErrorKind Response)
      (asks : Outcome ErrorKind (SignedMsgType × ConsensusState))
      → IsBacked env granted (updated r chain remote)
      → (respond env w config chain r remote kms).0 ≡ out
      → parse_request env.tendermint r ≡ asks
      → All (λ c. Memᴰ c granted) (after_answer out asks signed)
  unfolding after_answer IsBacked respond
  answer-within none (ok resp) (ok (ty, new)) (ty', new', parsed', m) h parsed =
      elim (Bool-cases (is_signature resp)) [
        | inl handed ↦ rw handed (subst (λ c. Memᴰ c granted) (cc (parsed', parsed)) m, within)
        | inr kept ↦ rw kept within
      ]
  answer-within (some e) (ok resp) (ok (ty, new)) b h parsed =
      let same : signable_request.build_response (some e) r ≡ resp = cc h in
      rw (ap is_signature (sym same) ∙ reported e r) within
  answer-within remote (ok resp) (err e) b h parsed = within
  answer-within remote (ok resp) (panic p) b h parsed = within
  answer-within remote (err e) asks b h parsed = within
  answer-within remote (panic p) asks b h parsed = within

module _ (env : Platform) (lawful : HasIdEq env.tendermint) (keyed : IsKeyOrd env.ids)
    (configs : ℕ → ValidatorConfig) (s : System) (v : Inv env configs s) (i : ℕ) where
  -- What was granted stays granted.
  stays :
      (w : Weather) (r : Signable) (id : String) (a : ConsensusState)
      → Memᴰ a (s.granted id)
      → Memᴰ a ((update_step env configs s i w r).granted id)
  stays w r id a m =
      at_id-holds (λ k l. k ≡ id → Memᴰ a l) s.granted (configs i).chain_id _ id
        (λ same. grows a _ _ _ (subst (λ k. Memᴰ a (s.granted k)) (sym same) m)) (λ _ _. m) refl

  update-asks :
      (w : Weather) (r : Signable) (chain : Chain)
      → (update env w (configs i) r s.kms).0 ≡ ok (chain, none)
      → (ty : SignedMsgType) × (new : ConsensusState) × (parse_request env.tendermint r
          ≡ ok (ty, new))
  update-asks w r chain h =
      let a = update-Answered env w (configs i) r s.kms chain none h in
      (a.msg_type, a.new, a.parsed)

  update_step-Inv : (w : Weather) (r : Signable) → Inv env configs (update_step env configs s i w r)
  update_step-Inv w r =
      let config = configs i in
      let (out, kms') = update env w config r s.kms in
      let granted' = (update_step env configs s i w r).granted in
      record {
        covers = λ other.
            at_id-holds (λ id granted. id ≡ other.chain_id → Covers env other kms' granted)
              s.granted config.chain_id _ other.chain_id
              (λ same. same_id-Covers env config other kms' _ same (
                update-Covers env w lawful keyed config r s.kms (s.granted config.chain_id) out
                  (parse_request env.tendermint r) refl refl (v.covers config)))
              (λ differ _.
                other-Covers env w lawful keyed config r s.kms other _ differ (v.covers other))
              refl;
        backed =
            thread-IsBacked env (λ j. granted' (configs j).chain_id) s.phase i _
              (λ j.
                grows-IsBacked env (s.granted (configs j).chain_id) _
                  (stays w r (configs j).chain_id) (s.phase j) (v.backed j))
              (subst (λ l. IsBacked env l (phase_after (updated_to r) out))
                (sym (at_id_self s.granted config.chain_id _))
                (updated-IsBacked env (s.granted config.chain_id) r out (update-asks w r)));
        within = λ id. All-grows _ _ (s.signed id) (stays w r id) (v.within id);
      }

  check_step-Inv : (r : Signable) → Inv env configs (check_step env configs s i r)
  check_step-Inv r = record {
    covers = v.covers;
    backed =
        thread-IsBacked env (λ j. s.granted (configs j).chain_id) s.phase i _ v.backed
          (checked-IsBacked env _ r (check env (configs i) r s.kms).0);
    within = v.within;
  }

  respond_step-Inv :
      (w : Weather) (r : Signable) (chain : Chain) (remote : Option RemoteError)
      → s.phase i ≡ updated r chain remote
      → Inv env configs (respond_step env configs s i w r chain remote)
  respond_step-Inv w r chain remote h =
      let config = configs i in
      let out = (respond env w config chain r remote s.kms).0 in
      record {
        covers = λ other.
            subst (λ k. Covers env other k (s.granted other.chain_id))
              (sym (respond_keeps env w config chain r remote s.kms)) (v.covers other);
        backed =
            thread-IsBacked env (λ j. s.granted (configs j).chain_id) s.phase i _ v.backed
              (over-IsBacked env _ out);
        within = λ id.
            at_id-holds (λ k l. All (λ c. Memᴰ c (s.granted k)) l) s.signed config.chain_id _ id
              (answer-within env config w r s.kms chain (s.granted config.chain_id)
                (s.signed config.chain_id) (v.within config.chain_id) remote out
                (parse_request env.tendermint r)
                (subst (IsBacked env (s.granted config.chain_id)) h (v.backed i)) refl refl)
              (λ _. v.within id);
      }

  again-Inv : Inv env configs (record s { phase = at_thread s.phase i idle })
  unfolding IsBacked
  again-Inv = record {
    covers = v.covers;
    backed = thread-IsBacked env (λ j. s.granted (configs j).chain_id) s.phase i idle v.backed tt;
    within = v.within;
  }

module _ (env : Platform) (lawful : HasIdEq env.tendermint) (keyed : IsKeyOrd env.ids)
    (configs : ℕ → ValidatorConfig) where
  pub Step-Inv : {s t : System} → Step env configs s t → Inv env configs s → Inv env configs t
  Step-Inv {s} (read i r h) v = check_step-Inv env lawful keyed configs s v i r
  Step-Inv {s} (lock i w r h) v = update_step-Inv env lawful keyed configs s v i w r
  Step-Inv {s} (answer i w r chain remote h) v =
      respond_step-Inv env lawful keyed configs s v i w r chain remote h
  Step-Inv {s} (again i out h) v = again-Inv env lawful keyed configs s v i

  Reach-Inv : {s t : System} → Reach env configs s t → Inv env configs s → Inv env configs t
  Reach-Inv here v = v
  Reach-Inv (next r step) v = Step-Inv step (Reach-Inv r v)

  -- Whatever sessions of whatever chains run at the same time, in whatever order they take the
  -- lock of their chain and send their answers, however the disk behaves, and whatever was in
  -- memory first: of the consensus states that the votes and proposals signed under one chain ID
  -- ask for, two of the same height, round and step have the same block ID, if `==` on block IDs
  -- and on chain IDs is equality.
  pub interleaved_agree :
      {kms : Kms} {s : System}
      → Reach env configs (started kms) s
      → (id : String) (a b : ConsensusState) → Memᴰ a (s.signed id)
      → Memᴰ b (s.signed id)
      → SameStep a b
      → a.block_id ≡ b.block_id
  interleaved_agree {kms} r id a b in_a in_b =
      let v = Reach-Inv r (started-Inv env configs kms) in
      let covered = v.covers (record (configs 0) { chain_id = id }) in
      IsGuarded-agree covered.guarded (All-Memᴰ _ (v.within id) in_a)
        (All-Memᴰ _ (v.within id) in_b)
