-- ===== src/Session/Interleave/Backed.antt =====
-- What holds of sessions that interleave (src/session.rs): a session that is about to sign has been
-- granted its state.
use tmkms.Prelude.{
  ℕ, ◌≡◌, ◌≢◌, refl, subst, false, String, Option, none, some, List, [], ◌∷◌, All, Memᴰ, arith,
  Outcome, ok, err, panic, str_eq, str_eq_iff, ◌==◌, if-holds,
}
use tmkms.Error.{ErrorKind}
use tmkms.Tendermint.{ConsensusState}
use tmkms.Config.Validator.{ValidatorConfig}
use tmkms.Chain.{Chain}
use tmkms.Amino.Messages.{RemoteError, Response}
use tmkms.Amino.SignedMsg.{SignedMsgType}
use tmkms.Amino.Vote.{build_vote_response}
use tmkms.Amino.Proposal.{build_proposal_response}
use tmkms.Session.{Platform, Kms, parse_request}
use tmkms.Session.Trace.{is_signature}
use tmkms.Session.Trace.Covers.{Covers}
use tmkms.Session.Interleave.{
  Signable, vote, proposal, signable_request, Phase, idle, checked, updated, over, phase_after,
  updated_to, after_update, at_thread, at_id, System, started,
}

-- A session that is about to sign has its state among those that were granted.
unfoldable pub IsBacked : Platform → List ConsensusState → Phase → Type 0
IsBacked env granted (updated r chain none) =
    (ty : SignedMsgType) × (new : ConsensusState) × (parse_request env.tendermint r ≡ ok (ty, new))
    × Memᴰ new granted
IsBacked env granted (updated r chain (some e)) = Unit
IsBacked env granted idle = Unit
IsBacked env granted (checked r) = Unit
IsBacked env granted (over out) = Unit

pub record Inv (env : Platform) (configs : ℕ → ValidatorConfig) (s : System) : Type 0 where
  pub covers : (config : ValidatorConfig) → Covers env config s.kms (s.granted config.chain_id)
  pub backed : (i : ℕ) → IsBacked env (s.granted (configs i).chain_id) (s.phase i)
  pub within : (id : String) → All (λ c. Memᴰ c (s.granted id)) (s.signed id)

pub started-Inv :
    (env : Platform) (configs : ℕ → ValidatorConfig) (kms : Kms) → Inv env configs (started kms)
unfolding IsBacked
started-Inv env configs kms = record {
  covers = λ config. record { guarded = tt; held = λ chain h. tt };
  backed = λ i. tt;
  within = λ id. tt;
}

pub grows :
    (a : ConsensusState) (out : Outcome ErrorKind (Chain × Option RemoteError))
    (asks : Outcome ErrorKind (SignedMsgType × ConsensusState)) (granted : List ConsensusState)
    → Memᴰ a granted
    → Memᴰ a (after_update out asks granted)
unfolding after_update
grows a (ok (chain, none)) (ok (ty, new)) granted m = Memᴰ.tail m
grows a (ok (chain, none)) (err e) granted m = m
grows a (ok (chain, none)) (panic p) granted m = m
grows a (ok (chain, some e)) asks granted m = m
grows a (err e) asks granted m = m
grows a (panic p) asks granted m = m

pub All-grows {ℓ} :
    {A : Type ℓ} (P Q : A → Type 0) (l : List A) → ((a : A) → P a → Q a) → All P l → All Q l
All-grows P Q [] f h = tt
All-grows P Q (a ∷ l) f h = (f a h.0, All-grows P Q l f h.1)

module _ (env : Platform) (granted granted' : List ConsensusState)
    (more : (a : ConsensusState) → Memᴰ a granted → Memᴰ a granted') where
  pub grows-IsBacked : (p : Phase) → IsBacked env granted p → IsBacked env granted' p
  unfolding IsBacked
  grows-IsBacked (updated r chain none) (ty, new, parsed, m) = (ty, new, parsed, more new m)
  grows-IsBacked (updated r chain (some e)) h = tt
  grows-IsBacked idle h = tt
  grows-IsBacked (checked r) h = tt
  grows-IsBacked (over out) h = tt

-- Phases without a grant are backed by any list.
pub over-IsBacked :
    (env : Platform) (granted : List ConsensusState) (out : Outcome ErrorKind Response)
    → IsBacked env granted (over out)
unfolding IsBacked
over-IsBacked env granted out = tt

pub checked-IsBacked :
    (env : Platform) (granted : List ConsensusState) (r : Signable)
    (out : Outcome ErrorKind (Unit {0}))
    → IsBacked env granted (phase_after (λ _. checked r) out)
unfolding IsBacked phase_after
checked-IsBacked env granted r (ok _) = tt
checked-IsBacked env granted r (err e) = tt
checked-IsBacked env granted r (panic p) = tt

pub updated-IsBacked :
    (env : Platform) (granted : List ConsensusState) (r : Signable)
    (out : Outcome ErrorKind (Chain × Option RemoteError))
    → ((chain : Chain)
        → out ≡ ok (chain, none)
        → (ty : SignedMsgType) × (new : ConsensusState) × (parse_request env.tendermint r
            ≡ ok (ty, new)))
    → IsBacked env
        (after_update out (parse_request env.tendermint r) granted)
        (phase_after (updated_to r) out)
unfolding IsBacked phase_after after_update
updated-IsBacked env granted r (ok (chain, none)) asks =
    let (ty, new, parsed) = asks chain refl in (ty, new, parsed, rw parsed (Memᴰ.head refl))
updated-IsBacked env granted r (ok (chain, some e)) asks = tt
updated-IsBacked env granted r (err e) asks = tt
updated-IsBacked env granted r (panic p) asks = tt

-- Reports of an error are no signatures.
pub reported :
    (e : RemoteError) (r : Signable)
    → is_signature (signable_request.build_response (some e) r) ≡ false
unfolding is_signature build_vote_response build_proposal_response
reported e (vote r) = refl
reported e (proposal r) = refl

module _ (env : Platform) (granted : ℕ → List ConsensusState) where
  pub thread-IsBacked :
      (f : ℕ → Phase) (i : ℕ) (p : Phase)
      → ((j : ℕ) → IsBacked env (granted j) (f j))
      → IsBacked env (granted i) p
      → (j : ℕ) → IsBacked env (granted j) (at_thread f i p j)
  thread-IsBacked f i p others mine j =
      if-holds (IsBacked env (granted j)) (j == i) p (f j)
        (λ e.
          let same : i ≡ j = ground (arith, e) in subst (λ k. IsBacked env (granted k) p) same mine)
        (λ _. others j)

pub at_id_self : {A : Type 0} (f : String → A) (id : String) (a : A) → at_id f id a id ≡ a
at_id_self f id a = ground (arith, str_eq_iff id id)

-- What holds of the old and the new entry of a table holds after the change.
pub at_id-holds :
    {A : Type 0} (P : String → A → Type 0) (f : String → A) (id : String) (a : A) (other : String)
    → P id a
    → (id ≢ other → P other (f other))
    → P other (at_id f id a other)
at_id-holds P f id a other mine rest =
    if-holds (P other) (str_eq other id) a (f other)
      (λ e.
        let same : id ≡ other = ground (arith, e, str_eq_iff other id) in
        subst (λ k. P k a) same mine)
      (λ e. rest (λ same. ground (arith, e, same, str_eq_iff other id)))
