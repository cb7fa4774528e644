-- ===== src/Session/Recorded.antt =====
-- Every answer of `Session::sign` (src/session.rs) is a signature that was recorded first, or the
-- report of a double signing that changed nothing.
use text.Mathlib.TextPositions.{eq_refl}
use tmkms.Prelude.{
  ◌≡◌, refl, sym, ◌∙◌, ap, subst, ◌⊎◌, inl, inr, false, Option, none, some, String, arith, Outcome,
  ok, err, map_err, map_err-ok, str_eq, str_eq_iff, Bool-cases,
}
use tmkms.Prelude.Exec.{>>=-ok, lift}
use tmkms.Prelude.Int.{pos}
use tmkms.Error.{ErrorKind, protocol_error}
use tmkms.Tendermint.{Bytes, ConsensusState}
use tmkms.Config.Validator.{ValidatorConfig}
use tmkms.KeyRing.{sign_ed25519}
use tmkms.Chain.{Chain}
use tmkms.Chain.Registry.{get_chain}
use tmkms.Chain.State
use tmkms.Chain.State.{State, Weather, StateErrorKind, Disk}
use tmkms.Chain.State.Guards.{HasIdEq, Allowed}
use tmkms.Chain.State.Update.{update_granted, update_not_granted}
use tmkms.Amino.Messages
use tmkms.Amino.Messages.{Response, RemoteError}
use tmkms.Amino.SignedMsg.{SignedMsgType, TendermintRequest}
use tmkms.Session.{
  Platform, Kms, write_file, store, check_max_height, parse_request, report, logged, respond, sign,
}
use tmkms.Session.Sign.{Admitted, asked, sign-Admitted}

module _ {R : Type 0} ⦃request : TendermintRequest R⦄ where
  pub record Signed (env : Platform) (config : ValidatorConfig) (r : R) (kms kms' : Kms)
      (resp : Response) : Type 0 where
    pub chain : Chain
    pub msg_type : SignedMsgType
    pub new : ConsensusState
    pub json : String
    pub message : Bytes
    pub signature : Bytes
    -- the request is valid and below the maximal height, and its chain is known and sound
    pub valid : request.validate r ≡ none
    pub within : check_max_height config r ≡ ok tt
    pub known : get_chain env.ids config.chain_id kms.registry ≡ some chain
    pub sound : chain.poisoned ≡ false
    -- its state may follow the last one, and is in the state file
    pub parsed : parse_request env.tendermint r ≡ ok (msg_type, new)
    pub allowed : Allowed new chain.state.consensus_state
    pub text : env.io.to_string new ≡ some json
    pub recorded : kms'.files chain.state.state_file_path ≡ some json
    -- the answer is the request with a signature of its own bytes by the key of the chain
    pub encoded :
        request.sign_bytes env.codec config.chain_id config.protocol_version r ≡ ok message
    pub signed : sign_ed25519 env.keys none message chain.keyring ≡ ok signature
    pub answer : resp ≡ request.build_response none (request.set_signature signature r)

  pub record Reported (env : Platform) (w : Weather) (config : ValidatorConfig) (r : R)
      (kms kms' : Kms) (resp : Response) : Type 0 where
    pub chain : Chain
    pub msg_type : SignedMsgType
    pub new : ConsensusState
    pub known : get_chain env.ids config.chain_id kms.registry ≡ some chain
    pub parsed : parse_request env.tendermint r ≡ ok (msg_type, new)
    pub refused : (asked env w kms chain new).0 ≡ err State.double_sign
    pub kept : (path : String) → kms'.files path ≡ kms.files path
    pub answer : resp ≡ request.build_response (some (Messages.double_sign (pos new.height))) r

pub report-none :
    (new : ConsensusState) (out : Outcome StateErrorKind (Unit {0}))
    → report new out ≡ ok none
    → out ≡ ok tt
unfolding report
report-none new out h = ground arith

pub report-some :
    (new : ConsensusState) (out : Outcome StateErrorKind (Unit {0})) {e : RemoteError}
    → report new out ≡ ok (some e)
    → (out ≡ err State.double_sign) × (e ≡ Messages.double_sign (pos new.height))
unfolding report
report-some new out h = ground arith

ok-injective : {a b : Response} → ◌≡◌ {A = Outcome ErrorKind Response} (ok a) (ok b) → a ≡ b
ok-injective h = cc h

module _ (env : Platform) (w : Weather) where
  files-store :
      (key : String) (chain : Chain) (result : Outcome StateErrorKind (Unit {0}) × State × Disk)
      (kms : Kms)
      → (store env w key chain result kms).files chain.state.state_file_path ≡ result.2
  unfolding store write_file
  files-store key chain result kms = rw eq_refl refl

  files-store_same :
      (key : String) (chain : Chain) (result : Outcome StateErrorKind (Unit {0}) × State × Disk)
      (kms : Kms)
      → result.2 ≡ kms.files chain.state.state_file_path
      → (path : String) → (store env w key chain result kms).files path ≡ kms.files path
  unfolding store write_file
  files-store_same key chain result kms same path =
      elim (Bool-cases (str_eq path chain.state.state_file_path)) [
        | inl here ↦
            rw (write_file, here)
              (same ∙ ap kms.files (sym ((str_eq_iff path chain.state.state_file_path).0 here)))
        | inr away ↦ rw (write_file, away) refl
      ]

module _ {R : Type 0} ⦃request : TendermintRequest R⦄ (env : Platform) (w : Weather) where
  pub respond-ok :
      (config : ValidatorConfig) (chain : Chain) (r : R) (kms : Kms) {resp : Response}
      → (respond env w config chain r none kms).0 ≡ ok resp
      → (message : Bytes) × (signature : Bytes) × (request.sign_bytes env.codec config.chain_id
            config.protocol_version r
          ≡ ok message)
        × (sign_ed25519 env.keys none message chain.keyring ≡ ok signature)
        × (respond env w config chain r none kms
            ≡ (ok (request.build_response none (request.set_signature signature r)), kms))
  unfolding respond
  respond-ok config chain r kms h =
      let whole = respond env w config chain r none kms in
      let (message, encoded, one) =
        >>=-ok
          (lift (
            map_err (λ _. protocol_error)
              (request.sign_bytes env.codec config.chain_id config.protocol_version r)))
          _ kms whole refl h in
      let (signature, signed, two) =
        >>=-ok (lift (sign_ed25519 env.keys none message chain.keyring)) _ kms whole one h in
      let (_, _, three) = >>=-ok (lift (logged env w r)) _ kms whole two h in
      (message, signature, map_err-ok _ _ encoded, signed, three)

  answers :
      HasIdEq env.tendermint
      → (config : ValidatorConfig) (r : R) (kms kms' : Kms) (resp : Response)
      → (remote : Option RemoteError) → (a : Admitted env w config r kms kms' remote)
      → (respond env w config a.chain r remote kms').0 ≡ ok resp
      → Signed env config r kms (respond env w config a.chain r remote kms').1 resp
        ⊎ Reported env w config r kms (respond env w config a.chain r remote kms').1 resp
  answers lawful config r kms kms' resp none a h =
      let result = asked env w kms a.chain a.new in
      let (allowed, held, (json, text, file)) =
        update_granted env.io w env.tendermint lawful a.new a.chain.state
          (kms.files a.chain.state.state_file_path) (report-none a.new result.0 a.answered) in
      let (message, signature, encoded, signed, same) = respond-ok config a.chain r kms' h in
      let path = a.chain.state.state_file_path in
      inl (record {
        chain = a.chain;
        msg_type = a.msg_type;
        new = a.new;
        json = json;
        message = message;
        signature = signature;
        valid = a.valid;
        within = a.within;
        known = a.known;
        sound = a.sound;
        parsed = a.parsed;
        allowed = allowed;
        text = text;
        recorded =
            ap (λ (p : Outcome ErrorKind Response × Kms). p.1.files path) same
            ∙ ap (λ (k : Kms). k.files path) a.stored
            ∙ files-store env w config.chain_id a.chain result kms
            ∙ file;
        encoded = encoded;
        signed = signed;
        answer = ok-injective (sym h ∙ ap (λ (p : Outcome ErrorKind Response × Kms). p.0) same);
      })
  answers lawful config r kms kms' resp (some e) a h =
      unfold respond in
      let result = asked env w kms a.chain a.new in
      let (refused, which) = report-some a.new result.0 a.answered in
      inr (record {
        chain = a.chain;
        msg_type = a.msg_type;
        new = a.new;
        known = a.known;
        parsed = a.parsed;
        refused = refused;
        kept = λ path.
            ap (λ (k : Kms). k.files path) a.stored
            ∙ files-store_same env w config.chain_id a.chain result kms
                (update_not_granted env.io w env.tendermint lawful a.new a.chain.state
                  (kms.files a.chain.state.state_file_path) (λ granted. cc (granted, refused))).0
                path;
        answer =
            ok-injective (sym h)
            ∙ ap (λ (x : RemoteError). request.build_response (some x) r) which;
      })

  -- If `==` on block IDs is equality, an answer of `sign` is the request with a signature, and
  -- then its state was allowed after the last one and stands in the state file; or it is the
  -- report of a double signing, and then no file changed.
  pub sign_answers :
      HasIdEq env.tendermint
      → (config : ValidatorConfig) (r : R) (kms : Kms) (resp : Response)
      → (sign env w config r kms).0 ≡ ok resp
      → Signed env config r kms (sign env w config r kms).1 resp
        ⊎ Reported env w config r kms (sign env w config r kms).1 resp
  sign_answers lawful config r kms resp h =
      let (remote, kms', a, same) = sign-Admitted env w config r kms h in
      subst
        (λ (p : Outcome ErrorKind Response × Kms).
          Signed env config r kms p.1 resp ⊎ Reported env w config r kms p.1 resp)
        (sym same)
        (answers lawful config r kms kms' resp remote a
          (ap (λ (p : Outcome ErrorKind Response × Kms). p.0) (sym same) ∙ h))
