-- ===== src/Session/Answers.antt =====
-- When `Session::sign` (src/session.rs) answers a request, and does not end the session.
use tmkms.Prelude.{
  ◌≡◌, ◌≢◌, refl, sym, ap, ◌∙◌, ◌↔◌, ◌⊎◌, inl, inr, ℕ, String, Bool, true, false, if◌then◌else◌,
  Option, none, some, arith, Outcome, ok, err, Option-cases,
}
use tmkms.Prelude.Int.{ℤ, pos, ltb_ℤ, ◌≤ℤ◌}
use tmkms.Error.{ErrorKind, exceed_max_height}
use tmkms.Tendermint.{Bytes, ConsensusState, Tendermint}
use tmkms.Config.Validator.{ValidatorConfig}
use tmkms.KeyRing.{sign_ed25519}
use tmkms.Chain.{Chain}
use tmkms.Chain.Registry.{get_chain}
use tmkms.Chain.State
use tmkms.Chain.State.{
  State, Weather, Disk, Serde, StateErrorKind, double_sign, refuse, sync_to_disk,
}
use tmkms.Chain.State.Guards.{HasIdEq, Allowed, refuse_iff_Allowed}
use tmkms.Chain.State.Update.{double_sign_iff}
use tmkms.Amino.Messages
use tmkms.Amino.Messages.{Response, RemoteError}
use tmkms.Amino.SignedMsg.{SignedMsgType, TendermintRequest}
use tmkms.Session.{
  Platform, Kms, as_i64, validated, check_max_height, find_chain, locked_update,
  update_consensus_state, parse_request, report, respond, sign,
}
use tmkms.Session.Sign.{Admitted, asked, sign-Admitted}
use tmkms.Session.Recorded.{report-none, report-some, respond-ok}
use tmkms.Session.Limits.{sign_signs}

-- The height that the request names, if any, is not above the maximal height that is configured, if any.
abbrev pub WithinMax : Option ℕ → Option ℤ → Type 0
WithinMax none height = Unit {0}
WithinMax (some max_height) none = Unit {0}
WithinMax (some max_height) (some height) = height ≤ℤ as_i64 max_height

-- Another block ID on the same height and round, in the same step, or in a later one where both name one.
abbrev pub Conflicts : ConsensusState → ConsensusState → Type 0
Conflicts new last =
    (new.height ≡ last.height)
    × (new.round ≡ last.round)
    × (last.step ≤ℤ new.step)
    × (new.block_id ≢ last.block_id)
    × (((new.block_id ≢ none) × (last.block_id ≢ none)) ⊎ (new.step ≡ last.step))

-- The state has a JSON text, and the disk takes it.
abbrev pub CanWrite : Serde → Weather → ConsensusState → Type 0
CanWrite io w new =
    ((json : String) × (io.to_string new ≡ some json))
    × (w.has_parent ≡ true)
    × (w.created ≡ true)
    × (w.written ≡ true)
    × (w.persisted ≡ true)

module _ (io : Serde) (w : Weather) (t : Tendermint) (lawful : HasIdEq t) where
  granted_if :
      (new : ConsensusState) (s : State) (disk : Disk)
      → Allowed new s.consensus_state
      → CanWrite io w new
      → (State.update_consensus_state io w t new s disk).0 ≡ ok tt
  unfolding State.update_consensus_state sync_to_disk
  granted_if new s disk allowed writes =
      let free = (refuse_iff_Allowed t lawful new s.consensus_state).1 allowed in
      ground (arith, free, writes)

  granted_only_if :
      (new : ConsensusState) (s : State) (disk : Disk)
      → (State.update_consensus_state io w t new s disk).0 ≡ ok tt
      → Allowed new s.consensus_state × CanWrite io w new
  unfolding State.update_consensus_state sync_to_disk
  granted_only_if new s disk h =
      let free : refuse t new s.consensus_state ≡ none = ground arith in
      (
        (refuse_iff_Allowed t lawful new s.consensus_state).0 free,
        elim (Option-cases (io.to_string new)) [
          | inl missing ↦ absurd (ground (arith, missing))
          | inr (json, text) ↦
              ((json, text), ground arith, ground arith, ground arith, ground arith)
        ],
      )

not_above : (limit height : ℤ) → ltb_ℤ limit height ≡ false → height ≤ℤ limit
not_above limit height h = ground (arith, h)

not_below : (limit height : ℤ) → height ≤ℤ limit → ltb_ℤ limit height ≡ false
not_below limit height h = ground (arith, h)

abbrev checked_height : Option ℕ → Option ℤ → Outcome ErrorKind (Unit {0})
checked_height max height = elim max [
  | none ↦ ok tt
  | some max_height ↦ elim height [
    | none ↦ ok tt
    | some h ↦ if ltb_ℤ (as_i64 max_height) h then err exceed_max_height else ok tt
  ]
]

guard_of : Bool → Outcome ErrorKind (Unit {0})
guard_of above = if above then err exceed_max_height else ok tt

passed : (above : Bool) → guard_of above ≡ ok tt → above ≡ false
unfolding guard_of
passed true h = cc h
passed false h = refl

checked-WithinMax :
    (max : Option ℕ) (height : Option ℤ)
    → (checked_height max height ≡ ok tt) ↔ WithinMax max height
unfolding guard_of
checked-WithinMax none height = ((λ h. tt), λ h. refl)
checked-WithinMax (some max) none = ((λ h. tt), λ h. refl)
checked-WithinMax (some max) (some height) = (
  (λ h. not_above (as_i64 max) height (passed (ltb_ℤ (as_i64 max) height) h)),
  (λ h. rw (not_below (as_i64 max) height h) refl),
)

module _ {R : Type 0} ⦃request : TendermintRequest R⦄ (env : Platform) (w : Weather)
    (config : ValidatorConfig) (r : R) where
  -- The bytes of the request can be encoded, and the key of the chain signs them.
  abbrev pub CanSign : Chain → Type 0
  CanSign chain =
      (message : Bytes) × (signature : Bytes) × (request.sign_bytes env.codec config.chain_id
          config.protocol_version r
        ≡ ok message)
      × (sign_ed25519 env.keys none message chain.keyring ≡ ok signature)

  pub record Answerable (kms : Kms) : Type 0 where
    pub chain : Chain
    pub msg_type : SignedMsgType
    pub new : ConsensusState
    pub valid : request.validate r ≡ none
    pub within : WithinMax config.max_height (request.height r)
    pub known : get_chain env.ids config.chain_id kms.registry ≡ some chain
    pub sound : chain.poisoned ≡ false
    pub parsed : parse_request env.tendermint r ≡ ok (msg_type, new)
    -- a double signing to report, or a state to record and a request to sign
    pub answer :
        Conflicts new chain.state.consensus_state
        ⊎ (Allowed new chain.state.consensus_state × CanWrite env.io w new × CanSign chain)

  within_iff : (check_max_height config r ≡ ok tt) ↔ WithinMax config.max_height (request.height r)
  unfolding check_max_height
  within_iff = checked-WithinMax config.max_height (request.height r)

  reported :
      (kms : Kms) (chain : Chain) (ty : SignedMsgType) (new : ConsensusState)
      → request.validate r ≡ none
      → check_max_height config r ≡ ok tt
      → get_chain env.ids config.chain_id kms.registry ≡ some chain
      → chain.poisoned ≡ false
      → parse_request env.tendermint r ≡ ok (ty, new)
      → (asked env w kms chain new).0 ≡ err double_sign
      → (sign env w config r kms).0
        ≡ ok (request.build_response (some (Messages.double_sign (pos new.height))) r)
  unfolding sign validated find_chain update_consensus_state locked_update report respond
  reported kms chain ty new valid within known sound parsed refused =
      ground (arith, valid, within, known, sound, parsed, refused)

  -- If `==` on block IDs is equality, `sign` answers a request, whatever the answer, exactly if the
  -- request is valid, names no height above the maximal one (as an i64), is for a known chain whose lock
  -- is sound, and can be parsed as a state that conflicts with the last one, or as a state that may follow
  -- it, where the state can be written and the request encoded and signed.
  pub sign_iff_Answerable :
      HasIdEq env.tendermint
      → (kms : Kms) → ((resp : Response) × ((sign env w config r kms).0 ≡ ok resp)) ↔ Answerable kms
  sign_iff_Answerable lawful kms = ((λ h. forth h.0 h.1), back)
    where
      answer_of :
          (kms' : Kms) (resp : Response) (remote : Option RemoteError)
          (a : Admitted env w config r kms kms' remote)
          → (respond env w config a.chain r remote kms').0 ≡ ok resp
          → Conflicts a.new a.chain.state.consensus_state
            ⊎ (Allowed a.new a.chain.state.consensus_state
                × CanWrite env.io w a.new
                × CanSign a.chain)
      answer_of kms' resp none a e =
          let disk = kms.files a.chain.state.state_file_path in
          let (allowed, writes) =
            granted_only_if env.io w env.tendermint lawful a.new a.chain.state disk
              (report-none a.new (asked env w kms a.chain a.new).0 a.answered) in
          let (message, signature, encoded, signed, _) = respond-ok env w config a.chain r kms' e in
          inr (allowed, writes, (message, signature, encoded, signed))
      answer_of kms' resp (some x) a e =
          let disk = kms.files a.chain.state.state_file_path in
          inl (
            (double_sign_iff env.io w env.tendermint lawful a.new a.chain.state disk).0
              (report-some a.new (asked env w kms a.chain a.new).0 a.answered).0)

      forth : (resp : Response) → (sign env w config r kms).0 ≡ ok resp → Answerable kms
      forth resp h =
          let (remote, kms', a, same) = sign-Admitted env w config r kms h in
          record {
            chain = a.chain;
            msg_type = a.msg_type;
            new = a.new;
            valid = a.valid;
            within = within_iff.0 a.within;
            known = a.known;
            sound = a.sound;
            parsed = a.parsed;
            answer =
                answer_of kms' resp remote a
                  (ap (λ (p : Outcome ErrorKind Response × Kms). p.0) (sym same) ∙ h);
          }

      back : Answerable kms → (resp : Response) × ((sign env w config r kms).0 ≡ ok resp)
      back a = elim a.answer [
        | inl conflict ↦ (
          _,
          reported kms a.chain a.msg_type a.new a.valid (within_iff.1 a.within) a.known a.sound
              a.parsed
              ((double_sign_iff env.io w env.tendermint lawful a.new a.chain.state
                  (kms.files a.chain.state.state_file_path)).1
                conflict),
        )
        | inr (allowed, writes, (message, signature, encoded, signed)) ↦ (
          _,
          ap (λ (p : Outcome ErrorKind Response × Kms). p.0)
              (sign_signs env w config r kms a.chain a.msg_type a.new message signature a.valid
                (within_iff.1 a.within) a.known a.sound a.parsed
                (granted_if env.io w env.tendermint lawful a.new a.chain.state
                  (kms.files a.chain.state.state_file_path) allowed writes)
                encoded signed),
        )
      ]
