-- ===== src/Session/Lifetime/Saved.antt =====
-- What one locked update of a session (src/session.rs) leaves on the disk and in the registry.
use tmkms.Prelude.{
  ◌≡◌, sym, ◌∙◌, subst, inl, inr, String, Option, none, some, List, ◌∷◌, arith, Outcome, ok, err,
  panic, str_eq, str_eq_iff, if◌then◌else◌, if-holds,
}
use tmkms.Error.{ErrorKind}
use tmkms.Tendermint.{ConsensusState}
use tmkms.Map.{IsKeyOrd}
use tmkms.Map.Laws.{get-put}
use tmkms.Config.Validator.{ValidatorConfig}
use tmkms.Chain.{Chain}
use tmkms.Chain.Registry.{get_chain}
use tmkms.Chain.State.{State, Weather}
use tmkms.Chain.State.Guards.{HasIdEq}
use tmkms.Chain.State.Saved.{DiskGuards, StateGuards, granted-saved, kept-saved}
use tmkms.Chain.State.History.Invariant.{RoundTrips}
use tmkms.Chain.Load.{Boot}
use tmkms.Chain.Load.Guarded.{BootGuards}
use tmkms.Providers.States.{state_of}
use tmkms.Amino.Messages.{RemoteError}
use tmkms.Amino.SignedMsg.{SignedMsgType}
use tmkms.Session.{Platform, Kms, poisons, store, parse_request}
use tmkms.Session.Sign.{asked}
use tmkms.Session.Recorded.{report-none}
use tmkms.Session.Trace.Covers.{ok_cases}
use tmkms.Session.Interleave.{Signable, signable_request, after_update, update, at_id}
use tmkms.Session.Interleave.Covers.{update-Answered, update-cases}
use tmkms.Session.Interleave.Backed.{at_id-holds}

-- The registry and the files of the sessions, as they are while the program starts.
abbrev pub as_boot : Kms → Boot
as_boot kms = record { registry = kms.registry; files = kms.files }

module _ (env : Platform) (default_path : String → String) (lawful : HasIdEq env.tendermint)
    (keyed : IsKeyOrd env.ids) (trips : RoundTrips env.io) (path_of : String → String)
    (distinct : (a b : String) → path_of a ≡ path_of b → a ≡ b) where
  abbrev pub KmsGuards : (String → List ConsensusState) → Kms → Type 0
  KmsGuards granted kms =
      BootGuards env.io env.tendermint default_path env.ids keyed path_of distinct granted
        (as_boot kms)

  state_of-store :
      (w : Weather) (key : String) (chain : Chain) (new : ConsensusState) (kms : Kms) (id : String)
      → state_of env.ids id (store env w key chain (asked env w kms chain new) kms).registry ≡ (
          if env.ids.beq key id
          then some (asked env w kms chain new).1
          else state_of env.ids id kms.registry)
  unfolding store get_chain
  state_of-store w key chain new kms id =
      let result = asked env w kms chain new in
      ground (
        arith,
        get-put env.ids keyed key id
            (record chain { state = result.1; poisoned = poisons result.0 }) kms.registry,
      )

  -- The chain that is stored is guarded by its own entry and file, and the others are not touched.
  store-Guards :
      (w : Weather) (key : String) (chain : Chain) (new : ConsensusState) (kms : Kms)
      (granted : String → List ConsensusState) (mine : List ConsensusState)
      → chain.state.state_file_path ≡ path_of key
      → DiskGuards env.io mine (asked env w kms chain new).2
      → StateGuards mine (path_of key) (asked env w kms chain new).1
      → KmsGuards granted kms
      → KmsGuards (at_id granted key mine) (store env w key chain (asked env w kms chain new) kms)
  unfolding store
  store-Guards w key chain new kms granted mine located disk state g =
      let result = asked env w kms chain new in
      let kms' = store env w key chain result kms in
      record {
        disks = λ other.
            at_id-holds (λ k l. DiskGuards env.io l (kms'.files (path_of k))) granted key mine other
              (if-holds (DiskGuards env.io mine) (str_eq (path_of key) chain.state.state_file_path)
                _ _ (λ _. disk)
                (λ e.
                  absurd (
                    cc
                      (e, (str_eq_iff (path_of key) chain.state.state_file_path).1 (sym located)))))
              (λ differ.
                if-holds (DiskGuards env.io (granted other))
                  (str_eq (path_of other) chain.state.state_file_path) _ _
                  (λ e.
                    let path = (str_eq_iff (path_of other) chain.state.state_file_path).0 e in
                    absurd (differ (distinct key other (sym (path ∙ located)))))
                  (λ _. g.disks other));
        states = λ other.
            at_id-holds
              (λ k l.
                (s : State)
                → state_of env.ids k kms'.registry ≡ some s
                → StateGuards l (path_of k) s)
              granted key mine other
              (λ s h.
                let stored = state_of-store w key chain new kms key in
                let same : result.1 ≡ s = ground (arith, stored, h, keyed.beq_iff key key) in
                subst (StateGuards mine (path_of key)) same state)
              (λ differ s h.
                let stored = state_of-store w key chain new kms other in
                g.states other s (ground (arith, stored, h, differ, keyed.beq_iff key other)));
      }

  same-Guards :
      (granted : String → List ConsensusState) (key : String) (kms : Kms)
      → KmsGuards granted kms
      → KmsGuards (at_id granted key (granted key)) kms
  same-Guards granted key kms g = record {
    disks = λ other.
        at_id-holds (λ k l. DiskGuards env.io l (kms.files (path_of k))) granted key (granted key)
          other (g.disks key) (λ _. g.disks other);
    states = λ other.
        at_id-holds
          (λ k l.
            (s : State) → state_of env.ids k kms.registry ≡ some s → StateGuards l (path_of k) s)
          granted key (granted key) other (g.states key) (λ _. g.states other);
  }

  module _ (w : Weather) (config : ValidatorConfig) (r : Signable) (kms : Kms)
      (granted : String → List ConsensusState) (g : KmsGuards granted kms) where
    abbrev id : String
    id = config.chain_id

    registered :
        (chain : Chain)
        → get_chain env.ids id kms.registry ≡ some chain
        → StateGuards (granted id) (path_of id) chain.state
    registered chain known = g.states id chain.state (ground (arith, known))

    kept-Guards : KmsGuards (at_id granted id (granted id)) (update env w config r kms).1
    kept-Guards = elim (update-cases env w config r kms) [
      | inl same ↦
          subst (KmsGuards (at_id granted id (granted id))) (sym same)
            (same-Guards granted id kms g)
      | inr u ↦
          let held = registered u.chain u.known in
          let path = u.chain.state.state_file_path in
          let disk : DiskGuards env.io (granted id) (kms.files path) =
            subst (λ q. DiskGuards env.io (granted id) (kms.files q)) (sym held.located)
              (g.disks id) in
          let (disk', state') =
            kept-saved env.io w env.tendermint lawful trips u.new u.chain.state (kms.files path)
              (granted id) (path_of id) (ok_cases (asked env w kms u.chain u.new).0) disk held in
          subst (KmsGuards (at_id granted id (granted id))) (sym u.stored)
            (store-Guards w id u.chain u.new kms granted (granted id) held.located disk' state' g)
    ]

    granted-Guards :
        (chain : Chain) (new : ConsensusState)
        → get_chain env.ids id kms.registry ≡ some chain
        → (update env w config r kms).1 ≡ store env w id chain (asked env w kms chain new) kms
        → (asked env w kms chain new).0 ≡ ok tt
        → KmsGuards (at_id granted id (new ∷ granted id)) (update env w config r kms).1
    granted-Guards chain new known stored h =
        let held = registered chain known in
        let (disk', state') =
          granted-saved env.io w env.tendermint lawful trips new chain.state
            (kms.files chain.state.state_file_path) (granted id) (path_of id) h held in
        subst (KmsGuards (at_id granted id (new ∷ granted id))) (sym stored)
          (store-Guards w id chain new kms granted (new ∷ granted id) held.located disk' state' g)

    pub update-Guards :
        (out : Outcome ErrorKind (Chain × Option RemoteError))
        (asks : Outcome ErrorKind (SignedMsgType × ConsensusState))
        → (update env w config r kms).0 ≡ out
        → parse_request env.tendermint r ≡ asks
        → KmsGuards
            (at_id granted id (after_update out asks (granted id)))
            (update env w config r kms).1
    unfolding after_update
    update-Guards (ok (chain, none)) (ok (ty, new)) h parsed =
        let a = update-Answered env w config r kms chain none h in
        let same_new : a.new ≡ new = cc (a.parsed, parsed) in
        subst (λ c. KmsGuards (at_id granted id (c ∷ granted id)) (update env w config r kms).1)
          same_new
          (granted-Guards chain a.new a.known a.stored
            (report-none a.new (asked env w kms chain a.new).0 a.answered))
    update-Guards (ok (chain, none)) (err e) h parsed = kept-Guards
    update-Guards (ok (chain, none)) (panic p) h parsed = kept-Guards
    update-Guards (ok (chain, some e)) asks h parsed = kept-Guards
    update-Guards (err e) asks h parsed = kept-Guards
    update-Guards (panic p) asks h parsed = kept-Guards
