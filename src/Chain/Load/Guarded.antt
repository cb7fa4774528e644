-- ===== src/Chain/Load/Guarded.antt =====
-- What the program finds again when it starts (`load_config` of src/chain.rs): the states that it
-- loads guard what was granted before, if the state files do.
use tmkms.Prelude.{
  ℕ, ◌≡◌, refl, sym, ◌∙◌, subst, inl, inr, String, Option, none, some, List, [], ◌∷◌, All, arith,
  Outcome, ok, err, panic, Bool, true, false, str_eq, str_eq_iff, if◌then◌else◌, if-holds,
}
use tmkms.Prelude.Exec.{◌>>◌}
use tmkms.Prelude.Exec.Keeps.{Keeps-step}
use tmkms.Error.{ErrorKind}
use tmkms.Tendermint.{ConsensusState, Tendermint}
use tmkms.Map.{KeyOrd, IsKeyOrd}
use tmkms.Map.Laws.{get-put}
use tmkms.KeyRing.Keys.{TendermintKey}
use tmkms.Chain.{Chain}
use tmkms.Chain.State.{
  State, Weather, Disk, Serde, load_state, write_initial_state, update_from_hook_output,
}
use tmkms.Chain.State.Guards.{Guards}
use tmkms.Chain.State.Saved.{DiskGuards, StateGuards}
use tmkms.Chain.State.History.Guarded.{All-Guards}
use tmkms.Chain.State.History.Invariant.{hook-Guards}
use tmkms.Chain.Hook
use tmkms.Chain.Hook.{Child, HookConfig}
use tmkms.Chain.Startup.{ChainConfig, state_path, from_config, from_config_built, apply_hook}
use tmkms.Chain.Registry.{Registry, get_chain, register_chain}
use tmkms.Chain.Load.{
  Boot, Planned, KmsConfig, build, register, register_chains, load_keys, load_config,
}
use tmkms.Providers.Load.{Backends}
use tmkms.Providers.States.{state_of, load_config-Keeps}

module _ (io : Serde) (t : Tendermint) where
  -- Where nothing was granted, nothing has to be guarded.
  pub none-DiskGuards :
      (granted : List ConsensusState) (disk : Disk) → granted ≡ [] → DiskGuards io granted disk
  none-DiskGuards granted disk e = record {
    written = λ json c h r. subst (All (Guards c)) (sym e) tt;
    kept = λ _. e;
  }

  write_initial_state_path :
      (w : Weather) (path : String) (disk : Disk) (s : State)
      → (write_initial_state io w t path disk).0 ≡ ok s
      → s.state_file_path ≡ path
  unfolding write_initial_state
  write_initial_state_path w path disk s h = ground arith

  load_state-some :
      (w : Weather) (path json : String)
      → ((load_state io w t path (some json)).1 ≡ some json)
        × ((s : State)
            → (load_state io w t path (some json)).0 ≡ ok s
            → (io.from_str json ≡ some s.consensus_state) × (s.state_file_path ≡ path))
  unfolding load_state
  load_state-some w path json = (ground arith, λ s h. (ground arith, ground arith))

  load_state-Guards :
      (w : Weather) (granted : List ConsensusState) (path : String) (disk : Disk)
      → DiskGuards io granted disk
      → DiskGuards io granted (load_state io w t path disk).1
        × ((s : State) → (load_state io w t path disk).0 ≡ ok s → StateGuards granted path s)
  unfolding load_state
  load_state-Guards w granted path none d =
      let empty = d.kept refl in
      (
        none-DiskGuards granted _ empty,
        λ s h. record {
          guards = subst (All (Guards s.consensus_state)) (sym empty) tt;
          located = write_initial_state_path w path none s h;
        },
      )
  load_state-Guards w granted path (some json) d =
      let (same, loads) = load_state-some w path json in
      (
        subst (DiskGuards io granted) (sym same) d,
        λ s h.
            let (read, located) = loads s h in
            record { guards = d.written json s.consensus_state refl read; located = located },
      )

  hook_path :
      (height : ℕ) (s : State)
      → (update_from_hook_output t height s).1.state_file_path ≡ s.state_file_path
  unfolding update_from_hook_output
  hook_path height s = ground arith

  hook-StateGuards :
      (granted : List ConsensusState) (path : String) (height : ℕ) (s : State)
      → StateGuards granted path s
      → StateGuards granted path (update_from_hook_output t height s).1
  hook-StateGuards granted path height s g = record {
    guards = elim (hook-Guards t height s) [
      | inl same ↦ subst (λ (r : State). All (Guards r.consensus_state) granted) (sym same) g.guards
      | inr above ↦ All-Guards _ s.consensus_state granted above g.guards
    ];
    located = hook_path height s ∙ g.located;
  }

  hooked_by :
      (out : Outcome ErrorKind ℕ) (fail_closed : Bool) (granted : List ConsensusState)
      (path : String) (s s' : State)
      → (elim out [
        | ok height ↦ ok (update_from_hook_output t height s).1
        | err e ↦ if fail_closed then err e else ok s
        | panic p ↦ panic p
      ])
        ≡ ok s'
      → StateGuards granted path s
      → StateGuards granted path s'
  hooked_by (ok height) fail_closed granted path s s' h g =
      subst (StateGuards granted path) (cc h) (hook-StateGuards granted path height s g)
  hooked_by (err e) true granted path s s' h g = cc h
  hooked_by (err e) false granted path s s' h g = subst (StateGuards granted path) (cc h) g
  hooked_by (panic p) fail_closed granted path s s' h g = cc h

  apply_hook-StateGuards :
      (child : Child) (hook : Option HookConfig) (granted : List ConsensusState) (path : String)
      (s s' : State)
      → apply_hook t child hook s ≡ ok s'
      → StateGuards granted path s
      → StateGuards granted path s'
  unfolding apply_hook
  apply_hook-StateGuards child none granted path s s' h g =
      subst (StateGuards granted path) (cc h) g
  apply_hook-StateGuards child (some hook) granted path s s' h g =
      hooked_by (Hook.run hook child) hook.fail_closed granted path s s' h g

  from_config-Guards :
      (w : Weather) (child : Child) (default_path : String → String) (config : ChainConfig)
      (granted : List ConsensusState) (disk : Disk)
      → DiskGuards io granted disk
      → DiskGuards io granted (from_config io w t child default_path config disk).1
        × ((chain : Chain)
            → (from_config io w t child default_path config disk).0 ≡ ok chain
            → (chain.id ≡ config.id)
              × StateGuards granted (state_path default_path config) chain.state)
  unfolding from_config
  from_config-Guards w child default_path config granted disk d =
      let path = state_path default_path config in
      let (disk_guards, state_guards) = load_state-Guards w granted path disk d in
      (
        disk_guards,
        λ chain h.
            let (s, loaded, hooked, same) =
              from_config_built io w t child default_path config disk chain h in
            (
              same,
              apply_hook-StateGuards child config.state_hook granted path s chain.state hooked
                  (state_guards s loaded),
            ),
      )

-- The state file of a configured chain is the one that is its own.
abbrev pub IsLocated : (String → String) → (String → String) → Planned → Type 0
IsLocated default_path path_of p = state_path default_path p.config ≡ path_of p.config.id

module _ (io : Serde) (t : Tendermint) (default_path : String → String) (ids : KeyOrd String)
    (keyed : IsKeyOrd ids) (path_of : String → String)
    (distinct : (a b : String) → path_of a ≡ path_of b → a ≡ b)
    (granted : String → List ConsensusState) where
  -- What was granted is guarded on the disk and in the registry.
  pub record BootGuards (boot : Boot) : Type 0 where
    pub disks : (id : String) → DiskGuards io (granted id) (boot.files (path_of id))
    pub states :
        (id : String) (s : State)
        → state_of ids id boot.registry ≡ some s
        → StateGuards (granted id) (path_of id) s

  build-Guards :
      (p : Planned) (boot : Boot)
      → IsLocated default_path path_of p
      → BootGuards boot
      → BootGuards (build io t default_path ids p boot).1
        × ((chain : Chain)
            → (build io t default_path ids p boot).0 ≡ ok chain
            → StateGuards (granted chain.id) (path_of chain.id) chain.state)
  unfolding build
  build-Guards p boot located g =
      let id = p.config.id in
      let path = state_path default_path p.config in
      let before : DiskGuards io (granted id) (boot.files path) =
        subst (λ q. DiskGuards io (granted id) (boot.files q)) (sym located) (g.disks id) in
      let (disk_guards, state_guards) =
        from_config-Guards io t p.weather p.child default_path p.config (granted id)
          (boot.files path) before in
      let after = (from_config io p.weather t p.child default_path p.config (boot.files path)).1 in
      (
        record {
          disks = λ other.
              if-holds (DiskGuards io (granted other)) (str_eq (path_of other) path) _ _
                (λ e.
                  let same : id ≡ other =
                    distinct id other (sym ((str_eq_iff (path_of other) path).0 e ∙ located)) in
                  subst (λ i. DiskGuards io (granted i) after) same disk_guards)
                (λ _. g.disks other);
          states = g.states;
        },
        λ chain h.
            let (same, held) = state_guards chain h in
            subst (λ i. StateGuards (granted i) (path_of i) chain.state) (sym same)
              (subst (λ q. StateGuards (granted id) q chain.state) located held),
      )

  state_of-register_chain :
      (chain : Chain) (r : Registry) (id : String)
      → state_of ids id (register_chain ids chain r).1
        ≡ (if ids.beq chain.id id then some chain.state else state_of ids id r)
  unfolding register_chain get_chain
  state_of-register_chain chain r id = ground (arith, get-put ids keyed chain.id id chain r)

  register-Guards :
      (chain : Chain) (boot : Boot)
      → StateGuards (granted chain.id) (path_of chain.id) chain.state
      → BootGuards boot
      → BootGuards (register io t default_path ids chain boot).1
  unfolding register
  register-Guards chain boot mine g = record {
    disks = g.disks;
    states = λ id s h.
        if-holds (λ found. found ≡ some s → StateGuards (granted id) (path_of id) s)
          (ids.beq chain.id id) _ _
          (λ e found.
            let same : chain.id ≡ id = (keyed.beq_iff chain.id id).0 e in
            subst (λ i. StateGuards (granted i) (path_of i) s) same
              (subst (StateGuards (granted chain.id) (path_of chain.id)) (cc found) mine))
          (λ _ found. g.states id s found)
          (sym (state_of-register_chain chain boot.registry id) ∙ h);
  }

  register_chains-Guards :
      (ps : List Planned) (boot : Boot)
      → All (IsLocated default_path path_of) ps
      → BootGuards boot
      → BootGuards (register_chains io t default_path ids ps boot).1
  unfolding register_chains
  register_chains-Guards [] boot located g = g
  register_chains-Guards (p ∷ ps) boot located g =
      let (after_build, builds) = build-Guards p boot located.0 g in
      Keeps-step BootGuards (build io t default_path ids p)
        (λ chain. register io t default_path ids chain >> register_chains io t default_path ids ps)
        boot after_build
        (λ chain built.
          let boot₁ = (build io t default_path ids p boot).1 in
          let after_register = register-Guards chain boot₁ (builds chain built) after_build in
          Keeps-step BootGuards (register io t default_path ids chain)
            (λ _. register_chains io t default_path ids ps) boot₁ after_register
            (λ _ _. register_chains-Guards ps _ located.1 after_register))

  module _ {D Client : Type 0} (b : Backends D Client) (keys : KeyOrd TendermintKey) where
    -- The program starts with an empty registry.
    pub load_config-Guards :
        (config : KmsConfig) (files : String → Disk)
        → All (IsLocated default_path path_of) config.chain
        → ((id : String) → DiskGuards io (granted id) (files (path_of id)))
        → BootGuards
            (load_config io t default_path ids b keys config
              (record { registry = []; files = files })).1
    unfolding load_config get_chain
    load_config-Guards config files located d =
        let boot : Boot = record { registry = []; files = files } in
        let start = register_chains io t default_path ids config.chain in
        let registered =
          register_chains-Guards config.chain boot located
            (record { disks = d; states = λ id s h. cc h }) in
        Keeps-step BootGuards start (λ _. load_keys io t default_path ids b keys config.providers)
          boot registered (λ _ _. keyed_boot config (start boot).1 registered)
      where
        keyed_boot :
            (config : KmsConfig) (boot : Boot)
            → BootGuards boot
            → BootGuards (load_keys io t default_path ids b keys config.providers boot).1
        keyed_boot config boot g =
            let same =
              (load_config-Keeps ids keys keyed boot.registry b config.providers).at boot.registry
                (λ _. refl) in
            record { disks = g.disks; states = λ id s h. g.states id s (sym (same id) ∙ h) }
