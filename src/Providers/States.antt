-- ===== src/Providers/States.antt =====
-- The providers (src/keyring/providers/) add keys to chains and leave the states of the chains alone.
use tmkms.Prelude.{
  String, ◌≡◌, ◌∙◌, Option, none, some, map_option, List, [], ◌∷◌, Bool, true, false, arith, err,
  Option-cases, inl, inr,
}
use tmkms.Prelude.Exec.{Exec}
use tmkms.Prelude.Exec.Keeps.{Keeps, Keeps-pure, Keeps-lift, Keeps-lift-bind, Keeps-bind}
use tmkms.Error.{ErrorKind, signing_error, config_error}
use tmkms.Tendermint.{Bytes}
use tmkms.Map.{KeyOrd, IsKeyOrd, get}
use tmkms.Map.Laws.{get-put}
use tmkms.KeyRing.{add_ecdsa, add_ed25519}
use tmkms.KeyRing.Keys.{TendermintKey}
use tmkms.KeyRing.Ed25519
use tmkms.KeyRing.Ecdsa
use tmkms.Chain.{Chain}
use tmkms.Chain.State.{State}
use tmkms.Chain.Registry.{Registry, get_chain, add_account_key, add_consensus_key}
use tmkms.Providers.{KeyType, account, consensus, add_account_keys, add_consensus_keys}
use tmkms.Providers.Single.{for_chains_keeps}
use tmkms.Providers.Softsign
use tmkms.Providers.Yubihsm
use tmkms.Providers.Ledger
use tmkms.Providers.Ledger.Client.{App}
use tmkms.Providers.Fortanix
use tmkms.Providers.Load.{Backends, ProviderConfig, load_config}

-- The state of a registered chain.
abbrev pub state_of : KeyOrd String → String → Registry → Option State
state_of ids id r = map_option (λ (c : Chain). c.state) (get_chain ids id r)

module _ (ids : KeyOrd String) (keys : KeyOrd TendermintKey) (lawful : IsKeyOrd ids) where
  state_of-add_account_key :
      (chain_id id : String) (signer : Ecdsa.Signer) (r : Registry)
      → state_of ids id (add_account_key ids keys chain_id signer r).1 ≡ state_of ids id r
  unfolding add_account_key get_chain
  state_of-add_account_key chain_id id signer r = elim (Option-cases (get ids chain_id r)) [
    | inl missing ↦ ground arith
    | inr (chain, known) ↦
        let new = record chain { keyring = (add_ecdsa keys signer chain.keyring).1 } in
        ground (arith, get-put ids lawful chain_id id new r, lawful.beq_iff chain_id id)
  ]

  state_of-add_consensus_key :
      (chain_id id : String) (signer : Ed25519.Signer) (r : Registry)
      → state_of ids id (add_consensus_key ids keys chain_id signer r).1 ≡ state_of ids id r
  unfolding add_consensus_key get_chain
  state_of-add_consensus_key chain_id id signer r = elim (Option-cases (get ids chain_id r)) [
    | inl missing ↦ ground arith
    | inr (chain, known) ↦
        let new = record chain { keyring = (add_ed25519 keys signer chain.keyring).1 } in
        ground (arith, get-put ids lawful chain_id id new r, lawful.beq_iff chain_id id)
  ]

  -- No state has changed since `r₀`.
  abbrev SameStates : Registry → Registry → Type 0
  SameStates r₀ r = (id : String) → state_of ids id r ≡ state_of ids id r₀

  either-Keeps :
      (P : Registry → Type 0) (k : KeyType) (m n : Exec Registry ErrorKind (Unit {0}))
      → Keeps P m
      → Keeps P n
      → Keeps P (elim k [ account ↦ m | consensus ↦ n ])
  either-Keeps P account m n km kn = km
  either-Keeps P consensus m n km kn = kn

  once-Keeps :
      (P : Registry → Type 0) (b : Bool) (m n : Exec Registry ErrorKind (Unit {0}))
      → Keeps P m
      → Keeps P n
      → Keeps P (elim b [ true ↦ m | false ↦ n ])
  once-Keeps P true m n km kn = km
  once-Keeps P false m n km kn = kn

  module _ (r₀ : Registry) where
    accounts_keep :
        (signer : Ecdsa.Signer) (chain_ids : List String)
        → Keeps (SameStates r₀) (add_account_keys ids keys signer chain_ids)
    unfolding add_account_keys
    accounts_keep signer chain_ids = record {
      at =
          for_chains_keeps (SameStates r₀) (λ chain_id. add_account_key ids keys chain_id signer)
            (λ chain_id r h id. state_of-add_account_key chain_id id signer r ∙ h id) chain_ids;
    }

    consensus_keep :
        (signer : Ed25519.Signer) (chain_ids : List String)
        → Keeps (SameStates r₀) (add_consensus_keys ids keys signer chain_ids)
    unfolding add_consensus_keys
    consensus_keep signer chain_ids = record {
      at =
          for_chains_keeps (SameStates r₀) (λ chain_id. add_consensus_key ids keys chain_id signer)
            (λ chain_id r h id. state_of-add_consensus_key chain_id id signer r ∙ h id) chain_ids;
    }

    softsign-Keeps :
        {D Client : Type 0} (b : Backends D Client) (loaded : Bool)
        (configs : List Softsign.SoftsignConfig)
        → Keeps (SameStates r₀) (Softsign.init_from b.crypto b.files ids keys loaded configs)
    unfolding Softsign.init_from Softsign.init_account Softsign.init_consensus
    softsign-Keeps b loaded [] = Keeps-pure (SameStates r₀) tt
    softsign-Keeps b loaded (config ∷ configs) =
        let P = SameStates r₀ in
        either-Keeps P config.key_type _ _
          (Keeps-bind P _ _
            (Keeps-lift-bind P (Softsign.load_secp256k1_key b.crypto b.files config) _ λ key _.
              Keeps-lift-bind P (Softsign.account_signer b.crypto b.files key) _
                λ signer _. accounts_keep signer config.chain_ids)
            (λ _. softsign-Keeps b loaded configs))
          (once-Keeps P loaded _ _ (Keeps-lift P (err config_error)) (
            Keeps-bind P _ _
              (Keeps-lift-bind P (Softsign.load_ed25519_key b.crypto b.files config) _ λ pair _.
                consensus_keep (Softsign.consensus_signer b.crypto b.files pair) config.chain_ids)
              (λ _. softsign-Keeps b true configs)))

    yubihsm-Keeps :
        (hsm : Yubihsm.Hsm) (configs : List Yubihsm.SigningKeyConfig)
        → Keeps (SameStates r₀) (Yubihsm.add_keys hsm ids keys configs)
    unfolding Yubihsm.add_keys Yubihsm.add_account Yubihsm.add_consensus
    yubihsm-Keeps hsm [] = Keeps-pure (SameStates r₀) tt
    yubihsm-Keeps hsm (config ∷ configs) =
        let P = SameStates r₀ in
        either-Keeps P config.key_type _ _
          (Keeps-bind P _ _
            (Keeps-lift-bind P (Yubihsm.created (hsm.create_ecdsa config.key)) _ λ handle _.
              Keeps-lift-bind P (Yubihsm.expected handle.public_key) _
                λ pk _. accounts_keep _ config.chain_ids)
            (λ _. yubihsm-Keeps hsm configs))
          (Keeps-bind P _ _
            (Keeps-lift-bind P (Yubihsm.created (hsm.create_ed25519 config.key)) _ λ handle _.
              Keeps-lift-bind P (Yubihsm.expected handle.public_key) _
                λ pk _. consensus_keep _ config.chain_ids)
            (λ _. yubihsm-Keeps hsm configs))

    signer-Keeps :
        {Client : Type 0} (dsm : Fortanix.Dsm Client) (client : Client)
        (config : Fortanix.SigningKeyConfig) (pk : TendermintKey) (k : KeyType)
        → Keeps (SameStates r₀) (Fortanix.signer_for dsm ids keys client config pk k)
    unfolding Fortanix.signer_for
    signer-Keeps dsm client config pk account = accounts_keep _ config.chain_ids
    signer-Keeps dsm client config pk consensus = consensus_keep _ config.chain_ids

    fortanix-Keeps :
        {Client : Type 0} (dsm : Fortanix.Dsm Client) (client : Client)
        (configs : List Fortanix.SigningKeyConfig)
        → Keeps (SameStates r₀) (Fortanix.add_keys dsm ids keys client configs)
    unfolding Fortanix.add_keys Fortanix.add_key
    fortanix-Keeps dsm client [] = Keeps-pure (SameStates r₀) tt
    fortanix-Keeps dsm client (config ∷ configs) =
        let P = SameStates r₀ in
        Keeps-bind P _ _
          (Keeps-lift-bind P (Fortanix.new_signing_key dsm client config.key config.key_type) _
            λ pk _. signer-Keeps dsm client config pk config.key_type)
          (λ _. fortanix-Keeps dsm client configs)

    fortanix_init-Keeps :
        {Client : Type 0} (dsm : Fortanix.Dsm Client) (configs : List Fortanix.FortanixDsmConfig)
        → Keeps (SameStates r₀) (Fortanix.init dsm ids keys configs)
    unfolding Fortanix.init
    fortanix_init-Keeps dsm [] = Keeps-pure (SameStates r₀) tt
    fortanix_init-Keeps dsm (config ∷ configs) =
        let P = SameStates r₀ in
        Keeps-lift-bind P (Fortanix.make_sdkms_client dsm config) _ λ client _.
          Keeps-bind P _ _ (fortanix-Keeps dsm client config.signing_keys)
            (λ _. fortanix_init-Keeps dsm configs)

    yubihsm_init-Keeps :
        (hsm : Yubihsm.Hsm) (configs : List (List Yubihsm.SigningKeyConfig))
        → Keeps (SameStates r₀) (Yubihsm.init hsm ids keys configs)
    unfolding Yubihsm.init
    yubihsm_init-Keeps hsm [] = Keeps-pure (SameStates r₀) tt
    yubihsm_init-Keeps hsm (config ∷ []) = yubihsm-Keeps hsm config
    yubihsm_init-Keeps hsm (_ ∷ _ ∷ _) = Keeps-lift (SameStates r₀) (err config_error)

    ledger_init-Keeps :
        {D : Type 0} (app : App D) (is_key : Bytes → Bool) (connected : Option D)
        (configs : List (List String))
        → Keeps (SameStates r₀) (Ledger.init app is_key ids keys connected configs)
    unfolding Ledger.init
    ledger_init-Keeps app is_key connected [] = Keeps-pure (SameStates r₀) tt
    ledger_init-Keeps app is_key none (chain_ids ∷ []) =
        Keeps-lift (SameStates r₀) (err signing_error)
    ledger_init-Keeps app is_key (some d) (chain_ids ∷ []) =
        Keeps-lift-bind (SameStates r₀) (Ledger.public_key app is_key d) _
          λ bytes _. consensus_keep (Ledger.device_signer app d bytes) chain_ids
    ledger_init-Keeps app is_key connected (_ ∷ _ ∷ _) =
        Keeps-lift (SameStates r₀) (err config_error)

    -- Whatever the back ends answer.
    pub load_config-Keeps :
        {D Client : Type 0} (b : Backends D Client) (config : ProviderConfig)
        → Keeps (SameStates r₀) (load_config b ids keys config)
    unfolding load_config Softsign.init
    load_config-Keeps b config =
        let P = SameStates r₀ in
        Keeps-bind P _ _ (softsign-Keeps b false config.softsign) λ _.
          Keeps-bind P _ _ (yubihsm_init-Keeps b.hsm config.yubihsm) λ _.
            Keeps-bind P _ _ (ledger_init-Keeps b.app b.is_ed25519 b.connected config.ledgertm)
              λ _. fortanix_init-Keeps b.dsm config.fortanixdsm
