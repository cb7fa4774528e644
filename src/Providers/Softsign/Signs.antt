-- ===== src/Providers/Softsign/Signs.antt =====
-- After the software provider is set up (src/keyring/providers/softsign.rs), which key a chain signs
-- with.
use tmkms.Prelude.{
  ◌≡◌, ◌≢◌, refl, sym, ap, ◌∙◌, subst, ◌⊎◌, inl, inr, String, Bool, true, false, none, some, List,
  [], ◌∷◌, Memᴰ, All, arith, Outcome, ok, err, Option-cases,
}
use tmkms.Prelude.Exec.{Exec, lift, ◌>>◌, >>=-ok}
use tmkms.Prelude.Exec.Keeps.{Keeps-step}
use tmkms.Error.{ErrorKind, config_error}
use tmkms.Tendermint.{Bytes}
use tmkms.Map.{KeyOrd, IsKeyOrd, values}
use tmkms.KeyUtils.{Files, Keypair}
use tmkms.KeyRing.{sign_ed25519}
use tmkms.KeyRing.Keys.{PublicKey, ed25519, TendermintKey}
use tmkms.KeyRing.Ed25519
use tmkms.Chain.{Chain}
use tmkms.Chain.Registry.{Registry, get_chain, add_account_key}
use tmkms.Providers.{KeyType, account, consensus, add_account_keys, add_consensus_keys}
use tmkms.Providers.Single.{
  ring, IsNew, IsSole, AllNew, AtMost, ring-add_account_key, for_chains_keeps, add_each-ok,
}
use tmkms.Providers.Softsign.{
  Crypto, SoftsignConfig, load_ed25519_key, load_secp256k1_key, account_signer, consensus_signer,
  init_account, init_consensus, init_from,
}

type_cases : (t : KeyType) → (t ≡ account) ⊎ (t ≡ consensus)
type_cases account = inl refl
type_cases consensus = inr refl

-- The chains of a consensus key each hold that key alone.
module _ (crypto : Crypto) (files : Files) (ids : KeyOrd String) where
  abbrev pub Loaded : SoftsignConfig → Registry → Type 0
  Loaded config r =
      (pair : Keypair) × (load_ed25519_key crypto files config ≡ ok pair)
      × All
          (λ id. IsSole (ed25519 pair.public) (consensus_signer crypto files pair) (ring ids id r))
          config.chain_ids

module _ (crypto : Crypto) (files : Files) (ids : KeyOrd String) (keys : KeyOrd TendermintKey)
    (lawful : IsKeyOrd ids) (keyed : IsKeyOrd keys) where
  ring-init_account :
      (config : SoftsignConfig) (id : String) (r : Registry)
      → ring ids id (init_account crypto files ids keys config r).1 ≡ ring ids id r
  unfolding init_account add_account_keys
  ring-init_account config id r =
      let same = λ (r' : Registry). ring ids id r' ≡ ring ids id r in
      Keeps-step same (lift (load_secp256k1_key crypto files config)) _ r refl λ key _.
        Keeps-step same (lift (account_signer crypto files key)) _ r refl λ signer _.
          for_chains_keeps same (λ chain_id. add_account_key ids keys chain_id signer)
            (λ chain_id r' e. ring-add_account_key ids keys lawful chain_id id signer r' ∙ e)
            config.chain_ids r refl

  init_from-account :
      (loaded : Bool) (config : SoftsignConfig) (configs : List SoftsignConfig)
      → config.key_type ≡ account
      → init_from crypto files ids keys loaded (config ∷ configs) ≡ (
          init_account crypto files ids keys config
          >> init_from crypto files ids keys loaded configs)
  unfolding init_from
  init_from-account loaded config configs e = simp e refl

  init_from-second :
      (config : SoftsignConfig) (configs : List SoftsignConfig)
      → config.key_type ≡ consensus
      → init_from crypto files ids keys true (config ∷ configs) ≡ lift (err config_error)
  unfolding init_from
  init_from-second config configs e = simp e refl

  init_from-first :
      (config : SoftsignConfig) (configs : List SoftsignConfig)
      → config.key_type ≡ consensus
      → init_from crypto files ids keys false (config ∷ configs) ≡ (
          init_consensus crypto files ids keys config
          >> init_from crypto files ids keys true configs)
  unfolding init_from
  init_from-first config configs e = simp e refl

  -- After the key of an account, a run that succeeds goes on with the other keys.
  init_from-rest :
      (loaded : Bool) (c : SoftsignConfig) (configs : List SoftsignConfig) (r : Registry)
      → c.key_type ≡ account
      → (init_from crypto files ids keys loaded (c ∷ configs) r).0 ≡ ok tt
      → init_from crypto files ids keys loaded (c ∷ configs) r
        ≡ init_from crypto files ids keys loaded configs (init_account crypto files ids keys c r).1
  init_from-rest loaded c configs r first h =
      let (_, _, same) =
        >>=-ok (init_account crypto files ids keys c)
          (λ _. init_from crypto files ids keys loaded configs) r
          (init_from crypto files ids keys loaded (c ∷ configs) r)
          (ap (λ (f : Exec Registry ErrorKind (Unit {0})). f r)
            (init_from-account loaded c configs first))
          h in
      same

  -- Once a consensus key is loaded, no keyring changes any more.
  ring-init_from_loaded :
      (configs : List SoftsignConfig) (id : String) (r : Registry)
      → ring ids id (init_from crypto files ids keys true configs r).1 ≡ ring ids id r
  unfolding init_from
  ring-init_from_loaded [] id r = refl
  ring-init_from_loaded (config ∷ configs) id r = elim (type_cases config.key_type) [
    | inl is_account ↦ rw (init_from-account true config configs is_account) (
        Keeps-step (λ (r' : Registry). ring ids id r' ≡ ring ids id r)
          (init_account crypto files ids keys config)
          (λ _. init_from crypto files ids keys true configs) r (ring-init_account config id r)
          (λ _ _. ring-init_from_loaded configs id _ ∙ ring-init_account config id r))
    | inr is_consensus ↦ rw (init_from-second config configs is_consensus) refl
  ]

  one_consensus :
      (configs : List SoftsignConfig) (config : SoftsignConfig) (r : Registry)
      → (init_from crypto files ids keys true configs r).0 ≡ ok tt
      → Memᴰ config configs
      → config.key_type ≢ consensus
  one_consensus [] config r h m is_consensus = elim m [ ]
  one_consensus (c ∷ configs) config r h m is_consensus = elim (type_cases c.key_type) [
    | inr second ↦ ground (arith, init_from-second c configs second)
    | inl first ↦ elim m [
      | Memᴰ.head e ↦ cc (first, is_consensus, ap (λ (k : SoftsignConfig). k.key_type) e)
      | Memᴰ.tail m' ↦
          one_consensus configs config (init_account crypto files ids keys c r).1
            (cc (init_from-rest true c configs r first h, h)) m' is_consensus
    ]
  ]

  init_consensus-Loaded :
      (config : SoftsignConfig) (r : Registry)
      → AllNew ids r
      → (init_consensus crypto files ids keys config r).0 ≡ ok tt
      → Loaded crypto files ids config (init_consensus crypto files ids keys config r).1
  unfolding init_consensus consensus_signer
  init_consensus-Loaded config r new h =
      let (pair, loaded, same) =
        >>=-ok (lift (load_ed25519_key crypto files config))
          (λ (pair : Keypair).
            add_consensus_keys ids keys (consensus_signer crypto files pair) config.chain_ids)
          r (init_consensus crypto files ids keys config r) refl h in
      let start : AtMost ids (ed25519 pair.public) (consensus_signer crypto files pair) r =
        λ id. inl (new id) in
      (
        pair,
        loaded,
        subst
            (λ (p : Outcome ErrorKind (Unit {0}) × Registry).
              All
                (λ id.
                  IsSole (ed25519 pair.public) (consensus_signer crypto files pair)
                    (ring ids id p.1))
                config.chain_ids)
            (sym same)
            (add_each-ok ids keys lawful keyed (ed25519 pair.public)
              (consensus_signer crypto files pair) refl config.chain_ids r start (cc (same, h))),
      )

  Loaded-same :
      (config : SoftsignConfig) (r r' : Registry)
      → ((id : String) → ring ids id r' ≡ ring ids id r)
      → Loaded crypto files ids config r
      → Loaded crypto files ids config r'
  Loaded-same config r r' same (pair, loaded, sole) = (pair, loaded, moved config.chain_ids sole)
    where
      moved :
          (l : List String)
          → All
              (λ id.
                IsSole (ed25519 pair.public) (consensus_signer crypto files pair) (ring ids id r))
              l
          → All
              (λ id.
                IsSole (ed25519 pair.public) (consensus_signer crypto files pair) (ring ids id r'))
              l
      moved [] h = tt
      moved (id ∷ l) (h, hs) = (same id ∙ h, moved l hs)

  -- What a successful set-up of the provider leaves for a configured consensus key
  pub init-Loaded :
      (configs : List SoftsignConfig) (config : SoftsignConfig) (r : Registry)
      → AllNew ids r
      → (init_from crypto files ids keys false configs r).0 ≡ ok tt
      → Memᴰ config configs
      → config.key_type ≡ consensus
      → Loaded crypto files ids config (init_from crypto files ids keys false configs r).1
  init-Loaded [] config r new h m is_consensus = elim m [ ]
  init-Loaded (c ∷ configs) config r new h m is_consensus = elim (type_cases c.key_type) [
    | inl first ↦
        let same = init_from-rest false c configs r first h in
        elim m [
          | Memᴰ.head e ↦ cc (first, is_consensus, ap (λ (k : SoftsignConfig). k.key_type) e)
          | Memᴰ.tail m' ↦
              subst
                (λ (p : Outcome ErrorKind (Unit {0}) × Registry).
                  Loaded crypto files ids config p.1)
                (sym same)
                (init-Loaded configs config (init_account crypto files ids keys c r).1
                  (λ id. subst IsNew (sym (ring-init_account c id r)) (new id)) (cc (same, h)) m'
                  is_consensus)
        ]
    | inr first ↦
        let (_, one, same) =
          >>=-ok (init_consensus crypto files ids keys c)
            (λ _. init_from crypto files ids keys true configs) r
            (init_from crypto files ids keys false (c ∷ configs) r)
            (ap (λ (f : Exec Registry ErrorKind (Unit {0})). f r) (init_from-first c configs first))
            h in
        elim m [
          | Memᴰ.head e ↦
              subst
                (λ (k : SoftsignConfig).
                  Loaded crypto files ids k
                    (init_from crypto files ids keys false (c ∷ configs) r).1)
                (sym e)
                (subst
                  (λ (p : Outcome ErrorKind (Unit {0}) × Registry). Loaded crypto files ids c p.1)
                  (sym same)
                  (Loaded-same c (init_consensus crypto files ids keys c r).1 _
                    (λ id.
                      ring-init_from_loaded configs id (init_consensus crypto files ids keys c r).1)
                    (init_consensus-Loaded c r new one)))
          | Memᴰ.tail m' ↦ absurd (
              one_consensus configs config (init_consensus crypto files ids keys c r).1
                (cc (same, h)) m' is_consensus)
        ]
  ]

  -- A chain with one key signs with it.
  pub sole-signs :
      (id : String) (r : Registry) (pk : PublicKey) (signer : Ed25519.Signer)
      → IsSole pk signer (ring ids id r)
      → (chain : Chain) × (get_chain ids id r ≡ some chain)
        × ((msg : Bytes) → sign_ed25519 keys none msg chain.keyring ≡ Ed25519.sign signer msg)
  unfolding sign_ed25519 values
  sole-signs id r pk signer sole = elim (Option-cases (get_chain ids id r)) [
    | inl missing ↦ ground arith
    | inr (chain, known) ↦ (chain, known, λ msg. ground arith)
  ]
