-- ===== src/Commands/Keys/Listing/Laws.antt =====
-- The formats that `yubihsm keys list` (src/commands/yubihsm/keys/list.rs) reads from the configuration.
use tmkms.Prelude.{
  ◌≡◌, refl, sym, ap, ◌∙◌, ℕ, String, Option, none, some, List, [], ◌∷◌, Memᴰ, Outcome, ok, err,
  panic, arith,
}
use tmkms.Map.{KeyOrd, IsKeyOrd, Map, get, put, insert}
use tmkms.Map.Laws.{get-put, get-put_self}
use tmkms.KeyRing.Format.{Format}
use tmkms.Providers.Yubihsm.{SigningKeyConfig}
use tmkms.Commands.Keys.Listing.{
  insert_new, load_chains, load_chain_formatters, preferred, with_format, load_keys,
  load_key_formatters,
}

-- What a chain of two steps with success has passed.
module _ {A B : Type 0} where
  stepped :
      (r : Outcome ℕ A) (k : A → Outcome ℕ B) {b : B}
      → (elim r [ ok a ↦ k a | err e ↦ err e | panic p ↦ panic p ]) ≡ ok b
      → (a : A) × (r ≡ ok a) × (k a ≡ ok b)
  stepped (ok a) k h = (a, refl, h)
  stepped (err e) k h = cc h
  stepped (panic p) k h = cc h

module _ {K : Type 0} (o : KeyOrd K) (lawful : IsKeyOrd o) where
  insert_new-ok :
      (k : K) (f : Format) (m : Map K Format) {m' : Map K Format}
      → insert_new o k f m ≡ ok m'
      → (get o k m ≡ none) × (m' ≡ put o k f m)
  unfolding insert_new insert
  insert_new-ok k f m h = (ground (arith, h), ground (arith, h))

  insert_new-adds :
      (k : K) (f : Format) (m : Map K Format) {m' : Map K Format}
      → insert_new o k f m ≡ ok m'
      → get o k m' ≡ some f
  insert_new-adds k f m h =
      let (_, same) = insert_new-ok k f m h in ap (get o k) same ∙ get-put_self o lawful k f m

  insert_new-keeps :
      (k j : K) (f g : Format) (m : Map K Format) {m' : Map K Format}
      → get o j m ≡ some g
      → insert_new o k f m ≡ ok m'
      → get o j m' ≡ some g
  insert_new-keeps k j f g m found h =
      let (new, same) = insert_new-ok k f m h in
      ap (get o j) same ∙ ground (arith, get-put o lawful k j f m, lawful.beq_iff k j)

module _ (ids : KeyOrd String) (lawful : IsKeyOrd ids) where
  load_chains_keeps :
      (chains : List (String × Format)) (m : Map String Format) (id : String) (f : Format)
      {m' : Map String Format}
      → get ids id m ≡ some f
      → load_chains ids chains m ≡ ok m'
      → get ids id m' ≡ some f
  unfolding load_chains
  load_chains_keeps [] m id f found h = cc (found, h)
  load_chains_keeps ((j, g) ∷ chains) m id f found h =
      let (m1, added, rest) = stepped (insert_new ids j g m) (load_chains ids chains) h in
      load_chains_keeps chains m1 id f (insert_new-keeps ids lawful j id g f m found added) rest

  -- A configured chain has its format, since no chain is configured twice.
  load_chains-finds :
      (chains : List (String × Format)) (m : Map String Format) (id : String) (f : Format)
      {m' : Map String Format}
      → Memᴰ (id, f) chains
      → load_chains ids chains m ≡ ok m'
      → get ids id m' ≡ some f
  unfolding load_chains
  load_chains-finds [] m id f here h = elim here [ ]
  load_chains-finds ((j, g) ∷ chains) m id f (Memᴰ.head e) h =
      let (m1, added, rest) = stepped (insert_new ids j g m) (load_chains ids chains) h in
      load_chains_keeps chains m1 id f
        (insert_new-adds ids lawful id f m
          (ap (λ (c : String × Format). insert_new ids c.0 c.1 m) e ∙ added))
        rest
  load_chains-finds ((j, g) ∷ chains) m id f (Memᴰ.tail t) h =
      let (m1, _, rest) = stepped (insert_new ids j g m) (load_chains ids chains) h in
      load_chains-finds chains m1 id f t rest

  module _ (numbers : KeyOrd ℕ) (ordered : IsKeyOrd numbers) (formatters : Map String Format) where
    with_format-keeps :
        (key k : ℕ) (new : Option Format) (m : Map ℕ Format) (f : Format) {m' : Map ℕ Format}
        → get numbers k m ≡ some f
        → with_format ids numbers formatters key new m ≡ ok m'
        → get numbers k m' ≡ some f
    unfolding with_format
    with_format-keeps key k none m f found h = cc (found, h)
    with_format-keeps key k (some g) m f found h =
        insert_new-keeps numbers ordered key k g f m found h

    load_keys_keeps :
        (configs : List SigningKeyConfig) (m : Map ℕ Format) (k : ℕ) (f : Format)
        {m' : Map ℕ Format}
        → get numbers k m ≡ some f
        → load_keys ids numbers formatters configs m ≡ ok m'
        → get numbers k m' ≡ some f
    unfolding load_keys
    load_keys_keeps [] m k f found h = cc (found, h)
    load_keys_keeps (config ∷ configs) m k f found h =
        let new = preferred ids formatters config.chain_ids in
        let (m1, added, rest) =
          stepped (with_format ids numbers formatters config.key new m)
            (load_keys ids numbers formatters configs) h in
        load_keys_keeps configs m1 k f (with_format-keeps config.key k new m f found added) rest

    -- The key of one chain has the format of the chain.
    load_keys-finds :
        (configs : List SigningKeyConfig) (m : Map ℕ Format) (config : SigningKeyConfig)
        (id : String) (f : Format) {m' : Map ℕ Format}
        → Memᴰ config configs
        → config.chain_ids ≡ id ∷ []
        → get ids id formatters ≡ some f
        → load_keys ids numbers formatters configs m ≡ ok m'
        → get numbers config.key m' ≡ some f
    unfolding load_keys preferred with_format
    load_keys-finds [] m config id f here one known h = elim here [ ]
    load_keys-finds (c ∷ configs) m config id f (Memᴰ.head e) one known h =
        let new = preferred ids formatters c.chain_ids in
        let (m1, added, rest) =
          stepped (with_format ids numbers formatters c.key new m)
            (load_keys ids numbers formatters configs) h in
        let same =
          ap (preferred ids formatters) (ap (λ (d : SigningKeyConfig). d.chain_ids) (sym e) ∙ one)
          ∙ known in
        load_keys_keeps configs m1 config.key f
          (insert_new-adds numbers ordered config.key f m (
            ap (λ (d : SigningKeyConfig). insert_new numbers d.key f m) e
            ∙ ap (λ n. with_format ids numbers formatters c.key n m) (sym same)
            ∙ added))
          rest
    load_keys-finds (c ∷ configs) m config id f (Memᴰ.tail t) one known h =
        let (m1, _, rest) =
          stepped
            (with_format ids numbers formatters c.key (preferred ids formatters c.chain_ids) m)
            (load_keys ids numbers formatters configs) h in
        load_keys-finds configs m1 config id f t one known rest

  -- If the formats of the keys can be read from the configuration, they give a key that is configured
  -- for exactly one chain, which is itself configured, the format of this chain: neither another entry
  -- for the key nor one for the chain has replaced it.
  pub load_key_formatters-finds :
      (numbers : KeyOrd ℕ) (ordered : IsKeyOrd numbers) (chains : List (String × Format))
      (configs : List SigningKeyConfig) (config : SigningKeyConfig) (id : String) (f : Format)
      (formatters : Map ℕ Format)
      → Memᴰ config configs
      → config.chain_ids ≡ id ∷ []
      → Memᴰ (id, f) chains
      → load_key_formatters ids numbers chains (ok configs) ≡ ok formatters
      → get numbers config.key formatters ≡ some f
  unfolding load_key_formatters load_chain_formatters
  load_key_formatters-finds numbers ordered chains configs config id f formatters here one there h =
      let (known, loaded, rest) =
        stepped (load_chain_formatters ids chains) (λ known. load_keys ids numbers known configs [])
          h in
      load_keys-finds numbers ordered known configs [] config id f here one
        (load_chains-finds chains [] id f there loaded) rest
