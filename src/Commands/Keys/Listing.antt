-- ===== src/Commands/Keys/Listing.antt =====
-- src/commands/yubihsm/keys/list.rs: the keys in a YubiHSM are printed, each in the format of its chain.
pub mod Laws
use tmkms.Prelude.{
  ℕ, String, Bool, Option, none, some, List, [], ◌∷◌, ltb, length, ◌==◌, if◌then◌else◌, Outcome, ok,
  err, panic, crash,
}
use tmkms.Prelude.Exec.{Exec, pure, lift, ◌>>=◌, ◌>>◌}
use tmkms.Tendermint.{Bytes}
use tmkms.Map.{KeyOrd, Map, get, insert}
use tmkms.KeyRing.Keys.{PublicKey, TendermintKey, account_key, consensus_key}
use tmkms.KeyRing.Format.{Format, Printer, serialize}
use tmkms.Providers.{KeyType, account, consensus}
use tmkms.Providers.Yubihsm.{SigningKeyConfig}

pub data KeyAlgorithm : Type 0 where
  ec_k256 ed25519 other : KeyAlgorithm

pub record Entry : Type 0 where
  pub object_id : ℕ
  pub is_asymmetric_key : Bool

-- The device: its serial number, its objects, the label of a key, and its public key.
pub record Reader : Type 0 where
  pub serial_number : Option String
  pub list_objects : Option (List Entry)
  pub get_object_info : ℕ → Option String
  pub get_public_key : ℕ → Option (KeyAlgorithm × Bytes)

-- What the crates k256 and tendermint make of the bytes of a key
pub record Points : Type 0 where
  pub compress : Bytes → Bytes
  pub from_raw_secp256k1 : Bytes → Option PublicKey
  pub from_raw_ed25519 : Bytes → Option PublicKey

-- What is printed of a key: its ID, its type, its text and its label.
pub data Line : Type 0 where
  shown : ℕ → KeyType → String → String → Line
  unsupported : ℕ → Line

module _ {K : Type 0} (o : KeyOrd K) where
  -- `insert(..).is_some()` ends the program.
  insert_new : K → Format → Map K Format → Outcome ℕ (Map K Format)
  insert_new k f m = let (m', old) = insert o k f m in elim old [ none ↦ ok m' | some f' ↦ err 1 ]

module _ (ids : KeyOrd String) where
  -- A chain is its ID and its `key_format`.
  load_chains : List (String × Format) → Map String Format → Outcome ℕ (Map String Format)
  unfolding insert_new
  load_chains [] m = ok m
  load_chains ((id, f) ∷ chains) m = elim (insert_new ids id f m) [
    | ok m' ↦ load_chains chains m'
    | err e ↦ err e
    | panic p ↦ panic p
  ]

  unfoldable pub load_chain_formatters : List (String × Format) → Outcome ℕ (Map String Format)
  unfolding load_chains
  load_chain_formatters chains = load_chains chains []

  -- The format is only preferred if there is one chain per key.
  preferred : Map String Format → List String → Option Format
  preferred formatters (id ∷ []) = get ids id formatters
  preferred formatters _ = none

  module _ (numbers : KeyOrd ℕ) (formatters : Map String Format) where
    with_format : ℕ → Option Format → Map ℕ Format → Outcome ℕ (Map ℕ Format)
    unfolding insert_new
    with_format key none m = ok m
    with_format key (some f) m = insert_new numbers key f m

    load_keys : List SigningKeyConfig → Map ℕ Format → Outcome ℕ (Map ℕ Format)
    unfolding with_format preferred
    load_keys [] m = ok m
    load_keys (config ∷ configs) m =
        elim (with_format config.key (preferred formatters config.chain_ids) m) [
          | ok m' ↦ load_keys configs m'
          | err e ↦ err e
          | panic p ↦ panic p
        ]

  -- `configs` is what `config` of src/yubihsm.rs gives; its exit comes after those of the chains.
  unfoldable pub load_key_formatters :
      KeyOrd ℕ
      → List (String × Format)
      → Outcome ℕ (List SigningKeyConfig)
      → Outcome ℕ (Map ℕ Format)
  unfolding load_keys
  load_key_formatters numbers chains configs = elim (load_chain_formatters chains) [
    | ok formatters ↦ elim configs [
      | ok keys ↦ load_keys numbers formatters keys []
      | err e ↦ err e
      | panic p ↦ panic p
    ]
    | err e ↦ err e
    | panic p ↦ panic p
  ]

or_stop : {A : Type 0} → Option A → Outcome ℕ A
or_stop none = err 1
or_stop (some a) = ok a

-- `unwrap`
unwrapped : (PublicKey → TendermintKey) → Option PublicKey → Outcome ℕ (Option TendermintKey)
unwrapped f none = panic crash
unwrapped f (some pk) = ok (some (f pk))

-- `GenericArray::from_slice` panics if there are not 64 bytes.
tendermint_key : Points → KeyAlgorithm × Bytes → Outcome ℕ (Option TendermintKey)
unfolding unwrapped
tendermint_key points (ec_k256, bytes) =
    if length bytes == 64
    then unwrapped account_key (points.from_raw_secp256k1 (points.compress bytes))
    else panic crash
tendermint_key points (ed25519, bytes) = unwrapped consensus_key (points.from_raw_ed25519 bytes)
tendermint_key points (other, bytes) = ok none

key_type : TendermintKey → KeyType
key_type (account_key pk) = account
key_type (consensus_key pk) = consensus

-- `Vec::sort_by`, which keeps the order of equal IDs
place : Entry → List Entry → List Entry
place e [] = e ∷ []
place e (f ∷ fs) =
    let rest = place e fs in if ltb f.object_id e.object_id then f ∷ rest else e ∷ f ∷ fs

sorted : List Entry → List Entry
unfolding place
sorted [] = []
sorted (e ∷ es) = place e (sorted es)

asymmetric_keys : List Entry → List Entry
asymmetric_keys [] = []
asymmetric_keys (e ∷ es) =
    let rest = asymmetric_keys es in if e.is_asymmetric_key then e ∷ rest else rest

module _ (reader : Reader) (points : Points) (printer : Printer) (numbers : KeyOrd ℕ)
    (formatters : Map ℕ Format) where
  serialized : ℕ → TendermintKey → String
  unfolding serialize
  serialized id key = elim (get numbers id formatters) [
    | some f ↦ serialize printer f key
    | none ↦ printer.to_hex key
  ]

  line_of : ℕ → String → Option TendermintKey → Line
  unfolding serialized key_type
  line_of id label none = unsupported id
  line_of id label (some key) = shown id (key_type key) (serialized id key) label

  unfoldable pub display_key_info : Entry → Exec (List Line) ℕ (Unit {0})
  unfolding or_stop tendermint_key line_of
  display_key_info key = do
    label ← lift (or_stop (reader.get_object_info key.object_id))
    public ← lift (or_stop (reader.get_public_key key.object_id))
    k ← lift (tendermint_key points public)
    (λ lines. (ok tt, line_of key.object_id label k ∷ lines))

  display_keys : List Entry → Exec (List Line) ℕ (Unit {0})
  display_keys [] = pure tt
  display_keys (key ∷ keys) = do display_key_info key; display_keys keys

  -- The lines are in the opposite order. A device without keys ends the program with success.
  unfoldable pub list_keys : Exec (List Line) ℕ (Unit {0})
  unfolding or_stop sorted asymmetric_keys display_keys
  list_keys = do
    serial_number ← lift (or_stop reader.serial_number)
    objects ← lift (or_stop reader.list_objects)
    elim (sorted (asymmetric_keys objects)) [
      | [] ↦ lift (err 0)
      | key ∷ keys ↦ display_keys (key ∷ keys)
    ]

module _ (reader : Reader) (points : Points) (printer : Printer) (ids : KeyOrd String)
    (numbers : KeyOrd ℕ) where
  -- The configuration is read before the device.
  unfoldable pub run :
      List (String × Format) → Outcome ℕ (List SigningKeyConfig) → Exec (List Line) ℕ (Unit {0})
  run chains configs = do
    formatters ← lift (load_key_formatters ids numbers chains configs)
    list_keys reader points printer numbers formatters
