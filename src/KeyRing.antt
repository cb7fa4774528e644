-- ===== src/KeyRing.antt =====
-- src/keyring.rs: the keys of a chain, and signing with them.
pub mod Keys
pub mod Format
pub mod Ed25519
pub mod Ecdsa
pub mod Laws
use tmkms.Prelude.{
  ℕ, Bool, true, false, Option, none, some, List, [], ◌∷◌, ltb, length, is_some, if◌then◌else◌,
  Outcome, ok, err, panic, crash, ◌==◌,
}
use tmkms.Tendermint.{Bytes}
use tmkms.Error.{ErrorKind, invalid_key, signing_error}
use tmkms.Map.{KeyOrd, Map, insert, get, keys, values}
use tmkms.KeyRing.Keys.{PublicKey, TendermintKey, account_key, consensus_key, SigningProvider}
use tmkms.KeyRing.Ed25519
use tmkms.KeyRing.Ecdsa

pub record KeyRing : Type 0 where
  pub ecdsa_keys : Map TendermintKey Ecdsa.Signer
  pub ed25519_keys : Map TendermintKey Ed25519.Signer

unfoldable pub new : KeyRing
new = record { ecdsa_keys = []; ed25519_keys = [] }

-- Matching on the account's key: `account::Id::from` is the tendermint crate's.
first_account : (Bytes → Bool) → (PublicKey → Bytes) → List TendermintKey → Option PublicKey
first_account wanted account_id [] = none
first_account wanted account_id (account_key pk ∷ rest) =
    if wanted (account_id pk) then some pk else first_account wanted account_id rest
first_account wanted account_id (consensus_key pk ∷ rest) = first_account wanted account_id rest

first_signer :
    (Bytes → Bool) → (PublicKey → Bytes) → Map TendermintKey Ecdsa.Signer → Option Ecdsa.Signer
first_signer wanted account_id [] = none
first_signer wanted account_id ((account_key pk, s) ∷ rest) =
    if wanted (account_id pk) then some s else first_signer wanted account_id rest
first_signer wanted account_id ((consensus_key pk, s) ∷ rest) = first_signer wanted account_id rest

module _ (o : KeyOrd TendermintKey) where
  -- The new signer takes the place of the old one also where an error is returned.
  put_ecdsa : Ecdsa.Signer → KeyRing → TendermintKey → Outcome ErrorKind (Unit {0}) × KeyRing
  put_ecdsa s k (consensus_key pk) = (panic crash, k)
  put_ecdsa s k (account_key pk) =
      let (m, old) = insert o (account_key pk) s k.ecdsa_keys in
      (if is_some old then err invalid_key else ok tt, record k { ecdsa_keys = m })

  unfoldable pub add_ecdsa : Ecdsa.Signer → KeyRing → Outcome ErrorKind (Unit {0}) × KeyRing
  unfolding put_ecdsa insert
  add_ecdsa s k = put_ecdsa s k s.public_key

  put_ed25519 : Ed25519.Signer → KeyRing → TendermintKey → Outcome ErrorKind (Unit {0}) × KeyRing
  put_ed25519 s k (account_key pk) = (panic crash, k)
  put_ed25519 s k (consensus_key pk) =
      let (m, old) = insert o (consensus_key pk) s k.ed25519_keys in
      (if is_some old then err invalid_key else ok tt, record k { ed25519_keys = m })

  unfoldable pub add_ed25519 : Ed25519.Signer → KeyRing → Outcome ErrorKind (Unit {0}) × KeyRing
  unfolding put_ed25519 insert
  add_ed25519 s k = put_ed25519 s k s.public_key

  only_value : List Ed25519.Signer → Outcome ErrorKind Ed25519.Signer
  only_value [] = err invalid_key
  only_value (s ∷ []) = ok s
  only_value (s ∷ _ ∷ _) = err signing_error

  find_signer : Option TendermintKey → KeyRing → Outcome ErrorKind Ed25519.Signer
  find_signer none k = only_value (values k.ed25519_keys)
  find_signer (some pk) k = elim (get o pk k.ed25519_keys) [
    | none ↦ err invalid_key
    | some s ↦ ok s
  ]

  unfoldable pub sign_ed25519 : Option TendermintKey → Bytes → KeyRing → Outcome ErrorKind Bytes
  unfolding find_signer only_value Ed25519.sign
  sign_ed25519 public_key msg k = elim (find_signer public_key k) [
    | ok s ↦ Ed25519.sign s msg
    | err e ↦ err e
    | panic p ↦ panic p
  ]

only_key : List TendermintKey → Outcome ErrorKind TendermintKey
only_key (k ∷ []) = ok k
only_key _ = err invalid_key

unfoldable pub default_ed25519_pubkey : KeyRing → Outcome ErrorKind TendermintKey
unfolding only_key
default_ed25519_pubkey k = only_key (keys k.ed25519_keys)

module _ (wanted : Bytes → Bool) (account_id : PublicKey → Bytes) where
  unfoldable pub get_account_pubkey : KeyRing → Option PublicKey
  unfolding first_account
  get_account_pubkey k = first_account wanted account_id (keys k.ecdsa_keys)

  unfoldable pub sign_ecdsa : Bytes → KeyRing → Outcome ErrorKind Bytes
  unfolding first_signer Ecdsa.sign
  sign_ecdsa msg k = elim (first_signer wanted account_id k.ecdsa_keys) [
    | none ↦ err invalid_key
    | some s ↦ Ecdsa.sign s msg
  ]
