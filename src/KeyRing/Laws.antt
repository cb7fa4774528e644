-- ===== src/KeyRing/Laws.antt =====
-- What adding a signer to a keyring does to later signatures (src/keyring.rs).
use tmkms.Prelude.{◌≡◌, ◌≢◌, some, arith, is_some, if◌then◌else◌, ok, err}
use tmkms.Tendermint.{Bytes}
use tmkms.Error.{invalid_key}
use tmkms.Map.{KeyOrd, IsKeyOrd, get}
use tmkms.Map.Laws.{get-put, get-put_self}
use tmkms.KeyRing.{KeyRing, add_ed25519, sign_ed25519}
use tmkms.KeyRing.Keys.{PublicKey, TendermintKey, consensus_key}
use tmkms.KeyRing.Ed25519

module _ (o : KeyOrd TendermintKey) (lawful : IsKeyOrd o) where
  -- If `==` on keys is equality, adding a consensus key reports an error exactly if its public
  -- key is there already, but in both cases the new signer is the one that signs under this
  -- public key from then on, and what is signed under any other public key stays the same.
  pub add_ed25519-signs :
      (s : Ed25519.Signer) (pk : PublicKey) (other : TendermintKey) (k : KeyRing) (msg : Bytes)
      → s.public_key ≡ consensus_key pk
      → other ≢ consensus_key pk
      → ((add_ed25519 o s k).0
          ≡ (if is_some (get o (consensus_key pk) k.ed25519_keys) then err invalid_key else ok tt))
        × (sign_ed25519 o (some (consensus_key pk)) msg (add_ed25519 o s k).1 ≡ Ed25519.sign s msg)
        × (sign_ed25519 o (some other) msg (add_ed25519 o s k).1
            ≡ sign_ed25519 o (some other) msg k)
  unfolding add_ed25519 sign_ed25519
  add_ed25519-signs s pk other k msg key differs = ground (
    arith,
    get-put_self o lawful (consensus_key pk) s k.ed25519_keys,
    get-put o lawful (consensus_key pk) other s k.ed25519_keys,
    lawful.beq_iff (consensus_key pk) other,
  )
