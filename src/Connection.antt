-- ===== src/Connection.antt =====
-- src/connection/tcp.rs and `Session::open` of src/session.rs: connections to a validator.
pub mod Laws
use tmkms.Prelude.{
  ℕ, String, Bool, true, false, not, Option, none, some, if◌then◌else◌, str_eq, Outcome, ok, err,
  panic,
}
use tmkms.Error.{
  ErrorKind, IoError, io_failed, from_io, config_error, crypto_error, protocol_error, invalid_key,
  verification_error,
}
use tmkms.KeyUtils.{Files, Base64, Dalek, Keypair, load_base64_ed25519_key}
use tmkms.Config.Validator.{
  ProtocolVersion, v0_34, v0_33, legacy, Address, tcp, unix, ValidatorConfig,
}

-- `tendermint_p2p::secret_connection::Version`
pub data SecretVersion : Type 0 where
  secret_v0_34 secret_v0_33 secret_legacy : SecretVersion

unfoldable pub secret_version : ProtocolVersion → SecretVersion
secret_version v0_34 = secret_v0_34
secret_version v0_33 = secret_v0_33
secret_version legacy = secret_legacy

-- What `SecretConnection::new` gives: the ID of the peer's key, or an error of one of the kinds that the
-- code tells apart.
pub data Handshake : Type 0 where
  established : String → Handshake
  failed_crypto failed_protocol failed_key failed_otherwise : Handshake

-- How the network answers one attempt to connect.
pub record Network : Type 0 where
  pub tcp_connects : String → ℕ → Bool
  pub read_timeout_set : ℕ → Bool
  pub write_timeout_set : ℕ → Bool
  pub handshake : Keypair → SecretVersion → Handshake
  pub unix_connects : String → Bool

-- An open connection: to the peer with this ID, or over a socket of this machine.
pub data Connection : Type 0 where
  secret_connection : String → Connection
  unix_connection : String → Connection

abbrev pub default_timeout : ℕ
default_timeout = 10

unfoldable pub timeout_of : Option ℕ → ℕ
timeout_of none = default_timeout
timeout_of (some timeout) = timeout

-- A peer that is not named in the configuration is not compared.
unfoldable pub check_peer : Option String → String → Outcome ErrorKind String
check_peer none actual = ok actual
check_peer (some expected) actual =
    if str_eq expected actual then ok actual else err verification_error

unfoldable pub connected : Option String → Handshake → Outcome ErrorKind String
unfolding check_peer
connected peer_id (established actual) = check_peer peer_id actual
connected peer_id failed_crypto = err crypto_error
connected peer_id failed_protocol = err protocol_error
connected peer_id failed_key = err invalid_key
connected peer_id failed_otherwise = err protocol_error

module _ (base64 : Base64) (dalek : Dalek) (files : Files) (net : Network) where
  -- after the identity key is loaded
  unfoldable pub dial :
      Outcome ErrorKind Keypair
      → String
      → ℕ
      → Option String
      → ℕ
      → SecretVersion
      → Outcome ErrorKind String
  unfolding connected from_io
  dial (err e) host port peer_id timeout version = err e
  dial (panic p) host port peer_id timeout version = panic p
  dial (ok identity_key) host port peer_id timeout version =
      if not (net.tcp_connects host port)
      then err (from_io io_failed)
      else if not (net.read_timeout_set timeout)
      then err (from_io io_failed)
      else if not (net.write_timeout_set timeout)
      then err (from_io io_failed)
      else connected peer_id (net.handshake identity_key version)

  -- The ID of the peer at the other end
  unfoldable pub open_secret_connection :
      String
      → ℕ
      → Option String
      → Option String
      → Option ℕ
      → SecretVersion
      → Outcome ErrorKind String
  unfolding dial timeout_of
  open_secret_connection host port none peer_id timeout version = err config_error
  open_secret_connection host port (some identity_key_path) peer_id timeout version =
      dial (load_base64_ed25519_key base64 dalek identity_key_path files) host port peer_id
        (timeout_of timeout) version

  open_tcp : Outcome ErrorKind String → Outcome ErrorKind Connection
  open_tcp (ok peer) = ok (secret_connection peer)
  open_tcp (err e) = err e
  open_tcp (panic p) = panic p

  -- `Session::open`, by the address
  unfoldable pub open_at : ValidatorConfig → Address → Outcome ErrorKind Connection
  unfolding open_tcp secret_version from_io
  open_at config (tcp peer_id host port) = open_tcp (
      open_secret_connection host port config.secret_key peer_id config.timeout
        (secret_version config.protocol_version))
  open_at config (unix path) =
      if net.unix_connects path then ok (unix_connection path) else err (from_io io_failed)

  unfoldable pub open_session : ValidatorConfig → Outcome ErrorKind Connection
  unfolding open_at
  open_session config = open_at config config.addr
