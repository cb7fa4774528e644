-- ===== src/Connection/Laws.antt =====
-- When a connection is opened, and with whom (src/connection/tcp.rs and src/session.rs).
use tmkms.Prelude.{
  ℕ, String, ◌≡◌, ◌↔◌, ◌⊎◌, refl, sym, ap, ◌∙◌, subst, true, Option, none, some, str_eq_iff, arith,
  Outcome, ok, err, panic,
}
use tmkms.Error.{ErrorKind}
use tmkms.KeyUtils.{Files, Base64, Dalek, Keypair, load_base64_ed25519_key}
use tmkms.Config.Validator.{tcp, ValidatorConfig}
use tmkms.Connection.{
  SecretVersion, Handshake, established, failed_crypto, failed_protocol, failed_key,
  failed_otherwise, Network, Connection, timeout_of, open_secret_connection, secret_version,
  connected, dial, open_at, open_tcp, open_session,
}

module _ (base64 : Base64) (dalek : Dalek) (files : Files) (net : Network) where
  connected_iff :
      (peer_id : Option String) (h : Handshake) (peer : String)
      → (connected peer_id h ≡ ok peer)
        ↔ ((h ≡ established peer) × ((peer_id ≡ none) ⊎ (peer_id ≡ some peer)))
  unfolding connected
  connected_iff none h peer = ground arith
  connected_iff (some expected) (established actual) peer =
      ground (arith, str_eq_iff expected actual)
  connected_iff (some expected) failed_crypto peer = ground arith
  connected_iff (some expected) failed_protocol peer = ground arith
  connected_iff (some expected) failed_key peer = ground arith
  connected_iff (some expected) failed_otherwise peer = ground arith

  -- The conditions on the network and the peer
  abbrev pub Reaches : String → ℕ → Option String → ℕ → SecretVersion → String → Keypair → Type 0
  Reaches host port peer_id timeout version peer key =
      (net.tcp_connects host port ≡ true)
      × (net.read_timeout_set timeout ≡ true)
      × (net.write_timeout_set timeout ≡ true)
      × (net.handshake key version ≡ established peer)
      × ((peer_id ≡ none) ⊎ (peer_id ≡ some peer))

  dial_ok_iff :
      (key : Keypair) (host : String) (port : ℕ) (peer_id : Option String) (timeout : ℕ)
      (version : SecretVersion) (peer : String)
      → (dial base64 dalek files net (ok key) host port peer_id timeout version ≡ ok peer)
        ↔ Reaches host port peer_id timeout version peer key
  unfolding dial
  dial_ok_iff key host port peer_id timeout version peer =
      ground (arith, connected_iff peer_id (net.handshake key version) peer)

  dial_iff :
      (loaded : Outcome ErrorKind Keypair) (host : String) (port : ℕ) (peer_id : Option String)
      (timeout : ℕ) (version : SecretVersion) (peer : String)
      → (dial base64 dalek files net loaded host port peer_id timeout version ≡ ok peer)
        ↔ ((key : Keypair) × (loaded ≡ ok key) × Reaches host port peer_id timeout version peer key)
  unfolding dial
  dial_iff (ok key) host port peer_id timeout version peer =
      let (to, from) = dial_ok_iff key host port peer_id timeout version peer in
      (
        (λ h. (key, refl, to h)),
        λ (key', e, r). from (subst (Reaches host port peer_id timeout version peer) (cc e) r),
      )
  dial_iff (err e) host port peer_id timeout version peer = ((λ h. cc h), λ (key', e', r). cc e')
  dial_iff (panic p) host port peer_id timeout version peer = ((λ h. cc h), λ (key', e', r). cc e')

  -- A connection over TCP is open exactly when the identity key is configured and can be loaded, the
  -- socket connects and takes the timeout, which is 10 seconds unless another one is configured, the
  -- handshake succeeds, and the peer is the one that the configuration names, if it names one.
  pub open_secret_connection_iff :
      (host : String) (port : ℕ) (key_path peer_id : Option String) (timeout : Option ℕ)
      (version : SecretVersion) (peer : String)
      → (open_secret_connection base64 dalek files net host port key_path peer_id timeout version
          ≡ ok peer)
        ↔ ((path : String) × (key : Keypair) × (key_path ≡ some path)
            × (load_base64_ed25519_key base64 dalek path files ≡ ok key)
            × Reaches host port peer_id (timeout_of timeout) version peer key)
  unfolding open_secret_connection
  open_secret_connection_iff host port none peer_id timeout version peer =
      ((λ h. cc h), λ (path, key, e, l, r). cc e)
  open_secret_connection_iff host port (some path) peer_id timeout version peer =
      let (to, from) =
        dial_iff (load_base64_ed25519_key base64 dalek path files) host port peer_id
          (timeout_of timeout) version peer in
      (
        (λ h. let (key, e, r) = to h in (path, key, refl, e, r)),
        λ (path', key, e, l, r). from (key, cc (e, l), r),
      )

  open_tcp-peer :
      (opened : Outcome ErrorKind String) (c : Connection)
      → open_tcp base64 dalek files net opened ≡ ok c
      → (peer : String) × (opened ≡ ok peer)
  unfolding open_tcp
  open_tcp-peer (ok peer) c h = (peer, refl)
  open_tcp-peer (err e) c h = cc h
  open_tcp-peer (panic p) c h = cc h

  -- Where the configuration names the peer, only a handshake with this peer opens a session.
  pub open_session-named :
      (config : ValidatorConfig) (expected host : String) (port : ℕ) (c : Connection)
      → config.addr ≡ tcp (some expected) host port
      → open_session base64 dalek files net config ≡ ok c
      → (key : Keypair) × (version : SecretVersion) × (net.handshake key version
          ≡ established expected)
  unfolding open_session open_at
  open_session-named config expected host port c named h =
      let (peer, opened) =
        open_tcp-peer
          (open_secret_connection base64 dalek files net host port config.secret_key (some expected)
            config.timeout (secret_version config.protocol_version))
          c (sym (ap (open_at base64 dalek files net config) named) ∙ h) in
      let (path, key, _, _, reached) =
        (open_secret_connection_iff host port config.secret_key (some expected) config.timeout
            (secret_version config.protocol_version) peer).0
          opened in
      (key, secret_version config.protocol_version, ground (arith, reached))
