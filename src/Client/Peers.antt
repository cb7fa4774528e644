-- ===== src/Client/Peers.antt =====
-- Whom a client of src/client.rs signs for.
use tmkms.Prelude.{
  ℕ, ◌≡◌, ◌≢◌, refl, String, some, List, [], ◌∷◌, All, arith, Outcome, ok, err, panic,
}
use tmkms.Error.{ErrorKind}
use tmkms.KeyUtils.{Files, Base64, Dalek, Keypair}
use tmkms.Config.Validator.{tcp, ValidatorConfig}
use tmkms.Rpc.{Wire}
use tmkms.Connection.{established, Connection, SecretVersion, open_session}
use tmkms.Connection.Laws.{open_session-named}
use tmkms.Session.{Platform, Kms}
use tmkms.Client.{Attempt, session_on, run_client, client_loop}

-- No key makes the network give a connection with this peer.
abbrev pub NeverPeer : String → Attempt → Type 0
NeverPeer peer attempt =
    (key : Keypair) (version : SecretVersion) → attempt.net.handshake key version ≢ established peer

module _ (env : Platform) (wire : Wire) (base64 : Base64) (dalek : Dalek) (files : Files)
    (config : ValidatorConfig) (expected host : String) (port : ℕ)
    (named : config.addr ≡ tcp (some expected) host port) where
  not_opened :
      (attempt : Attempt) (c : Connection)
      → NeverPeer expected attempt
      → open_session base64 dalek files attempt.net config ≢ ok c
  not_opened attempt c never h =
      let (key, version, shaken) =
        open_session-named base64 dalek files attempt.net config expected host port c named h in
      never key version shaken

  session_on-closed :
      (attempt : Attempt) (kms : Kms) (opened : Outcome ErrorKind Connection)
      → ((c : Connection) → opened ≢ ok c)
      → ((session_on env wire base64 dalek files config attempt.rounds kms opened).0 ≡ [])
        × ((session_on env wire base64 dalek files config attempt.rounds kms opened).2 ≡ kms)
  unfolding session_on
  session_on-closed attempt kms (ok c) closed = absurd (closed c refl)
  session_on-closed attempt kms (err e) closed = (refl, refl)
  session_on-closed attempt kms (panic p) closed = (refl, refl)

  -- A client whose configuration names the peer sends nothing and changes nothing, in however many
  -- sessions, while it only meets other peers.
  pub client_loop-stranger :
      (attempts : List Attempt) (kms : Kms)
      → All (NeverPeer expected) attempts
      → ((client_loop env wire base64 dalek files config attempts kms).0 ≡ [])
        × ((client_loop env wire base64 dalek files config attempts kms).2 ≡ kms)
  unfolding client_loop run_client
  client_loop-stranger [] kms never = (refl, refl)
  client_loop-stranger (attempt ∷ attempts) kms (first, others) =
      let (quiet, kept) =
        session_on-closed attempt kms (open_session base64 dalek files attempt.net config)
          (λ c. not_opened attempt c first) in
      ground (arith, quiet, kept, client_loop-stranger attempts kms others)
