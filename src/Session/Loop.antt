-- ===== src/Session/Loop.antt =====
-- src/session.rs: the request loop of a session, and src/client.rs: the loop that opens sessions.
pub mod Ends
use tmkms.Prelude.{
  Bool, true, false, Option, none, some, List, [], ◌∷◌, if◌then◌else◌, Outcome, ok, err, panic,
  crash,
}
use tmkms.Prelude.Exec.{Exec, pure, lift, ◌>>=◌}
use tmkms.Error.{ErrorKind, io_error, from_panic, poison_error}
use tmkms.Tendermint.{Bytes}
use tmkms.KeyRing.{default_ed25519_pubkey}
use tmkms.KeyRing.Keys.{PublicKey, ed25519, secp256k1, TendermintKey, account_key, consensus_key}
use tmkms.Config.Validator.{ValidatorConfig}
use tmkms.Chain.State.{Weather}
use tmkms.Amino.Messages.{
  Request, sign_vote, sign_proposal, show_public_key, reply_ping, Response, ping, public_key,
}
use tmkms.Amino.Vote.{vote_request}
use tmkms.Amino.Proposal.{proposal_request}
use tmkms.Rpc.{Wire, read, encode}
use tmkms.Session.{Platform, Kms, find_chain, sign}

-- `PubKeyResponse::from`, which is implemented for Ed25519 keys only
key_response : PublicKey → Outcome ErrorKind Response
key_response (ed25519 bytes) = ok (public_key (record { pub_key_ed25519 = bytes }))
key_response (secp256k1 bytes) = panic crash

-- `*chain.keyring.default_ed25519_pubkey()?`, as a public key
inner_key : TendermintKey → PublicKey
inner_key (account_key pk) = pk
inner_key (consensus_key pk) = pk

-- One round of the connection: what is read, how the disk behaves, and whether the answer can be
-- written.
pub record Round : Type 0 where
  pub incoming : Option Bytes
  pub weather : Weather
  pub writable : Bool

module _ (env : Platform) (wire : Wire) where
  unfoldable pub get_public_key : Weather → ValidatorConfig → Exec Kms ErrorKind Response
  unfolding key_response inner_key
  get_public_key w config = do
    chain ← find_chain env w config
    key ← lift (default_ed25519_pubkey chain.keyring)
    lift (key_response (inner_key key))

  unfoldable pub respond_to : Weather → ValidatorConfig → Request → Exec Kms ErrorKind Response
  unfolding get_public_key
  respond_to w config (sign_proposal req) = sign env w config req
  respond_to w config (sign_vote req) = sign env w config req
  respond_to w config reply_ping = pure ping
  respond_to w config show_public_key = get_public_key w config

  -- The bytes that are written back. `Ok(true)` is the only success, so the loop goes on.
  unfoldable pub handle_request : ValidatorConfig → Round → Exec Kms ErrorKind Bytes
  handle_request config round = do
    request ← lift (read wire config.protocol_version round.incoming)
    response ← respond_to round.weather config request
    bytes ← lift (encode wire config.protocol_version response)
    lift (if round.writable then ok bytes else err io_error)

  -- The rounds of a session until one fails: what was written, and why the loop ended. Where the
  -- rounds run out the loop still waits for a request (`none`).
  unfoldable pub request_loop :
      ValidatorConfig → List Round → Kms → List Bytes × Option (Outcome ErrorKind (Unit {0})) × Kms
  request_loop config [] kms = ([], none, kms)
  request_loop config (round ∷ rounds) kms =
      let (out, kms') = handle_request config round kms in
      let rest = request_loop config rounds kms' in
      elim out [
        | ok bytes ↦ (bytes ∷ rest.0, rest.1, rest.2)
        | err e ↦ ([], some (err e), kms')
        | panic p ↦ ([], some (panic p), kms')
      ]

-- `run_client`: a panic is caught and turned into an error.
unfoldable pub caught : Outcome ErrorKind (Unit {0}) → Option ErrorKind
unfolding from_panic
caught (ok _) = none
caught (err e) = some e
caught (panic p) = some (from_panic p)

is_poison : ErrorKind → Bool
is_poison poison_error = true
is_poison _ = false

-- How a client ends: it stops with the error, or it waits and opens the next session.
pub data Verdict : Type 0 where
  finished : Verdict
  failed : ErrorKind → Verdict
  reconnecting : Verdict

-- One turn of `main_loop`, after `run_client` has returned.
unfoldable pub turn : Bool → Option ErrorKind → Verdict
unfolding is_poison
turn reconnect none = finished
turn reconnect (some e) =
    if is_poison e then failed e else if reconnect then reconnecting else failed e

-- `main_loop` over the results of its sessions; `none` while the last one is still running.
unfoldable pub main_loop : Bool → List (Outcome ErrorKind (Unit {0})) → Option Verdict
unfolding turn caught
main_loop reconnect [] = none
main_loop reconnect (out ∷ outs) =
    let rest = main_loop reconnect outs in
    elim (turn reconnect (caught out)) [
      | finished ↦ some finished
      | failed e ↦ some (failed e)
      | reconnecting ↦ rest
    ]
