-- ===== src/Client.antt =====
-- src/client.rs: a client opens sessions with one validator, one after the other.
pub mod Peers
pub mod Ends
use tmkms.Prelude.{
  ℕ, String, Bool, true, false, Option, none, some, is_some, List, [], ◌∷◌, ◌++◌, map_option,
  if◌then◌else◌, Outcome, ok, err, panic,
}
use tmkms.Error.{ErrorKind, from_panic}
use tmkms.Tendermint.{Bytes}
use tmkms.KeyUtils.{Files, Base64, Dalek}
use tmkms.Config.Validator.{ValidatorConfig}
use tmkms.Chain.Registry.{get_chain}
use tmkms.Rpc.{Wire}
use tmkms.Connection.{Network, Connection, open_session}
use tmkms.Session.{Platform, Kms}
use tmkms.Session.Loop.{Round, request_loop, caught, Verdict, finished, failed, reconnecting, turn}

-- What the client meets in one session: how the network answers, and the rounds of the connection.
pub record Attempt : Type 0 where
  pub net : Network
  pub rounds : List Round

-- The bytes that were written, how the session ended (`none` while it goes on), and what is shared.
abbrev pub Course : Type 0 → Type 0
Course A = List Bytes × Option A × Kms

module _ (env : Platform) (wire : Wire) (base64 : Base64) (dalek : Dalek) (files : Files) where
  -- a session on the connection, if it is open
  unfoldable pub session_on :
      ValidatorConfig → List Round → Kms → Outcome ErrorKind Connection → Course (Option ErrorKind)
  unfolding caught
  session_on config rounds kms (ok connection) =
      let (sent, out, kms') = request_loop env wire config rounds kms in
      (sent, map_option caught out, kms')
  session_on config rounds kms (err e) = ([], some (caught (err e)), kms)
  session_on config rounds kms (panic p) = ([], some (caught (panic p)), kms)

  -- The result of `run_client` is no error (`none`) or an error.
  unfoldable pub run_client : ValidatorConfig → Attempt → Kms → Course (Option ErrorKind)
  unfolding session_on
  run_client config attempt kms =
      session_on config attempt.rounds kms (open_session base64 dalek files attempt.net config)

  -- `main_loop`, over what the sessions meet. It has no verdict while the last session goes on.
  unfoldable pub client_loop : ValidatorConfig → List Attempt → Kms → Course Verdict
  unfolding run_client
  client_loop config [] kms = ([], none, kms)
  client_loop config (attempt ∷ attempts) kms =
      let (sent, result, kms') = run_client config attempt kms in
      let (later, verdict, kms'') = client_loop config attempts kms' in
      elim result [
        | none ↦ (sent, none, kms')
        | some r ↦ elim (turn config.reconnect r) [
          | finished ↦ (sent, some finished, kms')
          | failed e ↦ (sent, some (failed e), kms')
          | reconnecting ↦ (sent ++ later, verdict, kms'')
        ]
      ]

  -- `register_chain`: the program exits with the code 1 if the chain is not registered.
  unfoldable pub register_chain : String → Kms → Option ℕ
  register_chain chain_id kms =
      if is_some (get_chain env.ids chain_id kms.registry) then none else some 1
