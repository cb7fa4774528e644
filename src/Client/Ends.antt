-- ===== src/Client/Ends.antt =====
-- How a client of src/client.rs ends.
use tmkms.Prelude.{
  Bool, ◌≡◌, ◌≢◌, refl, ap, ◌∙◌, true, Option, none, some, List, [], ◌∷◌, ◌⊎◌, inl, inr, arith,
  Outcome, ok, err, panic, Option-cases,
}
use tmkms.Error.{ErrorKind, poison_error}
use tmkms.KeyUtils.{Files, Base64, Dalek}
use tmkms.Config.Validator.{ValidatorConfig}
use tmkms.Rpc.{Wire}
use tmkms.Connection.{Connection, open_session}
use tmkms.Session.{Platform, Kms}
use tmkms.Session.Loop.{Round, caught, Verdict, failed, reconnecting, turn}
use tmkms.Session.Loop.Ends.{request_loop-ne-ok}
use tmkms.Client.{Attempt, session_on, run_client, client_loop}

turn-failed :
    (reconnect : Bool) (e : ErrorKind) (v : Verdict)
    → turn reconnect (some e) ≡ v
    → (v ≡ reconnecting) ⊎ ((v ≡ failed e) × (reconnect ≡ true → e ≡ poison_error))
unfolding turn
turn-failed reconnect e v h = ground arith

module _ (env : Platform) (wire : Wire) (base64 : Base64) (dalek : Dalek) (files : Files)
    (config : ValidatorConfig) where
  -- A session never ends without an error.
  session_on-fails :
      (rounds : List Round) (kms : Kms) (opened : Outcome ErrorKind Connection)
      → (session_on env wire base64 dalek files config rounds kms opened).1 ≢ some none
  unfolding session_on caught
  session_on-fails rounds kms (ok c) h =
      ground (arith, request_loop-ne-ok env wire config rounds kms)
  session_on-fails rounds kms (err e) h = cc h
  session_on-fails rounds kms (panic p) h = cc h

  -- A client never finishes: where it has a verdict, it failed, and a client that reconnects fails only
  -- over a poisoned lock.
  pub client_loop-failed :
      (attempts : List Attempt) (kms : Kms) (verdict : Verdict)
      → (client_loop env wire base64 dalek files config attempts kms).1 ≡ some verdict
      → (e : ErrorKind) × (verdict ≡ failed e) × (config.reconnect ≡ true → e ≡ poison_error)
  unfolding client_loop run_client
  client_loop-failed [] kms verdict h = cc h
  client_loop-failed (attempt ∷ attempts) kms verdict h =
      let opened = open_session base64 dalek files attempt.net config in
      let run = session_on env wire base64 dalek files config attempt.rounds kms opened in
      let later = client_loop-failed attempts run.2 verdict in
      elim (Option-cases run.1) [
        | inl goes_on ↦ absurd (ground arith)
        | inr (r, ended) ↦ elim (Option-cases r) [
          | inl well ↦ absurd (
              session_on-fails attempt.rounds kms opened
                (ended ∙ ap (λ (o : Option ErrorKind). some o) well))
          | inr (e, bad) ↦
              elim (turn-failed config.reconnect e (turn config.reconnect (some e)) refl) [
                | inl again ↦ later (ground arith)
                | inr (stops, why) ↦ (e, ground arith, why)
              ]
        ]
      ]
