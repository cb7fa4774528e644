-- ===== src/Session/Loop/Ends.antt =====
-- How sessions and clients end (src/session.rs and src/client.rs).
use tmkms.Prelude.{
  ◌≡◌, ◌≢◌, sym, ◌⊎◌, inl, inr, true, some, List, [], ◌∷◌, Memᴰ, All, arith, Outcome, ok, err,
  panic, poisoned_lock,
}
use tmkms.Error.{ErrorKind, poison_error}
use tmkms.Config.Validator.{ValidatorConfig}
use tmkms.Rpc.{Wire}
use tmkms.Session.{Platform, Kms}
use tmkms.Session.Loop.{
  Round, handle_request, request_loop, caught, Verdict, failed, reconnecting, turn, main_loop,
}

-- A session never ends with success: it goes on, or fails, or panics.
pub request_loop-ne-ok :
    (env : Platform) (wire : Wire) (config : ValidatorConfig) (rounds : List Round) (kms : Kms)
    → (request_loop env wire config rounds kms).1 ≢ some (ok tt)
unfolding request_loop
request_loop-ne-ok env wire config [] kms h = cc h
request_loop-ne-ok env wire config (round ∷ rounds) kms h =
    let (out, kms') = handle_request env wire config round kms in
    ground (arith, request_loop-ne-ok env wire config rounds kms')

-- A session that does not succeed ends the client over a poisoned lock, or is followed by another.
turn_cases :
    (out : Outcome ErrorKind (Unit {0}))
    → out ≢ ok tt
    → ((turn true (caught out) ≡ failed poison_error)
        × ((out ≡ err poison_error) ⊎ (out ≡ panic poisoned_lock)))
      ⊎ (turn true (caught out) ≡ reconnecting)
unfolding turn caught
turn_cases out h = ground arith

-- A client that reconnects, none of whose sessions ends with success, stops only because a lock is
-- poisoned, and after a session that failed or panicked for this reason.
main_loop-poisoned :
    (outs : List (Outcome ErrorKind (Unit {0}))) (verdict : Verdict)
    → All (λ out. out ≢ ok tt) outs
    → main_loop true outs ≡ some verdict
    → (verdict ≡ failed poison_error)
      × (Memᴰ (err poison_error) outs ⊎ Memᴰ (panic poisoned_lock) outs)
unfolding main_loop
main_loop-poisoned [] verdict bad h = cc h
main_loop-poisoned (out ∷ outs) verdict bad h = elim (turn_cases out bad.0) [
  | inl (stops, inl was_err) ↦ (ground arith, inl (Memᴰ.head (sym was_err)))
  | inl (stops, inr was_panic) ↦ (ground arith, inr (Memᴰ.head (sym was_panic)))
  | inr goes_on ↦
      let (same, cause) = main_loop-poisoned outs verdict bad.1 (ground arith) in
      (same, elim cause [ inl m ↦ inl (Memᴰ.tail m) | inr m ↦ inr (Memᴰ.tail m) ])
]
