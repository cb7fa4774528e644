-- ===== src/Start/Laws.antt =====
-- How the program ends (src/commands/start.rs).
use tmkms.Prelude.{
  ℕ, ◌≡◌, refl, sym, subst, true, false, Option, none, some, List, [], ◌∷◌, map, arith, Outcome, ok,
  err, panic,
}
use tmkms.KeyUtils.{Files, Base64, Dalek}
use tmkms.Rpc.{Wire}
use tmkms.Session.{Platform, Kms}
use tmkms.Session.Loop.{Verdict, finished, failed, reconnecting}
use tmkms.Client.{register_chain}
use tmkms.Client.Ends.{client_loop-failed}
use tmkms.Start.{
  Ending, running, exited, panicked, join_all, blocking_wait, run_app, Validator, verdict_of,
  spawn_all, spawned, start,
}

abbrev pub ExitsWith : ℕ → Ending → Type 0
ExitsWith code (exited n) = n ≡ code
ExitsWith code running = Unit
ExitsWith code (panicked p) = Unit

-- Once a client has failed, the program can only exit with the code 1.
join_all-ExitsWith : (clients : List (Option Verdict)) → ExitsWith 1 (join_all false clients)
unfolding join_all
join_all-ExitsWith [] = refl
join_all-ExitsWith (none ∷ clients) = tt
join_all-ExitsWith (some reconnecting ∷ clients) = tt
join_all-ExitsWith (some finished ∷ clients) = join_all-ExitsWith clients
join_all-ExitsWith (some (failed e) ∷ clients) = join_all-ExitsWith clients

module _ (env : Platform) (wire : Wire) (base64 : Base64) (dalek : Dalek) (files : Files) where
  join_all-verdict :
      (v : Validator) (clients : List (Option Verdict)) (verdict : Option Verdict)
      → verdict_of env wire base64 dalek files v ≡ verdict
      → ExitsWith 1 (join_all true (verdict ∷ clients))
  unfolding join_all
  join_all-verdict v clients none e = tt
  join_all-verdict v clients (some verdict) e =
      let (e', is_failed, _) =
        client_loop-failed env wire base64 dalek files v.config v.attempts v.kms verdict e in
      subst (λ (w : Verdict). ExitsWith 1 (join_all true (some w ∷ clients))) (sym is_failed)
        (join_all-ExitsWith clients)

  spawn_all-code :
      (kms : Kms) (vs : List Validator) (code : ℕ)
      → spawn_all env wire base64 dalek files kms vs ≡ some code
      → code ≡ 1
  unfolding spawn_all register_chain
  spawn_all-code kms [] code h = cc h
  spawn_all-code kms (v ∷ vs) code h = ground (arith, spawn_all-code kms vs code)

  spawned-ExitsWith :
      (v : Validator) (vs : List Validator) (executor : Ending) (stopped : Option ℕ)
      → ((code : ℕ) → stopped ≡ some code → code ≡ 1)
      → ExitsWith 1
          (spawned stopped 0 executor (map (verdict_of env wire base64 dalek files) (v ∷ vs)))
  unfolding spawned run_app blocking_wait
  spawned-ExitsWith v vs executor (some code) one = one code refl
  spawned-ExitsWith v vs executor none one =
      join_all-verdict v (map (verdict_of env wire base64 dalek files) vs)
        (verdict_of env wire base64 dalek files v) refl

  -- A program that serves at least one validator, and no transaction signer, never exits with success,
  -- whatever its clients meet: if it exits, the code is 1.
  pub start-ExitsWith :
      {E : Type 0} (loaded : Outcome E (Unit {0})) (kms : Kms) (v : Validator) (vs : List Validator)
      (executor : Ending)
      → ExitsWith 1 (start env wire base64 dalek files loaded kms (v ∷ vs) 0 executor)
  unfolding start
  start-ExitsWith (err e) kms v vs executor = refl
  start-ExitsWith (panic p) kms v vs executor = tt
  start-ExitsWith (ok _) kms v vs executor =
      spawned-ExitsWith v vs executor (spawn_all env wire base64 dalek files kms (v ∷ vs))
        (spawn_all-code kms (v ∷ vs))
