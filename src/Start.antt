-- ===== src/Start.antt =====
-- src/commands/start.rs: the command that starts the program and waits for its clients.
pub mod Laws
pub mod Executor
use tmkms.Prelude.{
  ℕ, zero, suc, String, Bool, true, false, Option, none, some, List, [], ◌∷◌, length, map,
  if◌then◌else◌, Outcome, ok, err, panic, Panic, crash,
}
use tmkms.KeyUtils.{Files, Base64, Dalek}
use tmkms.Config.Validator.{ValidatorConfig}
use tmkms.Rpc.{Wire}
use tmkms.Session.{Platform, Kms}
use tmkms.Session.Loop.{Verdict, finished, failed, reconnecting}
use tmkms.Client.{Attempt, client_loop, register_chain}

-- How the program stands: it runs, it has exited with a code, or its main thread has panicked.
pub data Ending : Type 0 where
  running : Ending
  exited : ℕ → Ending
  panicked : Panic → Ending

-- `blocking_wait`: the clients are joined in turn, where `none` stands for a client that still runs.
-- `success` is the variable of this name.
unfoldable pub join_all : Bool → List (Option Verdict) → Ending
join_all success [] = exited (if success then 0 else 1)
join_all success (none ∷ clients) = running
join_all success (some reconnecting ∷ clients) = running
join_all success (some finished ∷ clients) = join_all success clients
join_all success (some (failed e) ∷ clients) = join_all false clients

unfoldable pub blocking_wait : List (Option Verdict) → Ending
unfolding join_all
blocking_wait clients = join_all true clients

-- `run_app`, for as many transaction signers as are configured. `executor` is how the transaction signer
-- ends; the clients are then not waited for.
unfoldable pub run_app : ℕ → Ending → List (Option Verdict) → Ending
unfolding blocking_wait
run_app zero executor clients = blocking_wait clients
run_app (suc zero) executor clients = executor
run_app (suc (suc _)) executor clients = panicked crash

-- The clients are spawned, or an unregistered chain has ended the program.
unfoldable pub spawned : Option ℕ → ℕ → Ending → List (Option Verdict) → Ending
unfolding run_app
spawned (some code) signers executor clients = exited code
spawned none signers executor clients = run_app signers executor clients

-- A configured validator, with what its client meets.
pub record Validator : Type 0 where
  pub config : ValidatorConfig
  pub attempts : List Attempt
  pub kms : Kms

module _ (env : Platform) (wire : Wire) (base64 : Base64) (dalek : Dalek) (files : Files) where
  abbrev pub verdict_of : Validator → Option Verdict
  verdict_of v = (client_loop env wire base64 dalek files v.config v.attempts v.kms).1

  -- `Client::spawn` of every validator: the first unregistered chain ends the program.
  unfoldable pub spawn_all : Kms → List Validator → Option ℕ
  unfolding register_chain
  spawn_all kms [] = none
  spawn_all kms (v ∷ vs) =
      let rest = spawn_all kms vs in
      elim (register_chain env wire base64 dalek files v.config.chain_id kms) [
        | some code ↦ some code
        | none ↦ rest
      ]

  -- `run`, where `loaded` is the result of `chain::load_config`, which leaves `kms`.
  unfoldable pub start :
      {E : Type 0} → Outcome E (Unit {0}) → Kms → List Validator → ℕ → Ending → Ending
  unfolding spawn_all spawned
  start (err e) kms vs signers executor = exited 1
  start (panic p) kms vs signers executor = panicked p
  start (ok _) kms vs signers executor =
      spawned (spawn_all kms vs) signers executor (map verdict_of vs)
