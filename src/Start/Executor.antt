-- ===== src/Start/Executor.antt =====
-- `run_async_executor` of src/commands/start.rs: the transaction signer as a part of the program.
use tmkms.Prelude.{
  ℕ, ◌≡◌, refl, ◌∙◌, ap, arith, Option, none, some, List, ◌∷◌, Outcome, ok, err, panic, crash, Bool,
  true, false,
}
use tmkms.Error.{ErrorKind}
use tmkms.KeyUtils.{Files, Base64, Dalek}
use tmkms.Rpc.{Wire}
use tmkms.Session.{Platform, Kms}
use tmkms.Config.TxSigner.{TxSignerConfig, block}
use tmkms.TxSigner.SequenceFile
use tmkms.TxSigner.Source.{Json}
use tmkms.TxSigner.Blocks.{next_block_after}
use tmkms.TxSigner.Broadcast.{Signer}
use tmkms.TxSigner.Run.{
  Fixed, Crates, Stop, exit, failed, new, blocks_of, first_block, Turn, Ran, run,
}
use tmkms.TxSigner.Run.Safety.{new_lem}
use tmkms.Start.{Ending, running, exited, panicked, Validator, start, spawn_all, spawned, run_app}

-- A panic of the signer is one of the main thread.
unfoldable pub ran : Ran → Ending
ran r = elim r.ended [ none ↦ running | some p ↦ panicked p ]

-- `boots`: whether abscissa_tokio can run the executor.
unfoldable pub run_async_executor :
    Bool → Outcome Stop (Fixed × Signer) → Json → List (Option ℕ) → List Turn → Ending
unfolding ran
run_async_executor false created json answers ts = exited 1
run_async_executor true (ok (fixed, s)) json answers ts = ran (run fixed json answers ts s)
run_async_executor true (err (exit code)) json answers ts = exited code
run_async_executor true (err (failed e)) json answers ts = exited 1
run_async_executor true (panic p) json answers ts = panicked p

zero_interval_run :
    (fixed : Fixed) (json : Json) (height : ℕ) (answers : List (Option ℕ)) (ts : List Turn)
    (s : Signer)
    → blocks_of fixed.poll_interval ≡ 0
    → (run fixed json (some height ∷ answers) ts s).ended ≡ some crash
unfolding run first_block next_block_after
zero_interval_run fixed json height answers ts s h = ground (arith, h)

-- If the configured block interval is 0, and the transaction signer can be made and has got a first
-- height from the node, then the whole program panics, whatever its clients do.
pub zero_interval-panics :
    (crates : Crates) (w : SequenceFile.Weather) (config : TxSignerConfig) (min_secs : ℕ)
    (disk : SequenceFile.Disk) (fixed : Fixed) (s : Signer)
    → (new crates w config disk).0 ≡ ok (fixed, s)
    → config.poll_interval ≡ block 0 min_secs
    → (env : Platform) (wire : Wire) (base64 : Base64) (dalek : Dalek) (files : Files) (kms : Kms)
      (vs : List Validator)
    → spawn_all env wire base64 dalek files kms vs ≡ none
    → (json : Json) (height : ℕ) (answers : List (Option ℕ)) (ts : List Turn)
    → start env wire base64 dalek files {E = ErrorKind}
        (ok tt)
        kms
        vs
        1
        (run_async_executor true (new crates w config disk).0 json (some height ∷ answers) ts)
      ≡ panicked crash
unfolding run_async_executor ran start spawned run_app blocks_of
zero_interval-panics crates w config min_secs disk fixed s made_ok zero env wire base64 dalek files
      kms vs spawned_all json height answers ts =
    let interval : blocks_of fixed.poll_interval ≡ 0 =
      ap blocks_of ((new_lem crates w config disk fixed s made_ok).2 ∙ zero) in
    let dead = zero_interval_run fixed json height answers ts s interval in
    rw (spawned_all, made_ok, dead) refl
