-- ===== src/Examples/Runs.antt =====
-- The transaction signer while it runs: src/tx_signer.rs and src/commands/start.rs.
use tmkms.Prelude.{
  ℕ, ◌≡◌, refl, ◌+◌, ◌*◌, ◌≤◌, true, none, some, List, [], ◌∷◌, ok, arith, length, crash,
}
use tmkms.Error.{ErrorKind}
use tmkms.Config.Validator.{unix}
use tmkms.Config.TxSigner.{TxSignerConfig, block, json_rpc}
use tmkms.TxSigner.SequenceFile.{open_file}
use tmkms.TxSigner.Source.{Json, Service, status_ok}
use tmkms.TxSigner.Broadcast.Safety.{SendsAuthorized}
use tmkms.TxSigner.Run.{Crates, Fixed, Turn, new, run, blocks_of}
use tmkms.TxSigner.Run.Safety.{run-InWindow, new_runs-SendsAuthorized}
use tmkms.TxSigner.Run.Pace.{IsPaced, IsRising, reported, run-IsPaced}
use tmkms.Start.{start, spawn_all, panicked}
use tmkms.Start.Executor.{run_async_executor, zero_interval-panics}
use tmkms.Examples.Setup.{env, deaf, kms_at, nil_at, base64, dalek, key_files}
use tmkms.Examples.Transactions.{io, fair, setup, at_start, req, silent, rejected, accepted}

abbrev crates : Crates
crates = record {
  load_schema = λ path. some "schema";
  builder = λ schema id account. setup.builder;
  rpc_client = λ addr. true;
  io = io;
  keyring = λ id. setup.keyring;
  wanted = λ account id. true;
  account_id = λ pk. [];
}

abbrev every : ℕ → TxSignerConfig
every blocks = record {
  chain_id = "hub";
  schema = "schema.toml";
  account_number = 1;
  account_address = [];
  context = "";
  acl = record { msg_type = "oracle/vote" ∷ [] };
  poll_interval = block blocks 5;
  source = json_rpc "https://oracle";
  rpc = record { addr = unix "rpc.sock" };
  seq_file = "seq.json";
}

abbrev fixed_at : ℕ → Fixed
fixed_at blocks = record {
  setup = setup;
  context = "";
  poll_interval = block blocks 5;
  source = json_rpc "https://oracle";
}

abbrev json : Json
json = record {
  to_string = λ r. some "request";
  from_slice = λ body. some (record { status = status_ok; msg = none; tx = some req });
}

abbrev service : Service
service = record { builds = true; post = λ text. some [] }

-- Two turns: the node stands at 17 and 21, then it fails, then it stands at 30.
abbrev turns : List Turn
turns =
    record {
      deadline = λ secs. true;
      polls = some 17 ∷ some 21 ∷ [];
      service = service;
      first = silent;
      second = rejected;
      third = accepted;
    }
    ∷ record {
      deadline = λ secs. true;
      polls = none ∷ [];
      service = service;
      first = silent;
      second = rejected;
      third = accepted;
    }
    ∷ record {
      deadline = λ secs. true;
      polls = some 30 ∷ [];
      service = service;
      first = accepted;
      second = rejected;
      third = accepted;
    }
    ∷ []

made_every :
    (blocks : ℕ) → (new crates fair (every blocks) (some "")).0 ≡ ok (fixed_at blocks, at_start)
unfolding new open_file
made_every blocks = refl

run-InWindow_example :
    (0 ≤ (run (fixed_at 10) json (some 12 ∷ []) turns at_start).signer.seq_file.sequence)
    × ((run (fixed_at 10) json (some 12 ∷ []) turns at_start).signer.seq_file.sequence
        ≤ 0 + 3 * length turns)
run-InWindow_example = run-InWindow (fixed_at 10) json (some 12 ∷ []) turns at_start

new_runs-SendsAuthorized_example :
    (setup.acl ≡ (every 10).acl.msg_type)
    × SendsAuthorized setup (run (fixed_at 10) json (some 12 ∷ []) turns at_start).signer
new_runs-SendsAuthorized_example =
    new_runs-SendsAuthorized crates fair (every 10) (some "") (fixed_at 10) at_start (made_every 10)
      json (some 12 ∷ []) turns

rising : IsRising 0 (some 12 ∷ reported turns)
unfolding reported
rising = (omega arith, (omega arith, (omega arith, (omega arith, tt))))

run-IsPaced_example : IsPaced 10 (run (fixed_at 10) json (some 12 ∷ []) turns at_start).heights
unfolding blocks_of
run-IsPaced_example = run-IsPaced (fixed_at 10) json (some 12 ∷ []) turns at_start rising

zero_interval-panics_example :
    start env deaf base64 dalek key_files {E = ErrorKind}
      (ok tt)
      (kms_at (nil_at 7))
      []
      1
      (run_async_executor true (new crates fair (every 0) (some "")).0 json (some 12 ∷ []) turns)
    ≡ panicked crash
unfolding spawn_all
zero_interval-panics_example =
    zero_interval-panics crates fair (every 0) 5 (some "") (fixed_at 0) at_start (made_every 0) refl
      env deaf base64 dalek key_files (kms_at (nil_at 7)) [] refl json 12 [] turns
