-- ===== src/TxSigner/Run.antt =====
-- src/tx_signer.rs: how the signer is made, and its loop over the blocks of the chain.
pub mod Safety
pub mod Pace
use tmkms.Prelude.{
  ℕ, String, Bool, not, if◌then◌else◌, Option, none, some, List, [], ◌∷◌, Outcome, ok, err, panic,
  Panic, crash,
}
use tmkms.Error.{ErrorKind, tendermint_error}
use tmkms.Tendermint.{Bytes}
use tmkms.KeyRing.{KeyRing}
use tmkms.KeyRing.Keys.{PublicKey}
use tmkms.Config.Validator.{Address}
use tmkms.Config.TxSigner.{TxSignerConfig, PollInterval, block, TxSource, json_rpc}
use tmkms.TxSigner.SequenceFile
use tmkms.TxSigner.SequenceFile.{SequenceFile, Serde, Disk}
use tmkms.TxSigner.LastTx.{no_tx}
use tmkms.TxSigner.SignMsg.{Builder, TxSigningRequest}
use tmkms.TxSigner.Blocks.{next_block_after, wait_until_block_height}
use tmkms.TxSigner.Source
use tmkms.TxSigner.Source.{Json, Service, last_response}
use tmkms.TxSigner.Broadcast.{Setup, Signer, Attempt, request_and_sign_tx}

-- The fields of `TxSigner` that never change, apart from its `Setup`.
pub record Fixed : Type 0 where
  pub setup : Setup
  pub context : String
  pub poll_interval : PollInterval
  pub source : TxSource

-- The crates that `new` calls: stdtx for the schema and the builder, tendermint-rpc for the client,
-- and serde_json; with the keyring of the chain, and the account as `Setup` has it.
pub record Crates : Type 0 where
  pub load_schema : String → Option String
  pub builder : String → String → ℕ → Builder
  pub rpc_client : Address → Bool
  pub io : Serde
  pub keyring : String → Option KeyRing
  pub wanted : Bytes → Bytes → Bool
  pub account_id : PublicKey → Bytes

-- `new` ends the program, or fails.
pub data Stop : Type 0 where
  exit : ℕ → Stop
  failed : ErrorKind → Stop

unfoldable pub blocks_of : PollInterval → ℕ
blocks_of (block blocks min_secs) = blocks

unfoldable pub min_secs_of : PollInterval → ℕ
min_secs_of (block blocks min_secs) = min_secs

module _ (crates : Crates) (w : SequenceFile.Weather) (config : TxSignerConfig) where
  made : String → SequenceFile → Disk → Fixed × Signer
  made schema seq_file disk = (
    record {
      setup = record {
        chain_id = config.chain_id;
        acl = config.acl.msg_type;
        builder = crates.builder schema config.chain_id config.account_number;
        io = crates.io;
        keyring = crates.keyring config.chain_id;
        wanted = crates.wanted config.account_address;
        account_id = crates.account_id;
      };
      context = config.context;
      poll_interval = config.poll_interval;
      source = config.source;
    },
    record { seq_file = seq_file; disk = disk; last_tx = no_tx; sent = [] },
  )

  opened : String → Outcome ErrorKind SequenceFile × Disk → Outcome Stop (Fixed × Signer) × Disk
  unfolding made
  opened schema (ok f, disk) = (ok (made schema f disk), disk)
  opened schema (err e, disk) = (err (failed e), disk)
  opened schema (panic p, disk) = (panic p, disk)

  -- The sequence file is opened last, and created only where the rest went well.
  unfoldable pub new : Disk → Outcome Stop (Fixed × Signer) × Disk
  unfolding opened
  new disk = elim (crates.load_schema config.schema) [
    | none ↦ (err (exit 1), disk)
    | some schema ↦
        if crates.rpc_client config.rpc.addr
        then opened schema (SequenceFile.open_file crates.io w config.seq_file disk)
        else (err (failed tendermint_error), disk)
  ]

-- The initial height, over the answers of the node to calls of its status (`none` for an error,
-- which leads to the next call). `none` as the result: the answers ran out.
unfoldable pub first_block : ℕ → List (Option ℕ) → Option (Outcome ErrorKind ℕ)
first_block interval [] = none
first_block interval (none ∷ answers) = first_block interval answers
first_block interval (some height ∷ answers) = some (next_block_after interval height)

-- What the outside does during one turn of the loop: the heights that the node reports while the
-- signer waits, and what the service and the node then answer.
pub record Turn : Type 0 where
  pub deadline : ℕ → Bool  -- whether so many seconds from now is an instant of the clock
  pub polls : List (Option ℕ)
  pub service : Service
  pub first : Attempt
  pub second : Attempt
  pub third : Attempt

-- How a turn ends: the polls ran out, the height could not be had, the service was asked at a height
-- (with the next block to wait for), or the code panicked.
pub data Turned : Type 0 where
  still_waiting : Turned
  no_height : Turned
  asked : ℕ → ℕ → Signer → Turned
  died : Panic → Signer → Turned

-- The loop over some turns: the heights at which the service was asked, the first one first, the
-- panic that ended the loop, if any, and the signer.
pub record Ran : Type 0 where
  pub heights : List ℕ
  pub ended : Option Panic
  pub signer : Signer

module _ (fixed : Fixed) (json : Json) where
  params : ℕ → Signer → Source.Request
  params status s = record {
    network = fixed.setup.chain_id;
    context = fixed.context;
    status = status;
    last_tx_response = last_response s.last_tx;
  }

  -- `request_and_sign_tx` with the status of the node
  unfoldable pub request_at : ℕ → Turn → Signer → Outcome ErrorKind (Unit {0}) × Signer
  unfolding params
  request_at status t s =
      request_and_sign_tx fixed.setup (Source.request json t.service (params status s)) t.first
        t.second t.third s

  -- An error is only logged.
  after_request : ℕ → ℕ → Outcome ErrorKind (Unit {0}) × Signer → Turned
  after_request height next (ok _, s) = asked height next s
  after_request height next (err e, s) = asked height next s
  after_request height next (panic p, s) = died p s

  at_height : ℕ → Outcome ErrorKind ℕ → Turn → Signer → Turned
  unfolding after_request
  at_height height (ok next) t s = after_request height next (request_at height t s)
  at_height height (err e) t s = no_height
  at_height height (panic p) t s = died p s

  waited : Option (Outcome ErrorKind ℕ) → Turn → Signer → Turned
  unfolding at_height
  waited none t s = still_waiting
  waited (some (ok height)) t s =
      at_height height (next_block_after (blocks_of fixed.poll_interval) height) t s
  waited (some (err e)) t s = no_height
  waited (some (panic p)) t s = died p s

  -- The next block is known before the service is asked.
  unfoldable pub turn : ℕ → Turn → Signer → Turned
  unfolding waited
  turn next t s =
      waited
        (wait_until_block_height (t.deadline (min_secs_of fixed.poll_interval))
          (blocks_of fixed.poll_interval) next t.polls)
        t s

  unfoldable pub loop : ℕ → List Turn → Signer → Ran
  loop next [] s = record { heights = []; ended = none; signer = s }
  loop next (t ∷ ts) s = elim (turn next t s) [
    | still_waiting ↦ record { heights = []; ended = none; signer = s }
    | no_height ↦ loop next ts s
    | asked height next' s' ↦
        let rest = loop next' ts s' in record rest { heights = height ∷ rest.heights }
    | died p s' ↦ record { heights = []; ended = some p; signer = s' }
  ]

  -- `run`; it never returns.
  unfoldable pub run : List (Option ℕ) → List Turn → Signer → Ran
  run answers ts s = elim (first_block (blocks_of fixed.poll_interval) answers) [
    | none ↦ record { heights = []; ended = none; signer = s }
    | some (ok next) ↦ loop next ts s
    | some (err e) ↦ record { heights = []; ended = none; signer = s }
    | some (panic p) ↦ record { heights = []; ended = some p; signer = s }
  ]
