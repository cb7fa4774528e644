-- ===== src/Lib.antt =====
-- A model of tmkms, the key management service of Tendermint validators, and what is proved of it.
--
-- A validator asks the service for signatures over one connection. Client threads (src/client.rs) open
-- sessions (src/session.rs) over connections (src/connection/); a session reads a request (src/rpc.rs),
-- validates it (src/amino_types/), asks the state of the chain whether it may be signed
-- (src/chain/state.rs), signs it with the key of the chain (src/keyring.rs) and writes the answer.
-- Chains and their keys are in a registry (src/chain/registry.rs), which is filled when the program
-- starts (src/commands/start.rs) from files and devices (src/keyring/providers/). Apart from this a
-- transaction signer (src/tx_signer.rs) signs transactions that a service asks for, and broadcasts them.
--
-- The files, by the code that they model:
--   Tendermint       the types of the tendermint crate, and its calls as fields of a record
--   Error            src/error.rs
--   Chain/State      src/chain/state.rs and src/chain/state/error.rs: `State` is the last consensus state
--                    and the path; `refuse` is the guards of `update_consensus_state`; the state file is an
--                    optional text (`Disk`), and `Weather` says how the file system answers
--   Chain/State/Guards, Update, History: the order that the guards enforce, one update, and the life of
--                    a state through updates, disk failures, hooks and restarts
--   Chain/Hook, Chain/Startup, Chain/Registry: src/chain/state/hook.rs, src/chain.rs,
--                    src/chain/registry.rs
--   KeyRing          src/keyring.rs and src/keyring/; a signer is a function that may fail
--   Amino            src/amino_types/: messages, validation, sign bytes, the trait `TendermintRequest`
--   Rpc              src/rpc.rs and `compute_prefix` of src/amino_types.rs
--   Session          src/session.rs: `sign` over `Kms`, the registry and the state files that all sessions
--                    share; Session/Loop also models the loops of src/client.rs, and Session/Trace the
--                    requests that all sessions of a chain serve one after the other. In
--                    Session/Interleave the sessions are threads: reading and checking a request, the
--                    update under the lock, and signing are steps of their own, in any order of threads.
--                    Session/Lifetime adds restarts of the program, by `load_config` of src/chain.rs
--   KeyUtils         src/key_utils.rs: a file is its text and its permissions
--   Providers        src/config/provider.rs and src/keyring/providers/: Softsign, Ledger (Ledger/Client is
--                    client.rs, over the state of a device), Yubihsm (Yubihsm/Connector is src/yubihsm.rs)
--                    and Fortanix; Providers/Load and
--                    Chain/Load are `load_config` of src/keyring.rs and src/chain.rs
--   Connection       src/connection/tcp.rs and `Session::open` of src/session.rs
--   Client           src/client.rs, over what its sessions meet one after the other
--   Start            src/commands/start.rs: the program as a whole, with its exit codes, and in
--                    Start/Executor with the transaction signer
--   Commands         Setup is src/commands/yubihsm/setup.rs, Softsign is src/commands/softsign/, and Keys
--                    is src/commands/yubihsm/keys/, Ledger is src/commands/ledger.rs, and Init is
--                    src/commands/init.rs and src/commands/init/; an exit is an error with its code
--   TxSigner         src/tx_signer.rs and src/tx_signer/: Source is jsonrpc.rs, Broadcast is one request
--                    for a transaction, and Run is the signer as a whole, from its configuration on
--   Map              the BTreeMap that src/lib.rs names `Map`
--   Config           src/config/validator.rs and src/config/tx_signer.rs
--   Prelude          shared names, tests on numbers, signed integers and the casts between machine
--                    integers, and the monads of results and of state with results
--   Examples         concrete inputs
--
-- Machine integers: heights, rounds and sequence numbers are native numbers, and every cast of the
-- source (`as u32`, `as i64` and so on) is written with its wrap-around. Panics are a result of their
-- own; a panic under the lock of a chain poisons the lock. Loops that wait for the outside run over a
-- list of what the outside gives (the rounds of a session, the sessions of a client, the polls of a
-- height), and the end of the list means that the code still waits. The pieces of a message for the
-- Ledger are cut on fuel, its length, which Ledger/Chunks shows to be enough. No other fuel is used.
--
-- Not modelled: the codecs of prost and prost-amino, serde, file system, cryptography, the devices
-- and services that hold keys, and the tendermint crate are arguments of the definitions that call
-- them. A Ledger is taken to be in one state whenever the registry asks it for a signature (Ledger/Client
-- has the changes of its state within one call). The threads of servers, the command version, the parsing of arguments, and the
-- texts of errors and of the log are left out.
pub mod Prelude
pub mod Error
pub mod Tendermint
pub mod Config
pub mod KeyUtils
pub mod Providers
pub mod Connection
pub mod Client
pub mod Start
pub mod Commands
pub mod Map
pub mod KeyRing
pub mod Amino
pub mod Rpc
pub mod Chain
pub mod Session
pub mod TxSigner
pub mod Examples
