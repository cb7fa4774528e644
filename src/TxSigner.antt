-- ===== src/TxSigner.antt =====
-- src/tx_signer.rs: transactions are requested from a service, checked against the access control
-- list, signed, and broadcast; the sequence number is kept in a file.
pub mod SequenceFile
pub mod LastTx
pub mod SignMsg
pub mod Blocks
pub mod Broadcast
pub mod Source
pub mod Run
