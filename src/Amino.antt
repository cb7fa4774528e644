-- ===== src/Amino.antt =====
-- src/amino_types.rs and src/amino_types/: the messages that a validator sends and gets back.
pub mod Messages
pub mod BlockId
pub mod SignedMsg
pub mod Vote
pub mod Convert
pub mod Proposal
