-- ===== src/Commands.antt =====
-- src/commands/: the commands of the program, apart from `start`, which is Start.
pub mod Text
pub mod Setup
pub mod Softsign
pub mod Keys
pub mod Init
pub mod Ledger
