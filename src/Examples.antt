-- ===== src/Examples.antt =====
-- Concrete inputs for the theorems of the other modules, and the theorems at these inputs.
pub mod Setup
mod States
mod Sessions
mod Messages
pub mod Transactions
mod Runs
pub mod Interleaved
mod Lives
mod Homes
mod Lists
mod Conversions
pub mod Keys
mod Starts
mod Backups
