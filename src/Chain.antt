-- ===== src/Chain.antt =====
-- src/chain.rs: a chain with its keyring and its state behind a lock, and how it is built from the
-- configuration.
pub mod State
pub mod Hook
pub mod Registry
pub mod Startup
pub mod Load
use tmkms.Prelude.{String, Bool, true, false}
use tmkms.KeyRing.{KeyRing}

-- `poisoned` is the flag of the mutex around the state: a thread panicked while it held the lock.
pub record Chain : Type 0 where
  pub id : String
  pub keyring : KeyRing
  pub state : State.State
  pub poisoned : Bool
