-- ===== src/Chain/State/History.antt =====
-- The life of one chain's state (src/chain/state.rs) over many updates, failures of the disk, hooks
-- and restarts. The proofs are in the module below.
pub mod Guarded
pub mod Invariant
pub mod Safety
use tmkms.Prelude.{ℕ, String, Option, none, some, List, [], ◌∷◌, Outcome, ok, err, panic}
use tmkms.Tendermint.{ConsensusState, Tendermint}
use tmkms.Error.{ErrorKind}
use tmkms.Chain.State.{
  State, StateErrorKind, Weather, Disk, Serde, load_state, update_consensus_state,
  update_from_hook_output,
}

-- What can happen to the state of a chain.
pub data Event : Type 0 where
  update : ConsensusState → Weather → Event  -- a signing request asks for this state
  restart : String → Weather → Event  -- the program starts and loads the file
  hook : ℕ → Event  -- the output of the hook command is applied

-- `memory` is `none` while the program is down, or its lock is poisoned. `granted` holds the states
-- that were allowed to be signed, the last one first.
pub record World : Type 0 where
  pub disk : Disk
  pub memory : Option State
  pub granted : List ConsensusState

module _ (io : Serde) (t : Tendermint) where
  after_update : World → ConsensusState → Outcome StateErrorKind (Unit {0}) × State × Disk → World
  after_update w new (ok _, s, disk) = record {
    disk = disk;
    memory = some s;
    granted = new ∷ w.granted;
  }
  after_update w new (err e, s, disk) = record { disk = disk; memory = some s; granted = w.granted }
  after_update w new (panic p, s, disk) = record { disk = disk; memory = none; granted = w.granted }

  after_load : World → Outcome ErrorKind State × Disk → World
  after_load w (ok s, disk) = record { disk = disk; memory = some s; granted = w.granted }
  after_load w (err e, disk) = record { disk = disk; memory = none; granted = w.granted }
  after_load w (panic p, disk) = record { disk = disk; memory = none; granted = w.granted }

  update_in : World → ConsensusState → Weather → Option State → World
  update_in w new weather none = w
  update_in w new weather (some s) =
      after_update w new (update_consensus_state io weather t new s w.disk)

  unfoldable pub step : World → Event → World
  unfolding update_in after_update after_load
  step w (update new weather) = update_in w new weather w.memory
  step w (restart path weather) = after_load w (load_state io weather t path w.disk)
  step w (hook height) = record w {
    memory = elim w.memory [ none ↦ none | some s ↦ some (update_from_hook_output t height s).1 ];
  }

  unfoldable pub run : World → List Event → World
  run w [] = w
  run w (e ∷ es) = run (step w e) es

-- A program that was never started, over whatever file there is.
abbrev pub fresh : Disk → World
fresh disk = record { disk = disk; memory = none; granted = [] }
