-- ===== src/Chain/State/History/Safety.antt =====
-- What was granted stays protected, in memory and in the state file (src/chain/state.rs).
use tmkms.Prelude.{◌≡◌, List, [], ◌∷◌, Memᴰ}
use tmkms.Tendermint.{ConsensusState, Tendermint}
use tmkms.Chain.State.{Disk, Serde}
use tmkms.Chain.State.Guards.{HasIdEq, SameStep}
use tmkms.Chain.State.History.{Event, World, step, run, fresh}
use tmkms.Chain.State.History.Guarded.{IsGuarded, IsGuarded-agree}
use tmkms.Chain.State.History.Invariant.{RoundTrips, Inv, fresh-Inv, step-Inv}

module _ (io : Serde) (t : Tendermint) (lawful : HasIdEq t) (trips : RoundTrips io) where
  run-Inv : (w : World) (es : List Event) → Inv io w → Inv io (run io t w es)
  unfolding run
  run-Inv w [] v = v
  run-Inv w (e ∷ es) v = run-Inv (step io t w e) es (step-Inv io t lawful trips w e v)

  -- However updates, disk failures, hooks and restarts follow one another from a program that was
  -- never started, each granted state is guarded by all those granted after it: they are no
  -- earlier in height, round and step, and agree with it on the block ID of the same step. It is
  -- assumed that `==` on block IDs is equality and that a state that is printed to JSON is read
  -- back from it.
  pub granted-IsGuarded :
      (disk : Disk) (es : List Event) → IsGuarded (run io t (fresh disk) es).granted
  granted-IsGuarded disk es = (run-Inv (fresh disk) es (fresh-Inv io disk)).guarded

-- No double signing: however updates, disk failures, hooks and restarts follow one another from a
-- program that was never started, two granted states of the same height, round and step have the
-- same block ID, if `==` on block IDs is equality and a state that is printed to JSON is read
-- back from it.
pub granted_agree :
    (io : Serde) (t : Tendermint)
    → HasIdEq t
    → RoundTrips io
    → (disk : Disk) (es : List Event) (a b : ConsensusState)
    → Memᴰ a (run io t (fresh disk) es).granted
    → Memᴰ b (run io t (fresh disk) es).granted
    → SameStep a b
    → a.block_id ≡ b.block_id
granted_agree io t lawful trips disk es a b =
    IsGuarded-agree (granted-IsGuarded io t lawful trips disk es)
