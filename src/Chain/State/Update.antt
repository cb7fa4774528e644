-- ===== src/Chain/State/Update.antt =====
-- What one call of `State::update_consensus_state` (src/chain/state.rs) does to memory and file.
use tmkms.Prelude.{◌≡◌, ◌≢◌, ◌↔◌, ◌⊎◌, String, none, some, arith, ◌∙◌, ok, err}
use tmkms.Prelude.Int.{◌≤ℤ◌, eq_of_parts}
use tmkms.Tendermint.{ConsensusState, Tendermint}
use tmkms.Chain.State.{
  State, Weather, Disk, Serde, double_sign, refuse, sync_to_disk, update_consensus_state,
}
use tmkms.Chain.State.Guards.{HasIdEq, Allowed, block_id_eq_iff, refuse_iff_Allowed}

module _ (io : Serde) (w : Weather) where
  -- A write that succeeds leaves the text of the state in the file; any other leaves the file.
  pub sync_to_disk-ok :
      (s : State) (disk : Disk)
      → (sync_to_disk io w s disk).0 ≡ ok tt
      → (json : String) × (io.to_string s.consensus_state ≡ some json)
        × ((sync_to_disk io w s disk).1 ≡ some json)
  unfolding sync_to_disk
  sync_to_disk-ok s disk h = ground arith

  pub sync_to_disk_failed :
      (s : State) (disk : Disk)
      → (sync_to_disk io w s disk).0 ≢ ok tt
      → (sync_to_disk io w s disk).1 ≡ disk
  unfolding sync_to_disk
  sync_to_disk_failed s disk h = ground arith

  update_granted_parts :
      (t : Tendermint) (new : ConsensusState) (s : State) (disk : Disk)
      → (update_consensus_state io w t new s disk).0 ≡ ok tt
      → let wrote = sync_to_disk io w (record s { consensus_state = new }) disk in
        (refuse t new s.consensus_state ≡ none)
        × (wrote.0 ≡ ok tt)
        × ((update_consensus_state io w t new s disk).1.consensus_state ≡ new)
        × ((update_consensus_state io w t new s disk).2 ≡ wrote.1)
  unfolding update_consensus_state
  update_granted_parts t new s disk h = ground arith

module _ (io : Serde) (w : Weather) (t : Tendermint) (lawful : HasIdEq t) where
  -- If `==` on block IDs is equality, an update that succeeds was allowed after the state in
  -- memory, and leaves the new state in memory and its JSON text in the file.
  pub update_granted :
      (new : ConsensusState) (s : State) (disk : Disk)
      → (update_consensus_state io w t new s disk).0 ≡ ok tt
      → Allowed new s.consensus_state
        × ((update_consensus_state io w t new s disk).1.consensus_state ≡ new)
        × ((json : String) × (io.to_string new ≡ some json)
            × ((update_consensus_state io w t new s disk).2 ≡ some json))
  update_granted new s disk h =
      let (free, wrote, held, same) = update_granted_parts io w t new s disk h in
      let (json, text, file) =
        sync_to_disk-ok io w (record s { consensus_state = new }) disk wrote in
      ((refuse_iff_Allowed t lawful new s.consensus_state).0 free, held, (json, text, same ∙ file))

  -- If `==` on block IDs is equality, an update that fails or panics leaves the file as it was;
  -- memory stays too, or holds a state that was allowed.
  pub update_not_granted :
      (new : ConsensusState) (s : State) (disk : Disk)
      → (update_consensus_state io w t new s disk).0 ≢ ok tt
      → ((update_consensus_state io w t new s disk).2 ≡ disk)
        × (((update_consensus_state io w t new s disk).1 ≡ s)
            ⊎ (Allowed new s.consensus_state
                × ((update_consensus_state io w t new s disk).1.consensus_state ≡ new)))
  unfolding update_consensus_state
  update_not_granted new s disk h =
      let s' : State = record s { consensus_state = new } in
      ground
        (arith, refuse_iff_Allowed t lawful new s.consensus_state, sync_to_disk_failed io w s' disk)

  -- If `==` on block IDs is equality, DoubleSign is raised exactly for a state of the same height
  -- and round, not of an earlier step, with another block ID, that names a second block ID or
  -- repeats the step.
  pub double_sign_iff :
      (new : ConsensusState) (s : State) (disk : Disk)
      → ((update_consensus_state io w t new s disk).0 ≡ err double_sign) ↔ (
          (new.height ≡ s.consensus_state.height)
          × (new.round ≡ s.consensus_state.round)
          × (s.consensus_state.step ≤ℤ new.step)
          × (new.block_id ≢ s.consensus_state.block_id)
          × (((new.block_id ≢ none) × (s.consensus_state.block_id ≢ none))
              ⊎ (new.step ≡ s.consensus_state.step)))
  unfolding update_consensus_state refuse
  double_sign_iff new s disk = (
    (λ h. ground (
      arith,
      block_id_eq_iff t lawful new.block_id s.consensus_state.block_id,
      eq_of_parts new.step s.consensus_state.step,
    )),
    (λ h. ground (arith, block_id_eq_iff t lawful new.block_id s.consensus_state.block_id)),
  )
