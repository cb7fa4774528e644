-- ===== src/Chain/State/Saved.antt =====
-- What one update of a state (src/chain/state.rs) leaves in memory and in the state file.
use tmkms.Prelude.{
  ◌≡◌, ◌≢◌, sym, ap, ◌∙◌, subst, ◌⊎◌, inl, inr, String, some, none, List, [], ◌∷◌, All, arith,
  Outcome, ok,
}
use tmkms.Tendermint.{ConsensusState, Tendermint}
use tmkms.Chain.State.{State, StateErrorKind, Weather, Disk, Serde, update_consensus_state}
use tmkms.Chain.State.Guards.{HasIdEq, Guards, Guards-refl, Allowed-Guards}
use tmkms.Chain.State.Update.{update_granted, update_not_granted}
use tmkms.Chain.State.History.Guarded.{All-Guards}
use tmkms.Chain.State.History.Invariant.{RoundTrips}

-- The text of a state file guards what was granted, and it is there once something was granted.
pub record DiskGuards (io : Serde) (granted : List ConsensusState) (disk : Disk) : Type 0 where
  pub written :
      (json : String) (c : ConsensusState)
      → disk ≡ some json
      → io.from_str json ≡ some c
      → All (Guards c) granted
  pub kept : disk ≡ none → granted ≡ []

-- A state in memory guards what was granted, and belongs to a file.
pub record StateGuards (granted : List ConsensusState) (path : String) (s : State) : Type 0 where
  pub guards : All (Guards s.consensus_state) granted
  pub located : s.state_file_path ≡ path

module _ (io : Serde) (w : Weather) (t : Tendermint) (lawful : HasIdEq t) (trips : RoundTrips io)
    (new : ConsensusState) (s : State) (disk : Disk) where
  abbrev result : Outcome StateErrorKind (Unit {0}) × State × Disk
  result = update_consensus_state io w t new s disk

  result_path : result.1.state_file_path ≡ s.state_file_path
  unfolding update_consensus_state
  result_path = ground arith

  -- The text of a state that guards what was granted does so, too.
  printed-DiskGuards :
      (granted : List ConsensusState) (json : String) (disk' : Disk)
      → All (Guards new) granted
      → io.to_string new ≡ some json
      → disk' ≡ some json
      → DiskGuards io granted disk'
  printed-DiskGuards granted json disk' g text file = record {
    written = λ json' c on_disk read.
        let same : json ≡ json' = cc (file, on_disk) in
        let back : some new ≡ some c =
          sym (trips.reads new json text) ∙ ap io.from_str same ∙ read in
        subst (λ c'. All (Guards c') granted) (cc back) g;
    kept = λ gone. cc (file, gone);
  }

  -- After a grant, the new state is guarded with the others.
  pub granted-saved :
      (granted : List ConsensusState) (path : String)
      → result.0 ≡ ok tt
      → StateGuards granted path s
      → DiskGuards io (new ∷ granted) result.2 × StateGuards (new ∷ granted) path result.1
  granted-saved granted path h g =
      let (allowed, held, (json, text, file)) = update_granted io w t lawful new s disk h in
      let older =
        All-Guards new s.consensus_state granted (Allowed-Guards new s.consensus_state allowed)
          g.guards in
      let mine : All (Guards new) (new ∷ granted) = (Guards-refl new, older) in
      (
        printed-DiskGuards (new ∷ granted) json result.2 mine text file,
        record {
          guards = subst (λ c. All (Guards c) (new ∷ granted)) (sym held) mine;
          located = result_path ∙ g.located;
        },
      )

  -- Granted or not, what was guarded before stays guarded.
  pub kept-saved :
      (granted : List ConsensusState) (path : String)
      → (result.0 ≡ ok tt) ⊎ (result.0 ≢ ok tt)
      → DiskGuards io granted disk
      → StateGuards granted path s
      → DiskGuards io granted result.2 × StateGuards granted path result.1
  kept-saved granted path (inl h) d g =
      let (allowed, held, (json, text, file)) = update_granted io w t lawful new s disk h in
      let older =
        All-Guards new s.consensus_state granted (Allowed-Guards new s.consensus_state allowed)
          g.guards in
      (
        printed-DiskGuards granted json result.2 older text file,
        record {
          guards = subst (λ c. All (Guards c) granted) (sym held) older;
          located = result_path ∙ g.located;
        },
      )
  kept-saved granted path (inr h) d g =
      let (same, state) = update_not_granted io w t lawful new s disk h in
      (
        subst (DiskGuards io granted) (sym same) d,
        record {
          guards = elim state [
            | inl unchanged ↦
                subst (λ (r : State). All (Guards r.consensus_state) granted) (sym unchanged)
                  g.guards
            | inr (allowed, held) ↦
                subst (λ c. All (Guards c) granted) (sym held)
                  (All-Guards new s.consensus_state granted
                    (Allowed-Guards new s.consensus_state allowed) g.guards)
          ];
          located = result_path ∙ g.located;
        },
      )
