-- ===== src/Chain/State/History/Invariant.antt =====
-- Memory and state file (src/chain/state.rs) guard what was granted, through every event.
use tmkms.Prelude.{
  ℕ, ◌≡◌, ◌≢◌, refl, sym, ap, ◌∙◌, ◌⊎◌, inl, inr, subst, String, Option, none, some, List, [], ◌∷◌,
  All, arith, Outcome, ok, err, panic, Bool-cases,
}
use tmkms.Tendermint.{ConsensusState, Tendermint}
use tmkms.Error.{ErrorKind}
use tmkms.Chain.State.{
  State, StateErrorKind, Weather, Disk, Serde, load_state, write_initial_state, parsed,
  update_consensus_state, update_from_hook_output,
}
use tmkms.Chain.State.Guards.{HasIdEq, Guards, Guards-refl, Allowed, Allowed-Guards}
use tmkms.Chain.State.Update.{update_granted, update_not_granted}
use tmkms.Chain.State.History.{
  Event, update, restart, hook, World, after_update, after_load, update_in, step, fresh,
}
use tmkms.Chain.State.History.Guarded.{IsGuarded, All-Guards}

-- The documented behaviour of serde_json on `consensus::State`: what it prints it reads back.
pub record RoundTrips (io : Serde) : Type 0 where
  pub reads :
      (c : ConsensusState) (json : String) → io.to_string c ≡ some json → io.from_str json ≡ some c

pub record Inv (io : Serde) (w : World) : Type 0 where
  pub guarded : IsGuarded w.granted
  pub memory_guards : (s : State) → w.memory ≡ some s → All (Guards s.consensus_state) w.granted
  pub disk_guards :
      (json : String) (c : ConsensusState)
      → w.disk ≡ some json
      → io.from_str json ≡ some c
      → All (Guards c) w.granted
  pub file_kept : w.disk ≡ none → w.granted ≡ []

pub fresh-Inv : (io : Serde) (disk : Disk) → Inv io (fresh disk)
fresh-Inv io disk = record {
  guarded = tt;
  memory_guards = λ s h. tt;
  disk_guards = λ json c h r. tt;
  file_kept = λ h. refl;
}

some-injective {ℓ} : {A : Type ℓ} {a b : A} → some a ≡ some b → a ≡ b
some-injective h = cc

-- A state that was loaded or updated guards what it replaces.
memory_to :
    (cs : List ConsensusState) (s : State)
    → All (Guards s.consensus_state) cs
    → (s' : State) → some s ≡ some s'
    → All (Guards s'.consensus_state) cs
memory_to cs s h s' e = subst (λ r. All (Guards r.consensus_state) cs) (some-injective e) h

Allowed-or_same :
    (s s' : State) (new : ConsensusState)
    → (s' ≡ s) ⊎ (Allowed new s.consensus_state × (s'.consensus_state ≡ new))
    → (s' ≡ s) ⊎ (Guards new s.consensus_state × (s'.consensus_state ≡ new))
Allowed-or_same s s' new (inl e) = inl e
Allowed-or_same s s' new (inr (a, e)) = inr (Allowed-Guards new s.consensus_state a, e)

module _ (io : Serde) (t : Tendermint) (lawful : HasIdEq t) (trips : RoundTrips io) where
  granted-Inv :
      (w : World) (new : ConsensusState) (s s' : State) (disk' : Disk)
      → Inv io w
      → w.memory ≡ some s
      → Guards new s.consensus_state
      → s'.consensus_state ≡ new
      → (json : String) → io.to_string new ≡ some json
      → disk' ≡ some json
      → Inv io (after_update io t w new (ok tt, s', disk'))
  unfolding after_update
  granted-Inv w new s s' disk' v m g held json text file =
      let older = All-Guards new s.consensus_state w.granted g (v.memory_guards s m) in
      let mine : All (Guards new) (new ∷ w.granted) = (Guards-refl new, older) in
      record {
        guarded = (older, v.guarded);
        memory_guards =
            memory_to (new ∷ w.granted) s'
              (subst (λ c. All (Guards c) (new ∷ w.granted)) (sym held) mine);
        disk_guards = λ text' c on_disk read.
            subst (λ c'. All (Guards c') (new ∷ w.granted))
              (some-injective (
                sym (trips.reads new json text)
                ∙ ap io.from_str (some-injective (sym file ∙ on_disk))
                ∙ read))
              mine;
        file_kept = λ gone. cc (file, gone);
      }

  -- The file stays, and memory holds what it held or a state that was allowed.
  refused-Inv :
      (w : World) (new : ConsensusState) (s s' : State)
      → Inv io w
      → w.memory ≡ some s
      → (s' ≡ s) ⊎ (Guards new s.consensus_state × (s'.consensus_state ≡ new))
      → Inv io (record w { memory = some s' })
  refused-Inv w new s s' v m (inl same) = record {
    guarded = v.guarded;
    memory_guards = λ r e. v.memory_guards r (m ∙ ap some (sym same) ∙ e);
    disk_guards = v.disk_guards;
    file_kept = v.file_kept;
  }
  refused-Inv w new s s' v m (inr (g, held)) = record {
    guarded = v.guarded;
    memory_guards = memory_to w.granted s' (
        subst (λ c. All (Guards c) w.granted) (sym held)
          (All-Guards new s.consensus_state w.granted g (v.memory_guards s m)));
    disk_guards = v.disk_guards;
    file_kept = v.file_kept;
  }

  down-Inv : (w : World) → Inv io w → Inv io (record w { memory = none })
  down-Inv w v = record {
    guarded = v.guarded;
    memory_guards = λ s e. cc e;
    disk_guards = v.disk_guards;
    file_kept = v.file_kept;
  }

  update-Inv :
      (w : World) (new : ConsensusState) (s : State)
      → Inv io w
      → w.memory ≡ some s
      → (out : Outcome StateErrorKind (Unit {0})) (s' : State) (disk' : Disk)
      → (out ≡ ok tt
          → Allowed new s.consensus_state
            × (s'.consensus_state ≡ new)
            × ((json : String) × (io.to_string new ≡ some json) × (disk' ≡ some json)))
      → (out ≢ ok tt
          → (disk' ≡ w.disk)
            × ((s' ≡ s) ⊎ (Allowed new s.consensus_state × (s'.consensus_state ≡ new))))
      → Inv io (after_update io t w new (out, s', disk'))
  unfolding after_update
  update-Inv w new s v m (ok tt) s' disk' granted failed =
      let (a, held, (json, text, file)) = granted refl in
      granted-Inv w new s s' disk' v m (Allowed-Guards new s.consensus_state a) held json text file
  update-Inv w new s v m (err e) s' disk' granted failed =
      let (same, kept) = failed (λ h. cc h) in
      subst (λ d. Inv io (record w { disk = d; memory = some s' })) (sym same)
        (refused-Inv w new s s' v m (Allowed-or_same s s' new kept))
  update-Inv w new s v m (panic p) s' disk' granted failed =
      let (same, _) = failed (λ h. cc h) in
      subst (λ d. Inv io (record w { disk = d; memory = none })) (sym same) (down-Inv w v)

  -- Where nothing was granted there is nothing to protect.
  empty-Inv : (w : World) → w.granted ≡ [] → Inv io w
  empty-Inv w none_granted = record {
    guarded = subst IsGuarded (sym none_granted) tt;
    memory_guards = λ s e. subst (All (Guards s.consensus_state)) (sym none_granted) tt;
    disk_guards = λ json c h r. subst (All (Guards c)) (sym none_granted) tt;
    file_kept = λ _. none_granted;
  }

  granted-after_load :
      (w : World) (out : Outcome ErrorKind State) (disk : Disk)
      → (after_load io t w (out, disk)).granted ≡ w.granted
  unfolding after_load
  granted-after_load w (ok s) disk = refl
  granted-after_load w (err e) disk = refl
  granted-after_load w (panic p) disk = refl

  parsed-Inv :
      (w : World) (path json : String) (r : Option ConsensusState)
      → Inv io w
      → w.disk ≡ some json
      → io.from_str json ≡ r
      → Inv io (after_load io t w (parsed path r, some json))
  unfolding after_load parsed
  parsed-Inv w path json none v file read =
      subst (λ d. Inv io (record w { disk = d; memory = none })) file (down-Inv w v)
  parsed-Inv w path json (some c) v file read = record {
    guarded = v.guarded;
    memory_guards =
        memory_to w.granted (record { consensus_state = c; state_file_path = path })
          (v.disk_guards json c file read);
    disk_guards = λ j c' e r. v.disk_guards j c' (file ∙ e) r;
    file_kept = λ gone. cc gone;
  }

  restart-Inv :
      (w : World) (path : String) (weather : Weather) (disk : Disk)
      → Inv io w
      → w.disk ≡ disk
      → Inv io (after_load io t w (load_state io weather t path disk))
  unfolding load_state
  restart-Inv w path weather none v file =
      let (out, disk') = write_initial_state io weather t path none in
      empty-Inv (after_load io t w (out, disk')) (granted-after_load w out disk' ∙ v.file_kept file)
  restart-Inv w path weather (some json) v file = elim (Bool-cases weather.readable) [
    | inl readable ↦ simp readable (parsed-Inv w path json (io.from_str json) v file refl)
    | inr unreadable ↦ simp unreadable (
        unfold after_load in
        subst (λ d. Inv io (record w { disk = d; memory = none })) file (down-Inv w v))
  ]

pub hook-Guards :
    (t : Tendermint) (height : ℕ) (s : State)
    → ((update_from_hook_output t height s).1 ≡ s)
      ⊎ Guards (update_from_hook_output t height s).1.consensus_state s.consensus_state
unfolding update_from_hook_output
hook-Guards t height s = ground arith

module _ (io : Serde) (t : Tendermint) (lawful : HasIdEq t) (trips : RoundTrips io) where
  hook-Inv :
      (w : World) (height : ℕ) (m : Option State)
      → Inv io w
      → w.memory ≡ m
      → Inv io (step io t (record w { memory = m }) (hook height))
  unfolding step
  hook-Inv w height none v same = down-Inv io t lawful trips w v
  hook-Inv w height (some s) v same =
      let s' = (update_from_hook_output t height s).1 in
      elim (hook-Guards t height s) [
        | inl unchanged ↦
            refused-Inv io t lawful trips w s'.consensus_state s s' v same (inl unchanged)
        | inr g ↦ refused-Inv io t lawful trips w s'.consensus_state s s' v same (inr (g, refl))
      ]

  pub step-Inv : (w : World) (e : Event) → Inv io w → Inv io (step io t w e)
  unfolding step update_in
  step-Inv w (update new weather) v = update_in-Inv w.memory refl
    where
      update_in-Inv : (m : Option State) → w.memory ≡ m → Inv io (update_in io t w new weather m)
      update_in-Inv none same = v
      update_in-Inv (some s) same =
          let (out, s', disk') = update_consensus_state io weather t new s w.disk in
          update-Inv io t lawful trips w new s v same out s' disk'
            (update_granted io weather t lawful new s w.disk)
            (update_not_granted io weather t lawful new s w.disk)
  step-Inv w (restart path weather) v = restart-Inv io t lawful trips w path weather w.disk v refl
  step-Inv w (hook height) v = hook-Inv w height w.memory v refl
