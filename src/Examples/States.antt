-- ===== src/Examples/States.antt =====
-- The state of a chain: src/chain/state.rs, src/chain/state/hook.rs and src/chain.rs.
use tmkms.Prelude.{
  ◌≡◌, refl, ◌↔◌, ◌⊎◌, ◌≢◌, String, none, some, List, [], ◌∷◌, Memᴰ, ok, err, panic, crash, Bool,
  true, false,
}
use tmkms.Prelude.Int.{pos, ◌≤ℤ◌}
use tmkms.Tendermint.{TendermintBlockId, sha256, ConsensusState}
use tmkms.Chain.State.{
  State, double_sign, refuse, update_consensus_state, sync_to_disk, load_state,
  update_from_hook_output,
}
use tmkms.Chain.State.Guards.{Allowed, refuse_iff_Allowed}
use tmkms.Chain.State.Update.{update_granted, update_not_granted, double_sign_iff}
use tmkms.Chain.State.History.{Event, update, restart, hook, fresh, run, step}
use tmkms.Chain.State.History.Guarded.{IsGuarded}
use tmkms.Chain.State.History.Safety.{granted-IsGuarded, granted_agree}
use tmkms.KeyRing
use tmkms.Chain.Hook.{Child, HookConfig}
use tmkms.Chain.Startup.{
  ChainConfig, from_config, without_hook, from_config_open, from_config_nameless,
  from_config_closed,
}
use tmkms.Examples.Setup.{crate, crate-HasIdEq, json, json-RoundTrips, nil_at, fair, chain_at}

-- The program starts, grants a state twice, goes down and comes up, and grants a later state.
abbrev life : List Event
life =
    restart "hub.json" fair
    ∷ update (nil_at 7) fair
    ∷ update (nil_at 7) fair
    ∷ restart "hub.json" fair
    ∷ hook 3
    ∷ update (nil_at 8) fair
    ∷ []

granted_agree_example : (nil_at 7).block_id ≡ (nil_at 7).block_id
unfolding run step update_consensus_state refuse sync_to_disk json load_state
    update_from_hook_output
granted_agree_example =
    granted_agree json crate crate-HasIdEq json-RoundTrips (some "seven") life (nil_at 7) (nil_at 7)
      (Memᴰ.tail (Memᴰ.head refl)) (Memᴰ.tail (Memᴰ.tail (Memᴰ.head refl))) (refl, refl, refl)

granted-IsGuarded_example : IsGuarded (run json crate (fresh (some "seven")) life).granted
granted-IsGuarded_example =
    granted-IsGuarded json crate crate-HasIdEq json-RoundTrips (some "seven") life

abbrev one_block : TendermintBlockId
one_block = record {
  hash = sha256 (1 ∷ []);
  part_set_header = record { total = 1; hash = sha256 (2 ∷ []) };
}

abbrev precommit_of_one : ConsensusState
precommit_of_one = record (nil_at 7) { step = pos 2; block_id = some one_block }

abbrev seven : State
seven = record { consensus_state = nil_at 7; state_file_path = "hub.json" }

refuse_iff_Allowed_example :
    (refuse crate precommit_of_one (nil_at 7) ≡ none) ↔ Allowed precommit_of_one (nil_at 7)
refuse_iff_Allowed_example = refuse_iff_Allowed crate crate-HasIdEq precommit_of_one (nil_at 7)

update_granted_example :
    Allowed (nil_at 8) (nil_at 7)
    × ((update_consensus_state json fair crate (nil_at 8) seven (some "seven")).1.consensus_state
        ≡ nil_at 8)
    × ((text : String) × (json.to_string (nil_at 8) ≡ some text)
        × ((update_consensus_state json fair crate (nil_at 8) seven (some "seven")).2 ≡ some text))
update_granted_example =
    update_granted json fair crate crate-HasIdEq (nil_at 8) seven (some "seven")
      (unfold update_consensus_state refuse sync_to_disk json in refl)

-- A write that fails
update_not_granted_example :
    let broken = record fair { written = false } in
    ((update_consensus_state json broken crate (nil_at 8) seven (some "seven")).2 ≡ some "seven")
    × (((update_consensus_state json broken crate (nil_at 8) seven (some "seven")).1 ≡ seven)
        ⊎ (Allowed (nil_at 8) (nil_at 7)
            × ((update_consensus_state json broken crate
                  (nil_at 8)
                  seven
                  (some "seven")).1.consensus_state
                ≡ nil_at 8)))
update_not_granted_example =
    update_not_granted json (record fair { written = false }) crate crate-HasIdEq (nil_at 8) seven
      (some "seven") (unfold update_consensus_state refuse sync_to_disk json in λ h. cc h)

abbrev for_one : ConsensusState
for_one = record (nil_at 7) { block_id = some one_block }

double_sign_iff_example :
    ((update_consensus_state json fair crate for_one seven (some "seven")).0 ≡ err double_sign) ↔ (
      (for_one.height ≡ seven.consensus_state.height)
      × (for_one.round ≡ seven.consensus_state.round)
      × (seven.consensus_state.step ≤ℤ for_one.step)
      × (for_one.block_id ≢ seven.consensus_state.block_id)
      × (((for_one.block_id ≢ none) × (seven.consensus_state.block_id ≢ none))
          ⊎ (for_one.step ≡ seven.consensus_state.step)))
double_sign_iff_example = double_sign_iff json fair crate crate-HasIdEq for_one seven (some "seven")

abbrev child : Child
child = record {
  spawned = true;
  waited = true;
  exited = λ secs. some true;
  printed = some 12;
  killed = true;
  reaped = true;
}

abbrev configured : List String → Bool → HookConfig
configured cmd fail_closed = record { cmd = cmd; timeout_secs = none; fail_closed = fail_closed }

abbrev with_hook : List String → Bool → ChainConfig
with_hook cmd fail_closed = record {
  id = "hub";
  state_file = some "hub.json";
  state_hook = some (configured cmd fail_closed);
}

from_config_open_example :
    from_config json fair crate child (λ id. id) (with_hook ("height" ∷ []) false) (some "seven")
    ≡ from_config json fair crate child
        (λ id. id)
        (without_hook (with_hook ("height" ∷ []) false))
        (some "seven")
from_config_open_example =
    from_config_open json fair crate child (λ id. id) (with_hook ("height" ∷ []) false)
      (configured ("height" ∷ []) false) (some "seven") refl (λ h. cc h) refl

from_config_nameless_example :
    (from_config json fair crate child (λ id. id) (with_hook [] false) (some "seven")).0
    ≡ panic crash
unfolding from_config load_state json KeyRing.new
from_config_nameless_example =
    from_config_nameless json fair crate child (λ id. id) (with_hook [] false) (configured [] false)
      (some "seven") (record (chain_at (nil_at 7)) { keyring = KeyRing.new }) refl refl refl

from_config_closed_example :
    (from_config json fair crate child (λ id. id) (with_hook ("height" ∷ []) true) (some "seven")).0
    ≢ ok (chain_at (nil_at 7))
from_config_closed_example =
    from_config_closed json fair crate child (λ id. id) (with_hook ("height" ∷ []) true)
      (configured ("height" ∷ []) true) (some "seven") (chain_at (nil_at 7)) refl refl
