-- ===== src/Chain/State.antt =====
-- src/chain/state.rs and src/chain/state/error.rs: the last signed height, round and step of a chain,
-- held in memory and in a state file. The proofs are in the modules below.
pub mod Guards
pub mod Update
pub mod History
pub mod Saved
use tmkms.Prelude.{
  ℕ, ◌-◌, String, ◌≡◌, Bool, true, false, not, ◌&&◌, ◌||◌, Option, none, some, ltb, ◌==◌, is_some,
  if◌then◌else◌, Outcome, ok, err, panic, crash, map_err,
}
use tmkms.Prelude.Int.{ℤ, pos, ltb_ℤ, eq_ℤ}
use tmkms.Error.{ErrorKind, IoError, io_failed, parse_error, from_io}
use tmkms.Tendermint.{TendermintBlockId, ConsensusState, Tendermint}

pub data StateErrorKind : Type 0 where
  height_regression step_regression round_regression double_sign sync_error : StateErrorKind

pub record State : Type 0 where
  pub consensus_state : ConsensusState
  pub state_file_path : String

-- What the file system does to one call: the checks are made in this order.
pub record Weather : Type 0 where
  pub has_parent : Bool  -- the path of the state file has a parent
  pub readable : Bool  -- an existing file can be read
  pub created : Bool  -- the temporary file can be created
  pub written : Bool  -- it can be written
  pub persisted : Bool  -- it can be moved over the state file

-- The text of the state file, if the file is there. A temporary file replaces it whole.
abbrev pub Disk : Type 0
Disk = Option String

-- serde_json on `consensus::State`
pub record Serde : Type 0 where
  pub to_string : ConsensusState → Option String
  pub from_str : String → Option ConsensusState

module _ (t : Tendermint) where
  -- `==` of `Option<block::Id>`
  abbrev pub block_id_eq : Option TendermintBlockId → Option TendermintBlockId → Bool
  block_id_eq none none = true
  block_id_eq (some a) (some b) = t.id_eq a b
  block_id_eq _ _ = false

  -- The guards of `update_consensus_state`: the error that it fails with, if any.
  unfoldable pub refuse : ConsensusState → ConsensusState → Option StateErrorKind
  refuse new last =
      if ltb new.height last.height
      then some height_regression
      else if new.height == last.height
      then (if ltb new.round last.round
          then some round_regression
          else if new.round == last.round
          then (if ltb_ℤ new.step last.step
              then some step_regression
              else if not (block_id_eq new.block_id last.block_id)
                  && (is_some new.block_id && is_some last.block_id || eq_ℤ new.step last.step)
              then some double_sign
              else none)
          else none)
      else none

parsed : String → Option ConsensusState → Outcome ErrorKind State
parsed path none = err parse_error
parsed path (some c) = ok (record { consensus_state = c; state_file_path = path })

module _ (io : Serde) (w : Weather) where
  -- The file changes only if the last step succeeds.
  unfoldable pub sync_to_disk : State → Disk → Outcome IoError (Unit {0}) × Disk
  sync_to_disk s disk = elim (io.to_string s.consensus_state) [
    | none ↦ (err io_failed, disk)
    | some json ↦
        if not w.has_parent
        then (panic crash, disk)
        else if w.created && w.written && w.persisted
        then (ok tt, some json)
        else (err io_failed, disk)
  ]

  finish_initial : State → Outcome IoError (Unit {0}) × Disk → Outcome ErrorKind State × Disk
  unfolding from_io
  finish_initial s (ok _, disk) = (ok s, disk)
  finish_initial s (err e, disk) = (err (from_io e), disk)
  finish_initial s (panic p, disk) = (panic p, disk)

  unfoldable pub write_initial_state : Tendermint → String → Disk → Outcome ErrorKind State × Disk
  unfolding sync_to_disk finish_initial
  write_initial_state t path disk =
      let default = t.default_state in
      let s : State = record {
        consensus_state = record default { height = 0 };
        state_file_path = path;
      } in
      finish_initial s (sync_to_disk s disk)

  unfoldable pub load_state : Tendermint → String → Disk → Outcome ErrorKind State × Disk
  unfolding write_initial_state parsed from_io
  load_state t path none = write_initial_state t path none
  load_state t path (some json) =
      if w.readable
      then (parsed path (io.from_str json), some json)
      else (err (from_io io_failed), some json)

  to_state_error : Outcome IoError (Unit {0}) → Outcome StateErrorKind (Unit {0})
  to_state_error = map_err (λ _. sync_error)

  -- The new state is held in memory before it is written.
  unfoldable pub update_consensus_state :
      Tendermint → ConsensusState → State → Disk → Outcome StateErrorKind (Unit {0}) × State × Disk
  unfolding to_state_error
  update_consensus_state t new s disk = elim (refuse t new s.consensus_state) [
    | some e ↦ (err e, s, disk)
    | none ↦
        let s' = record s { consensus_state = new } in
        let (r, disk') = sync_to_disk s' disk in (to_state_error r, s', disk')
  ]

abbrev pub block_height_sanity_limit : ℕ
block_height_sanity_limit = 9000

-- Only memory changes: the new height is not written to the file.
unfoldable pub update_from_hook_output :
    Tendermint → ℕ → State → Outcome StateErrorKind (Unit {0}) × State
update_from_hook_output t hook_height s =
    let last_height = s.consensus_state.height in
    let default = t.default_state in
    if ltb last_height hook_height
    then (let delta = hook_height - last_height in
        if ltb delta block_height_sanity_limit
        then (ok tt, record s { consensus_state = record default { height = hook_height } })
        else (ok tt, s))
    else (ok tt, s)
