-- ===== src/Chain/Hook.antt =====
-- src/chain/state/hook.rs: the hook command that reports the last block height.
use tmkms.Prelude.{
  ℕ, String, ◌≡◌, ◌≢◌, ◌↔◌, Bool, true, false, not, Option, none, some, List, [], ◌∷◌, arith,
  if◌then◌else◌, Outcome, ok, err, panic, crash,
}
use tmkms.Error.{ErrorKind, io_failed, hook_error, serialization_error, from_io}

pub record HookConfig : Type 0 where
  pub cmd : List String
  pub timeout_secs : Option ℕ
  pub fail_closed : Bool

abbrev default_timeout_secs : ℕ
default_timeout_secs = 1

timeout_of : Option ℕ → ℕ
timeout_of none = default_timeout_secs
timeout_of (some secs) = secs

-- How the standard output of the child was set up: `Command::spawn` inherits it unless told to pipe.
pub data Stdio : Type 0 where
  inherit piped : Stdio

-- What the operating system and serde_json answer during one run: `exited` is what waiting for some
-- seconds gives, `none` for a timeout, else whether the child succeeded; `printed` is what reading its
-- standard output as JSON gives.
pub record Child : Type 0 where
  pub spawned : Bool
  pub waited : Bool
  pub exited : ℕ → Option Bool
  pub printed : Option ℕ
  pub killed : Bool
  pub reaped : Bool

-- `child.stdout` is there only if the output was piped.
abbrev pub captured : Stdio → Option ℕ → Option (Option ℕ)
captured inherit printed = none
captured piped printed = some printed

-- `latest_block_height` of the output, or the error.
parse_output : Option (Option ℕ) → Outcome ErrorKind ℕ
parse_output none = err hook_error
parse_output (some none) = err serialization_error
parse_output (some (some height)) = ok height

unfoldable pub run_with : Stdio → Option ℕ → Child → Outcome ErrorKind ℕ
unfolding parse_output from_io timeout_of
run_with stdout timeout_secs c =
    if not c.spawned
    then err (from_io io_failed)
    else if not c.waited
    then err (from_io io_failed)
    else elim (c.exited (timeout_of timeout_secs)) [
      | some true ↦ parse_output (captured stdout c.printed)
      | some false ↦ err hook_error
      | none ↦
          if not c.killed
          then err (from_io io_failed)
          else if not c.reaped
          then err (from_io io_failed)
          else err hook_error
    ]

-- `run` sets no standard output, so the child inherits it. `cmd[0]` panics on an empty command.
unfoldable pub run : HookConfig → Child → Outcome ErrorKind ℕ
unfolding run_with
run config c = elim config.cmd [
  | [] ↦ panic crash
  | program ∷ arguments ↦ run_with inherit config.timeout_secs c
]

-- Whatever the child does and prints, a run gives no height.
run-ne-ok : (config : HookConfig) (c : Child) (height : ℕ) → run config c ≢ ok height
unfolding run
run-ne-ok config c height h = ground arith

-- With a piped output a run gives exactly what a child that succeeds in time prints.
run_with-piped_iff :
    (timeout_secs : Option ℕ) (c : Child) (height : ℕ)
    → (run_with piped timeout_secs c ≡ ok height) ↔ (
        (c.spawned ≡ true)
        × (c.waited ≡ true)
        × (c.exited (timeout_of timeout_secs) ≡ some true)
        × (c.printed ≡ some height))
unfolding run_with
run_with-piped_iff timeout_secs c height = ((λ h. ground arith), (λ h. ground arith))
