-- ===== src/TxSigner/SequenceFile.antt =====
-- src/tx_signer/sequence_file.rs: the sequence number of the account, in memory and in a file.
use tmkms.Prelude.{
  ℕ, ◌≡◌, arith, String, Bool, true, not, ◌&&◌, Option, none, some, if◌then◌else◌, Outcome, ok, err,
  panic, crash,
}
use tmkms.Error.{ErrorKind, io_error, parse_error}

pub record SequenceFile : Type 0 where
  pub path : String
  pub sequence : ℕ

-- serde_json on the state of the file
pub record Serde : Type 0 where
  pub to_string : ℕ → Option String
  pub from_str : String → Option ℕ

-- What the file system does to one call.
pub record Weather : Type 0 where
  pub has_parent : Bool
  pub readable : Bool
  pub created : Bool
  pub written : Bool
  pub persisted : Bool

abbrev pub Disk : Type 0
Disk = Option String

module _ (io : Serde) (w : Weather) where
  -- The directory is looked up before the state is printed.
  unfoldable pub sync_to_disk : SequenceFile → Disk → Outcome ErrorKind (Unit {0}) × Disk
  sync_to_disk f disk =
      if not w.has_parent then (panic crash, disk) else elim (io.to_string f.sequence) [
        | none ↦ (err io_error, disk)
        | some json ↦
            if w.created && w.written && w.persisted
            then (ok tt, some json)
            else (err io_error, disk)
      ]

  created_file :
      SequenceFile → Outcome ErrorKind (Unit {0}) × Disk → Outcome ErrorKind SequenceFile × Disk
  created_file f (ok _, disk) = (ok f, disk)
  created_file f (err e, disk) = (err e, disk)
  created_file f (panic p, disk) = (panic p, disk)

  unfoldable pub create : String → Disk → Outcome ErrorKind SequenceFile × Disk
  unfolding created_file
  create path disk =
      let f : SequenceFile = record { path = path; sequence = 0 } in
      created_file f (sync_to_disk f disk)

  loaded : String → Option ℕ → Outcome ErrorKind SequenceFile
  loaded path none = err parse_error
  loaded path (some n) = ok (record { path = path; sequence = n })

  unfoldable pub open_file : String → Disk → Outcome ErrorKind SequenceFile × Disk
  unfolding create loaded
  open_file path none = create path none
  open_file path (some json) =
      if w.readable then (loaded path (io.from_str json), some json) else (err io_error, some json)

  -- Memory takes the new value also where the file cannot be written.
  unfoldable pub persist :
      ℕ → SequenceFile → Disk → Outcome ErrorKind (Unit {0}) × SequenceFile × Disk
  persist new_value f disk =
      let f' = record f { sequence = new_value } in
      let (out, disk') = sync_to_disk f' disk in (out, f', disk')

  -- What was persisted with success is read back when the file is opened again, if the file can
  -- be read and the JSON text gives the number back.
  pub open-persist :
      (new_value : ℕ) (f : SequenceFile) (disk : Disk) (json : String)
      → w.readable ≡ true
      → io.to_string new_value ≡ some json
      → io.from_str json ≡ some new_value
      → (persist new_value f disk).0 ≡ ok tt
      → open_file f.path (persist new_value f disk).2
        ≡ (ok (record { path = f.path; sequence = new_value }), some json)
  unfolding open_file persist sync_to_disk
  open-persist new_value f disk json readable text reads saved = ground arith
