-- ===== src/Providers/Ledger/Client.antt =====
-- src/keyring/providers/ledgertm/client.rs: the messages that are exchanged with the app on the device.
use tmkms.Prelude.{
  ℕ, suc, zero, ◌+◌, ◌%◌, ◌&&◌, ltb, ◌==◌, Option, none, some, List, [], ◌∷◌, length, is_empty,
  take, drop, if◌then◌else◌, Outcome, ok, err, panic, crash,
}
use tmkms.Prelude.Exec.{Exec, pure, lift, ◌>>=◌}
use tmkms.Tendermint.{Bytes}

-- src/keyring/providers/ledgertm/error.rs
pub data LedgerError : Type 0 where
  invalid_version invalid_empty_message invalid_message_size invalid_pk : LedgerError
  no_signature invalid_signature ledger : LedgerError

-- `ledger::ApduCommand` and `ledger::ApduAnswer`
pub record ApduCommand : Type 0 where
  pub cla : ℕ
  pub ins : ℕ
  pub p1 : ℕ
  pub p2 : ℕ
  pub length : ℕ
  pub data_bytes : Bytes

pub record ApduAnswer : Type 0 where
  pub data_bytes : Bytes
  pub retcode : ℕ

-- `LedgerApp::exchange`, over the state of the device; `none` is a failure of the transport.
abbrev pub App : Type 0 → Type 0
App D = ApduCommand → D → Option ApduAnswer × D

pub record Version : Type 0 where
  pub mode : ℕ
  pub major : ℕ
  pub minor : ℕ
  pub patch : ℕ

abbrev pub cla_byte : ℕ
cla_byte = 0x56

abbrev pub ins_get_version : ℕ
ins_get_version = 0x00

abbrev pub ins_public_key_ed25519 : ℕ
ins_public_key_ed25519 = 0x01

abbrev pub ins_sign_ed25519 : ℕ
ins_sign_ed25519 = 0x02

abbrev pub user_message_chunk_size : ℕ
user_message_chunk_size = 250

abbrev pub success_code : ℕ
success_code = 0x9000

-- `slice::chunks`, where each piece costs one unit of fuel; the length of the list is enough.
unfoldable pub chunks_in : ℕ → ℕ → Bytes → List Bytes
chunks_in size zero xs = []
chunks_in size (suc fuel) [] = []
chunks_in size (suc fuel) (x ∷ xs) = take size (x ∷ xs) ∷ chunks_in size fuel (drop size (x ∷ xs))

unfoldable pub chunks : ℕ → Bytes → List Bytes
unfolding chunks_in
chunks size xs = chunks_in size (length xs) xs

abbrev pub no_response : ApduAnswer
no_response = record { data_bytes = []; retcode = 0 }

-- What the last response says about the signature.
unfoldable pub judge : ApduAnswer → Outcome LedgerError Bytes
judge response =
    if is_empty response.data_bytes && response.retcode == success_code
    then err no_signature
    else if length response.data_bytes == 64
    then ok response.data_bytes
    else err invalid_signature

-- `response.data[i]` panics out of range.
version_of : Bytes → Outcome LedgerError Version
version_of (mode ∷ major ∷ minor ∷ patch ∷ _) =
    ok (record { mode = mode; major = major; minor = minor; patch = patch })
version_of _ = panic crash

module _ {D : Type 0} (app : App D) where
  unfoldable pub exchange : ApduCommand → Exec D LedgerError ApduAnswer
  exchange command d =
      let (answer, d') = app command d in
      elim answer [ none ↦ (err ledger, d') | some response ↦ (ok response, d') ]

  abbrev pub bare : ℕ → ApduCommand
  bare ins = record { cla = cla_byte; ins = ins; p1 = 0; p2 = 0; length = 0; data_bytes = [] }

  unfoldable pub version : Exec D LedgerError Version
  unfolding exchange version_of
  version = do
    response ← exchange (bare ins_get_version)
    lift (
        if response.retcode == success_code
        then version_of response.data_bytes
        else err invalid_version)

  -- A return code other than success is only printed.
  unfoldable pub public_key : Exec D LedgerError Bytes
  unfolding exchange
  public_key = do
    response ← exchange (bare ins_public_key_ed25519)
    lift (if length response.data_bytes == 32 then ok response.data_bytes else err invalid_pk)

  abbrev pub packet : ℕ → ℕ → Bytes → ApduCommand
  packet packet_idx packet_count chunk = record {
    cla = cla_byte;
    ins = ins_sign_ed25519;
    p1 = (packet_idx + 1) % 256;
    p2 = packet_count % 256;
    length = length chunk % 256;
    data_bytes = chunk;
  }

  -- The chunks are sent one after the other, and the last response is kept.
  unfoldable pub send : ℕ → ℕ → List Bytes → ApduAnswer → Exec D LedgerError ApduAnswer
  unfolding exchange
  send packet_idx packet_count [] response = pure response
  send packet_idx packet_count (chunk ∷ rest) response = do
    response' ← exchange (packet packet_idx packet_count chunk)
    send (packet_idx + 1) packet_count rest response'

  unfoldable pub sign_pieces : List Bytes → Exec D LedgerError Bytes
  unfolding send judge
  sign_pieces pieces =
      if ltb 255 (length pieces)
      then lift (err invalid_message_size)
      else if length pieces == 0
      then lift (err invalid_empty_message)
      else (send 0 (length pieces) pieces no_response >>= λ response. lift (judge response))

  unfoldable pub sign : Bytes → Exec D LedgerError Bytes
  unfolding sign_pieces chunks
  sign message = sign_pieces (chunks user_message_chunk_size message)
