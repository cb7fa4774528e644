-- ===== src/TxSigner/Broadcast.antt =====
-- src/tx_signer.rs: one request for a transaction, with its signature, its broadcast and its retries.
mod Rules
pub mod Safety
use tmkms.Prelude.{
  ℕ, ◌+◌, ◌-◌, ◌<◌, ◌^◌, String, Bool, true, false, not, Option, none, some, List, [], ◌∷◌, ltb,
  str_eq, if◌then◌else◌, Outcome, ok, err, panic, crash,
}
use tmkms.Prelude.Exec.{Exec, pure, lift, ◌>>=◌, ◌>>◌}
use tmkms.Error.{ErrorKind, chain_id_error, tendermint_error}
use tmkms.Tendermint.{Bytes}
use tmkms.KeyRing.{KeyRing, sign_ecdsa, get_account_pubkey}
use tmkms.KeyRing.Keys.{PublicKey}
use tmkms.TxSigner.SequenceFile
use tmkms.TxSigner.SequenceFile.{SequenceFile, Serde, Weather, Disk}
use tmkms.TxSigner.LastTx.{LastTx, Commit, no_tx, got_response, got_error, is_response}
use tmkms.TxSigner.SignMsg
use tmkms.TxSigner.SignMsg.{SignMsg, Msg, TxSigningRequest, Builder, authorize}

-- What the signer was built from, and what it calls: its account (`wanted` is the test for its ID,
-- `account_id` the ID of a key), its access control list, and the keyring of its chain, if the chain
-- is registered.
pub record Setup : Type 0 where
  pub chain_id : String
  pub acl : List String
  pub builder : Builder
  pub io : Serde
  pub keyring : Option KeyRing
  pub wanted : Bytes → Bool
  pub account_id : PublicKey → Bytes

-- A signed transaction, by the message that was signed and its signature.
pub record Tx : Type 0 where
  pub msg : SignMsg
  pub signature : Bytes

-- The state of a `TxSigner`. `sent` holds what the node was sent, the last one first: the sequence
-- number that was meant, and the transaction.
pub record Signer : Type 0 where
  pub seq_file : SequenceFile
  pub disk : Disk
  pub last_tx : LastTx
  pub sent : List (ℕ × Tx)

-- One broadcast, from outside: what the node answers, if it does, and how the disk behaves then.
pub record Attempt : Type 0 where
  pub answer : Option Commit
  pub weather : Weather

-- `checked_add(1).unwrap()` on a u64
unfoldable pub next_sequence : ℕ → Outcome ErrorKind ℕ
next_sequence n = if ltb (n + 1) (2 ^ 64) then ok (n + 1) else panic crash

module _ (setup : Setup) where
  signed_by : SignMsg → KeyRing → Outcome ErrorKind Tx
  signed_by m k = elim (sign_ecdsa setup.wanted setup.account_id m.repr k) [
    | ok sig ↦ elim (get_account_pubkey setup.wanted setup.account_id k) [
      | none ↦ panic crash
      | some _ ↦ ok (record { msg = m; signature = sig })
    ]
    | err e ↦ err e
    | panic p ↦ panic p
  ]

  signed_if : SignMsg → Outcome ErrorKind (Unit {0}) → Outcome ErrorKind Tx
  unfolding signed_by
  signed_if m (ok _) = elim setup.keyring [ none ↦ panic crash | some k ↦ signed_by m k ]
  signed_if m (err e) = err e
  signed_if m (panic p) = panic p

  -- The access control list is asked first.
  unfoldable pub sign_tx : SignMsg → Outcome ErrorKind Tx
  unfolding signed_if
  sign_tx m = signed_if m (authorize m setup.acl)

  -- `last_tx` remembers the answer; no answer is an error.
  send : ℕ → Attempt → Tx → Exec Signer ErrorKind Commit
  send sequence attempt tx s = elim attempt.answer [
    | none ↦
        (err tendermint_error, record s { last_tx = got_error; sent = (sequence, tx) ∷ s.sent })
    | some c ↦ (ok c, record s { last_tx = got_response c; sent = (sequence, tx) ∷ s.sent })
  ]

  save : ℕ → Weather → Exec Signer ErrorKind (Unit {0})
  save sequence w s =
      let (out, f, disk) = SequenceFile.persist setup.io w sequence s.seq_file s.disk in
      (out, record s { seq_file = f; disk = disk })

  check : Bool → Outcome ErrorKind (Unit {0})
  check true = ok tt
  check false = err tendermint_error

  -- The sequence number is advanced as soon as CheckTx succeeds, also where DeliverTx fails.
  unfoldable pub broadcast_tx : SignMsg → ℕ → Attempt → Exec Signer ErrorKind (Unit {0})
  unfolding send save check
  broadcast_tx m sequence attempt = do
    tx ← lift (sign_tx m)
    commit ← send sequence attempt tx
    lift (check commit.check_tx_ok)
    next ← lift (next_sequence sequence)
    save next attempt.weather
    lift (check commit.deliver_tx_ok)

  -- What an error of the first action leads to: the second one runs from the state that it left.
  on_error :
      Exec Signer ErrorKind (Unit {0})
      → Exec Signer ErrorKind (Unit {0})
      → Exec Signer ErrorKind (Unit {0})
  on_error m k s =
      let (out, s') = m s in
      elim out [ ok _ ↦ (ok tt, s') | err e ↦ k s' | panic p ↦ (panic p, s') ]

  try_at : TxSigningRequest → ℕ → Attempt → Exec Signer ErrorKind (Unit {0})
  try_at req sequence attempt = do
    m ← lift (SignMsg.new req setup.builder sequence)
    broadcast_tx m sequence attempt

  -- The third try is the last one, and its error is returned.
  third_try : TxSigningRequest → ℕ → Attempt → Exec Signer ErrorKind (Unit {0})
  unfolding try_at
  third_try req sequence attempt = do next ← lift (next_sequence sequence); try_at req next attempt

  -- An error of the message is returned at once, one of the broadcast leads to the third try.
  second_try : TxSigningRequest → ℕ → Attempt → Attempt → Exec Signer ErrorKind (Unit {0})
  unfolding third_try on_error
  second_try req sequence b c = do
    next ← lift (next_sequence sequence)
    m ← lift (SignMsg.new req setup.builder next)
    on_error (broadcast_tx m next b) (third_try req next c)

  -- The transaction of a request: the first error is only logged, and leads to two more tries if the
  -- last transaction before had no response.
  unfoldable pub sign_request :
      TxSigningRequest → Attempt → Attempt → Attempt → Exec Signer ErrorKind (Unit {0})
  unfolding second_try on_error
  sign_request req a b c s =
      let sequence = s.seq_file.sequence in
      let retry_on_failure = not (is_response s.last_tx) in
      (do
        m ← lift (SignMsg.new req setup.builder sequence)
        on_error (broadcast_tx m sequence a)
            (if retry_on_failure then second_try req sequence b c else pure tt))
        s

  -- `requested` is what the service answers: an error, no transaction, or one for some chain.
  unfoldable pub request_and_sign_tx :
      Outcome ErrorKind (Option TxSigningRequest)
      → Attempt
      → Attempt
      → Attempt
      → Exec Signer ErrorKind (Unit {0})
  request_and_sign_tx (ok none) a b c s = (ok tt, s)
  request_and_sign_tx (ok (some req)) a b c s =
      if str_eq setup.chain_id req.chain_id
      then sign_request req a b c s
      else (err chain_id_error, s)
  request_and_sign_tx (err e) a b c s = (err e, s)
  request_and_sign_tx (panic p) a b c s = (panic p, s)
