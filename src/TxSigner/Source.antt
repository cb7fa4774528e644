-- ===== src/TxSigner/Source.antt =====
-- src/tx_signer/jsonrpc.rs: the service that the signer asks for transactions.
use tmkms.Prelude.{
  ℕ, String, Bool, Option, none, some, if◌then◌else◌, Outcome, ok, err, panic, crash,
}
use tmkms.Error.{ErrorKind, http_error, serialization_error}
use tmkms.Tendermint.{Bytes}
use tmkms.TxSigner.LastTx.{LastTx, Commit, response}
use tmkms.TxSigner.SignMsg.{TxSigningRequest}

-- `status` is the `SyncInfo` of the node, by its latest block height.
pub record Request : Type 0 where
  pub network : String
  pub context : String
  pub status : ℕ
  pub last_tx_response : Option Commit

pub data Status : Type 0 where
  status_ok status_error : Status

pub record Response : Type 0 where
  pub status : Status
  pub msg : Option String
  pub tx : Option TxSigningRequest

-- serde_json on these types
pub record Json : Type 0 where
  pub to_string : Request → Option String
  pub from_slice : Bytes → Option Response

-- What the service does with one request: whether hyper can build it from the URI, and the body of
-- the answer to the text that is posted, if the call and the transfer of the body succeed.
pub record Service : Type 0 where
  pub builds : Bool
  pub post : String → Option Bytes

-- The status decides, whatever else the answer holds.
unfoldable pub answered : Response → Outcome ErrorKind (Option TxSigningRequest)
answered r = elim r.status [ status_ok ↦ ok r.tx | status_error ↦ err http_error ]

module _ (json : Json) where
  parsed : Option Bytes → Outcome ErrorKind (Option TxSigningRequest)
  unfolding answered
  parsed none = err http_error
  parsed (some body) = elim (json.from_slice body) [
    | none ↦ err serialization_error
    | some r ↦ answered r
  ]

  -- `Body::from` unwraps the printed request.
  unfoldable pub request : Service → Request → Outcome ErrorKind (Option TxSigningRequest)
  unfolding parsed
  request service params = elim (json.to_string params) [
    | none ↦ panic crash
    | some text ↦ if service.builds then parsed (service.post text) else err http_error
  ]

-- `Option::from(&self.last_tx)`
unfoldable pub last_response : LastTx → Option Commit
unfolding response
last_response last_tx = response last_tx
