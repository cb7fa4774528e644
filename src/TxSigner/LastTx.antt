-- ===== src/TxSigner/LastTx.antt =====
-- src/tx_signer/last_tx.rs: what became of the last transaction.
use tmkms.Prelude.{Bool, Option, none, some, is_some}

-- `tx_commit::Response`, as far as it is read: whether CheckTx and DeliverTx succeeded
pub record Commit : Type 0 where
  pub check_tx_ok : Bool
  pub deliver_tx_ok : Bool

pub data LastTx : Type 0 where
  no_tx : LastTx
  got_response : Commit → LastTx
  got_error : LastTx

unfoldable pub response : LastTx → Option Commit
response (got_response c) = some c
response _ = none

unfoldable pub is_response : LastTx → Bool
unfolding response
is_response t = is_some (response t)
