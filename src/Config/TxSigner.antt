-- ===== src/Config/TxSigner.antt =====
-- src/config/tx_signer.rs, as it is read from the configuration file.
use tmkms.Prelude.{ℕ, String, Option, none, some, List}
use tmkms.Tendermint.{Bytes}
use tmkms.Config.Validator.{Address}

-- The names of the message types that may be signed.
pub record TxAcl : Type 0 where
  pub msg_type : List String

pub data PollInterval : Type 0 where
  block : ℕ → ℕ → PollInterval  -- `blocks` and `min_secs`

-- A URI is its text.
pub data TxSource : Type 0 where
  json_rpc : String → TxSource

pub record RpcConfig : Type 0 where
  pub addr : Address

pub record TxSignerConfig : Type 0 where
  pub chain_id : String
  pub schema : String
  pub account_number : ℕ
  pub account_address : Bytes
  pub context : String
  pub acl : TxAcl
  pub poll_interval : PollInterval
  pub source : TxSource
  pub rpc : RpcConfig
  pub seq_file : String

abbrev pub default_min_secs : ℕ
default_min_secs = 5

-- The table `poll_interval`, with the entry that may be left out.
unfoldable pub poll_interval_of : ℕ → Option ℕ → PollInterval
poll_interval_of blocks none = block blocks default_min_secs
poll_interval_of blocks (some min_secs) = block blocks min_secs

-- `deserialize_uri`, over the parser of the http crate, which may refuse the text.
unfoldable pub deserialize_uri : (String → Option String) → String → Option TxSource
deserialize_uri parse text = elim (parse text) [ none ↦ none | some uri ↦ some (json_rpc uri) ]
