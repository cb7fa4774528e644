-- ===== src/Error.antt =====
-- src/error.rs: the kinds of errors, and the conversions into them that the modelled code applies.
-- An `Error` is its kind: the messages and sources that are only printed are left out.
use tmkms.Prelude.{Panic, poisoned_lock, crash}

pub data ErrorKind : Type 0 where
  access_error chain_id_error config_error double_sign exceed_max_height crypto_error : ErrorKind
  fortanix_dsm_error hook_error http_error invalid_key invalid_message_error : ErrorKind
  io_error panic_error parse_error poison_error protocol_error serialization_error : ErrorKind
  signing_error stdtx_error tendermint_error verification_error yubihsm_error : ErrorKind

-- `Error::from_panic`, which looks for "PoisonError" in the panic's message.
unfoldable pub from_panic : Panic → ErrorKind
from_panic poisoned_lock = poison_error
from_panic crash = panic_error

pub data IoError : Type 0 where
  io_failed : IoError

-- The `From` impls that `?` and `into` use.
unfoldable pub from_io : IoError → ErrorKind
from_io e = io_error
