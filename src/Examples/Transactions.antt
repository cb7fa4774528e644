-- ===== src/Examples/Transactions.antt =====
-- The transaction signer: src/tx_signer.rs and src/tx_signer/.
use tmkms.Prelude.{
  ℕ, ◌≡◌, refl, String, true, false, Option, none, some, [], ◌∷◌, str_eq, ◌==◌, if◌then◌else◌, ok,
}
use tmkms.TxSigner.SequenceFile
use tmkms.TxSigner.SequenceFile.{open_file, persist, sync_to_disk, open-persist}
use tmkms.TxSigner.LastTx.{no_tx}
use tmkms.TxSigner.SignMsg
use tmkms.TxSigner.SignMsg.{TxSigningRequest, Builder, authorize, AllListed, authorize_iff}
use tmkms.TxSigner.Broadcast.{Setup, Signer, Attempt}
use tmkms.KeyRing.Keys.{account_key, secp256k1, soft_sign}
use tmkms.KeyRing.Ecdsa

-- Sequence numbers in unary, up to two.
unfoldable pub print : ℕ → Option String
print n =
    if n == 0 then some "" else if n == 1 then some "1" else if n == 2 then some "11" else none

abbrev pub io : SequenceFile.Serde
io = record {
  to_string = print;
  from_str = λ s. if str_eq s "" then some 0 else if str_eq s "1" then some 1 else some 2;
}

abbrev pub fair : SequenceFile.Weather
fair = record {
  has_parent = true;
  readable = true;
  created = true;
  written = true;
  persisted = true;
}

abbrev pub zero_file : SequenceFile.SequenceFile
zero_file = record { path = "seq.json"; sequence = 0 }

open-persist_example :
    open_file io fair "seq.json" (persist io fair 2 zero_file none).2
    ≡ (ok (record { path = "seq.json"; sequence = 2 }), some "11")
unfolding persist sync_to_disk print
open-persist_example = open-persist io fair 2 zero_file none "11" refl refl refl refl

-- A request with one message, and a signer that may send it.
abbrev pub builder : Builder
builder = record {
  from_json_value = λ v. some (record { type_name = v; body = [] });
  create_sign_msg = λ sequence fee memo msgs. sequence ∷ [];
}

abbrev pub req : TxSigningRequest
req = record { chain_id = "hub"; fee = []; memo = ""; msgs = "oracle/vote" ∷ [] }

abbrev sign_msg : SignMsg.SignMsg
sign_msg = record {
  fee = [];
  memo = "";
  msgs = record { type_name = "oracle/vote"; body = [] } ∷ [];
  msg_types = "oracle/vote" ∷ [];
  repr = 0 ∷ [];
}

authorize_iff_example : authorize sign_msg ("oracle/vote" ∷ []) ≡ ok tt
unfolding SignMsg.new
authorize_iff_example =
    (authorize_iff req builder 0 ("oracle/vote" ∷ []) sign_msg refl).1 (refl, tt)

abbrev pub key : Ecdsa.Signer
key = record {
  provider = soft_sign;
  public_key = account_key (secp256k1 (4 ∷ []));
  signer = λ m. some m;
}

abbrev pub setup : Setup
setup = record {
  chain_id = "hub";
  acl = "oracle/vote" ∷ [];
  builder = builder;
  io = io;
  keyring =
      some
        (record { ecdsa_keys = (account_key (secp256k1 (4 ∷ [])), key) ∷ []; ed25519_keys = [] });
  wanted = λ id. true;
  account_id = λ pk. [];
}

abbrev pub at_start : Signer
at_start = record { seq_file = zero_file; disk = some ""; last_tx = no_tx; sent = [] }

-- The node answers first nothing, then that CheckTx failed, then that all went well.
abbrev pub silent : Attempt
silent = record { answer = none; weather = fair }

abbrev pub rejected : Attempt
rejected = record {
  answer = some (record { check_tx_ok = false; deliver_tx_ok = false });
  weather = fair;
}

abbrev pub accepted : Attempt
accepted = record {
  answer = some (record { check_tx_ok = true; deliver_tx_ok = true });
  weather = fair;
}
