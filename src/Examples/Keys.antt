-- ===== src/Examples/Keys.antt =====
-- Keys in files and on devices: src/key_utils.rs and src/keyring/providers/.
use tmkms.Prelude.{
  ◌≡◌, ◌≢◌, refl, String, true, false, none, some, [], ◌∷◌, ◌++◌, ltb, if◌then◌else◌, Memᴰ, arith,
  ok, panic, crash,
}
use tmkms.KeyRing
use tmkms.Providers.Load
use tmkms.Providers.Softsign
use tmkms.Providers.Yubihsm
use tmkms.Providers.Ledger
use tmkms.KeyRing.{add_ed25519}
use tmkms.Providers.{add_consensus_keys}
use tmkms.Chain.Registry.{register_chain, add_consensus_key}
use tmkms.Providers.Softsign.{init_consensus}
use tmkms.KeyUtils.{load_base64_ed25519_key}
use tmkms.Tendermint.{Bytes}
use tmkms.KeyUtils.{
  File, Files, Keypair, Writing, secret_file_perms, trim_end, load_base64_secret,
  write_base64_secret,
}
use tmkms.KeyUtils.Laws.{load-write}
use tmkms.KeyRing.{sign_ed25519}
use tmkms.KeyRing.Keys.{ed25519}
use tmkms.KeyRing.Ed25519
use tmkms.Chain.{Chain}
use tmkms.Chain.Registry.{Registry, get_chain}
use tmkms.Chain.Hook.{Child}
use tmkms.Chain.State.{load_state}
use tmkms.Chain.Startup.{from_config}
use tmkms.Chain.Load.{Boot, Planned, load_config}
use tmkms.Chain.Load.Keys.{software_only, load_config-signs}
use tmkms.Providers.{consensus}
use tmkms.Providers.Load.{Backends}
use tmkms.Providers.Softsign.{SoftsignConfig, Crypto, load_ed25519_key, consensus_signer}
use tmkms.Providers.Ledger.Client.{App, ApduAnswer, sign}
use tmkms.Providers.Ledger.Protocol.{Assembles, joined, sign_whole, sign-sign_whole}
use tmkms.Providers.Fortanix
use tmkms.Providers.Fortanix.{Dsm, Url, Sobject, Spki, KeyDescriptor, key_name, ec, curve_ed25519}
use tmkms.Providers.Fortanix.Safe.{init_never_panics}
use tmkms.Examples.Setup.{
  base64, dalek, key_files, nil_at, chain_at, crate, json, fair, text_key, text_key-IsKeyOrd,
  key_ord, key_ord-IsKeyOrd,
}

abbrev written : Writing
written = record { openable = true; partial = none }

abbrev secret : Bytes
secret = 42 ∷ 42 ∷ 42 ∷ 42 ∷ []

abbrev no_files : Files
no_files path = none

load-write_example :
    let after = (write_base64_secret base64 "hub.key" secret written no_files).1 in
    (load_base64_secret base64 "hub.key" after ≡ ok secret)
    × (no_files "hub.key" ≡ none
        → after "hub.key" ≡ some (record { text = "KioqKg=="; mode = secret_file_perms }))
    × ((old : File)
        → no_files "hub.key" ≡ some old
        → after "hub.key" ≡ some (record { text = "KioqKg=="; mode = old.mode }))
    × ((other : String) → other ≢ "hub.key" → after other ≡ no_files other)
unfolding trim_end write_base64_secret
load-write_example = load-write base64 "hub.key" secret written no_files refl refl refl

-- A device that stores what it is sent, and signs with 64 copies of the first byte.
pub first_of : Bytes → ApduAnswer
first_of bytes = record { data_bytes = bytes; retcode = 0x9000 }

abbrev pub device : App Bytes
device c held =
    let bytes = joined c.p1 held c.data_bytes in
    (
      some (if ltb c.p1 c.p2 then record { data_bytes = []; retcode = 0x9000 } else first_of bytes),
      bytes,
    )

device-Assembles : Assembles device first_of
device-Assembles = record {
  held = λ d. d;
  accepts = λ c d _ _. (_, refl);
  stores = λ c d _ _. refl;
  answers = λ c d _ e. ground arith;
}

sign-sign_whole_example : (sign device (7 ∷ 8 ∷ []) []).0 ≡ sign_whole first_of (7 ∷ 8 ∷ [])
sign-sign_whole_example = sign-sign_whole device first_of device-Assembles (7 ∷ 8 ∷ []) []

-- A service with one Ed25519 key.
abbrev pub service : Dsm (Unit {0})
service = record {
  parse_url = λ _. some (record { scheme = "https"; path = "/"; query = none; fragment = none });
  build = λ _ _. some tt;
  get_sobject = λ _ _.
      some (record { obj_type = ec; elliptic_curve = some curve_ed25519; pub_key = some (5 ∷ []) });
  sign = λ _ _ msg _. some msg;
  secp256k1_from_der = λ _. none;
  spki_from_der = λ der.
      some (record { oid_is_ed25519 = true; has_parameters = false; subject_public_key = der });
  ed25519_from_bytes = λ bytes. some (ed25519 bytes);
  ecdsa_from_der = λ bytes. some bytes;
  signature_from_bytes = λ bytes. some bytes;
}

abbrev dsm_config : Fortanix.FortanixDsmConfig
dsm_config = record {
  api_endpoint = "https://sdkms.fortanix.com";
  api_key = "secret";
  signing_keys = record { chain_ids = "hub" ∷ []; key = key_name "hub"; key_type = consensus } ∷ [];
}

abbrev registry : Registry
registry = ("hub", chain_at (nil_at 7)) ∷ []

init_never_panics_example :
    (Fortanix.init service text_key key_ord (dsm_config ∷ []) registry).0 ≢ panic crash
init_never_panics_example =
    init_never_panics service text_key key_ord (dsm_config ∷ []) registry crash

-- The program starts with one chain, and its key in a file.
abbrev pub crypto : Crypto
crypto = record {
  base64 = base64;
  dalek = dalek;
  load_json_file = λ _ _. none;
  sign_ed25519 = λ pair msg. some (pair.public ++ msg);
  is_signing_key = λ _. false;
  account_public = λ _. none;
  sign_ecdsa = λ _ _. none;
}

abbrev pub backends : Backends Bytes (Unit {0})
backends = record {
  crypto = crypto;
  files = key_files;
  hsm = record { create_ecdsa = λ _. none; create_ed25519 = λ _. none };
  app = device;
  connected = none;
  is_ed25519 = λ _. true;
  dsm = service;
}

abbrev pub child : Child
child = record {
  spawned = true;
  waited = true;
  exited = λ secs. none;
  printed = none;
  killed = true;
  reaped = true;
}

abbrev pub planned : Planned
planned = record {
  config = record { id = "hub"; state_file = none; state_hook = none };
  weather = fair;
  child = child;
}

abbrev pub soft : SoftsignConfig
soft = record { chain_ids = "hub" ∷ []; key_type = consensus; key_format = none; path = "hub.key" }

abbrev boot : Boot
boot = record { registry = []; files = λ path. some "seven" }

abbrev pub path_of : String → String
path_of id = id

started :
    (load_config json crate path_of text_key backends key_ord
      (record { chain = planned ∷ []; providers = software_only (soft ∷ []) })
      boot).0
    ≡ ok tt
unfolding load_config from_config load_state json register_chain Load.load_config Softsign.init
    init_consensus load_ed25519_key load_base64_ed25519_key load_base64_secret add_consensus_keys
    add_consensus_key add_ed25519 consensus_signer KeyRing.new Yubihsm.init Ledger.init
    Fortanix.init
started = refl

load_config-signs_example :
    let result =
      load_config json crate path_of text_key backends key_ord
        (record { chain = planned ∷ []; providers = software_only (soft ∷ []) })
        boot in
    (pair : Keypair) × (chain : Chain) × (load_ed25519_key crypto key_files soft ≡ ok pair)
    × (get_chain text_key "hub" result.1.registry ≡ some chain)
    × ((msg : Bytes)
        → sign_ed25519 key_ord none msg chain.keyring
          ≡ Ed25519.sign (consensus_signer crypto key_files pair) msg)
load_config-signs_example =
    load_config-signs text_key text_key-IsKeyOrd json crate path_of backends key_ord
      key_ord-IsKeyOrd (planned ∷ []) (soft ∷ []) soft "hub" boot refl started (Memᴰ.head refl) refl
      (Memᴰ.head refl)
