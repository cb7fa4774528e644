-- ===== src/Examples/Lists.antt =====
-- The keys that `yubihsm keys list` prints: src/commands/yubihsm/keys/list.rs.
use tmkms.Prelude.{
  ◌≡◌, refl, ℕ, String, true, false, none, some, [], ◌∷◌, arith, ◌==◌, List, Memᴰ, ok,
}
use tmkms.Map.{KeyOrd, IsKeyOrd, Map, get, insert}
use tmkms.KeyRing.Keys.{ed25519 as ed25519_key}
use tmkms.KeyRing.Format.{Format, bech32, Printer, serialize}
use tmkms.Providers.{consensus}
use tmkms.Providers.Yubihsm.{SigningKeyConfig}
use tmkms.Commands.Keys.Listing.{
  Reader, Points, ed25519, shown, load_chain_formatters, load_key_formatters, list_keys,
  display_key_info, run,
}
use tmkms.Commands.Keys.Listing.Laws.{load_key_formatters-finds}
use tmkms.Examples.Setup.{text_key, text_key-IsKeyOrd}

abbrev number_key : KeyOrd ℕ
number_key = record { beq = λ a b. a == b; less = λ a b. false }

number_key-IsKeyOrd : IsKeyOrd number_key
number_key-IsKeyOrd = record {
  beq_iff = λ a b. ((λ h. ground (arith, h)), (λ h. ground (arith, h)));
}

abbrev reader : Reader
reader = record {
  serial_number = some "0001";
  list_objects = some (
      record { object_id = 7; is_asymmetric_key = true }
      ∷ record { object_id = 2; is_asymmetric_key = false }
      ∷ record { object_id = 1; is_asymmetric_key = true }
      ∷ []);
  get_object_info = λ id. some "validator";
  get_public_key = λ id. some (ed25519, 9 ∷ []);
}

abbrev points : Points
points = record {
  compress = λ bytes. bytes;
  from_raw_secp256k1 = λ bytes. none;
  from_raw_ed25519 = λ bytes. some (ed25519_key bytes);
}

abbrev printer : Printer
printer = record {
  account_id = λ pk. [];
  bech32_encode = λ prefix bytes. prefix;
  to_bech32 = λ pk prefix. prefix;
  to_json = λ pk. "json";
  to_hex = λ key. "09";
}

abbrev hub_key : SigningKeyConfig
hub_key = record { chain_ids = "hub" ∷ []; key = 7; key_type = consensus }

abbrev chains : List (String × Format)
chains = ("hub", bech32 "cosmospub" "cosmosvalconspub") ∷ []

-- Keys come in the order of their IDs, the last one first here; only one has the format of its chain.
listed :
    (run reader points printer text_key number_key chains (ok (hub_key ∷ [])) []).1
    ≡ shown 7 consensus "cosmosvalconspub" "validator" ∷ shown 1 consensus "09" "validator" ∷ []
unfolding run list_keys display_key_info serialize load_key_formatters load_chain_formatters get
    insert
listed = refl

abbrev formatters : Map ℕ Format
formatters = (7, bech32 "cosmospub" "cosmosvalconspub") ∷ []

load_key_formatters-finds_example :
    get number_key 7 formatters ≡ some (bech32 "cosmospub" "cosmosvalconspub")
unfolding load_key_formatters load_chain_formatters get insert
load_key_formatters-finds_example =
    load_key_formatters-finds text_key text_key-IsKeyOrd number_key number_key-IsKeyOrd chains
      (hub_key ∷ []) hub_key "hub" (bech32 "cosmospub" "cosmosvalconspub") formatters
      (Memᴰ.head refl) refl (Memᴰ.head refl) refl
