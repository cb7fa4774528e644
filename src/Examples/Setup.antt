-- ===== src/Examples/Setup.antt =====
-- A concrete stand-in for the crates that the program calls, and a chain with one key.
use tmkms.Prelude.{str_eq_iff}
use tmkms.Prelude.{
  ℕ, ◌≡◌, sym, ap, ◌∙◌, ◌⊎◌, inl, inr, not, is_some, if◌then◌else◌, ◌↔◌, String, Bool, true, false,
  ◌&&◌, ◌==◌, Option, none, some, [], ◌∷◌, arith, str_eq,
}
use tmkms.Prelude.Int.{ℤ, pos, negsuc, eq_ℤ, eq_of_parts}
use tmkms.Tendermint.{Bytes, Hash, sha256, TendermintBlockId, ConsensusState, Tendermint}
use tmkms.KeyUtils.{Files, Base64, Dalek, secret_file_perms}
use tmkms.Map.{KeyOrd, IsKeyOrd}
use tmkms.KeyRing.{KeyRing}
use tmkms.KeyRing.Keys.{
  PublicKey, secp256k1, account_key, ed25519, TendermintKey, consensus_key, soft_sign,
}
use tmkms.KeyRing.Ed25519
use tmkms.Config.Validator.{ValidatorConfig, unix, v0_34}
use tmkms.Chain.{Chain}
use tmkms.Chain.State.{Weather, Serde}
use tmkms.Chain.State.Guards.{HasIdEq}
use tmkms.Chain.State.History.Invariant.{RoundTrips}
use tmkms.Amino.SignedMsg.{Codec}
use tmkms.Rpc.{Wire, bytes_eq}
use tmkms.Session.{Platform, Kms}

bytes_eq_iff : (a b : Bytes) → (bytes_eq a b ≡ true) ↔ (a ≡ b)
unfolding bytes_eq
bytes_eq_iff [] [] = ground arith
bytes_eq_iff [] (b ∷ bs) = ground arith
bytes_eq_iff (a ∷ x) [] = ground arith
bytes_eq_iff (a ∷ x) (b ∷ bs) = ground (arith, bytes_eq_iff x bs)

unfoldable hash_eq : Hash → Hash → Bool
unfolding bytes_eq
hash_eq (sha256 a) (sha256 b) = bytes_eq a b

hash_eq_iff : (a b : Hash) → (hash_eq a b ≡ true) ↔ (a ≡ b)
unfolding hash_eq
hash_eq_iff (sha256 a) (sha256 b) = ground (arith, bytes_eq_iff a b)

unfoldable same_id : TendermintBlockId → TendermintBlockId → Bool
same_id a b =
    hash_eq a.hash b.hash
    && (a.part_set_header.total == b.part_set_header.total
        && hash_eq a.part_set_header.hash b.part_set_header.hash)

same_id_iff : (a b : TendermintBlockId) → (same_id a b ≡ true) ↔ (a ≡ b)
unfolding same_id
same_id_iff a b =
    ground
      (arith, hash_eq_iff a.hash b.hash, hash_eq_iff a.part_set_header.hash b.part_set_header.hash)

abbrev height_of : ℤ → Option ℕ
height_of (pos n) = some n
height_of (negsuc n) = none

unfoldable pub crate : Tendermint
unfolding same_id hash_eq
crate = record {
  id_eq = same_id;
  height_try_from = height_of;
  header_new = λ total hash. some (record { total = total; hash = hash });
  default_state = record { height = 1; round = 0; step = pos 0; block_id = none };
}

pub crate-HasIdEq : HasIdEq crate
unfolding crate
crate-HasIdEq = record { id_eq_iff = same_id_iff }

-- Prevotes for no block at the heights 7 and 8.
abbrev pub nil_at : ℕ → ConsensusState
nil_at height = record { height = height; round = 0; step = pos 1; block_id = none }

-- A text is known for these two states only.
unfoldable text_of : ConsensusState → Option String
text_of c =
    if not ((c.round == 0) && eq_ℤ c.step (pos 1) && not (is_some c.block_id))
    then none
    else if c.height == 7
    then some "seven"
    else if c.height == 8
    then some "eight"
    else none

unfoldable state_of : String → Option ConsensusState
state_of s =
    if str_eq s "seven" then some (nil_at 7) else if str_eq s "eight" then some (nil_at 8) else none

nil_cases :
    (c : ConsensusState) (h : ℕ)
    → c.height ≡ h
    → c.round ≡ 0
    → c.step ≡ pos 1
    → c.block_id ≡ none
    → c ≡ nil_at h
nil_cases c h height round step block_id = cc (height, round, step, block_id)

text_cases :
    (c : ConsensusState) (s : String)
    → text_of c ≡ some s
    → ((s ≡ "seven") × (c ≡ nil_at 7)) ⊎ ((s ≡ "eight") × (c ≡ nil_at 8))
unfolding text_of
text_cases c s h = ground (arith, nil_cases c 7, nil_cases c 8, eq_of_parts c.step (pos 1))

state_of-text_of : (c : ConsensusState) (s : String) → text_of c ≡ some s → state_of s ≡ some c
unfolding text_of state_of
state_of-text_of c s h = elim (text_cases c s h) [
  | inl p ↦ ap (λ r. state_of r) p.0 ∙ ap some (sym p.1)
  | inr p ↦ ap (λ r. state_of r) p.0 ∙ ap some (sym p.1)
]

unfoldable pub json : Serde
unfolding text_of state_of
json = record { to_string = text_of; from_str = state_of }

pub json-RoundTrips : RoundTrips json
unfolding json
json-RoundTrips = record { reads = state_of-text_of }

abbrev pub text_key : KeyOrd String
text_key = record { beq = str_eq; less = λ a b. false }

unfoldable same_public : PublicKey → PublicKey → Bool
unfolding bytes_eq
same_public (ed25519 a) (ed25519 b) = bytes_eq a b
same_public (secp256k1 a) (secp256k1 b) = bytes_eq a b
same_public _ _ = false

same_public_iff : (a b : PublicKey) → (same_public a b ≡ true) ↔ (a ≡ b)
unfolding same_public
same_public_iff (ed25519 a) (ed25519 b) = ground (arith, bytes_eq_iff a b)
same_public_iff (ed25519 a) (secp256k1 b) = ground arith
same_public_iff (secp256k1 a) (ed25519 b) = ground arith
same_public_iff (secp256k1 a) (secp256k1 b) = ground (arith, bytes_eq_iff a b)

unfoldable same_key : TendermintKey → TendermintKey → Bool
unfolding same_public
same_key (account_key a) (account_key b) = same_public a b
same_key (consensus_key a) (consensus_key b) = same_public a b
same_key _ _ = false

same_key_iff : (a b : TendermintKey) → (same_key a b ≡ true) ↔ (a ≡ b)
unfolding same_key
same_key_iff (account_key a) (account_key b) = ground (arith, same_public_iff a b)
same_key_iff (account_key a) (consensus_key b) = ground arith
same_key_iff (consensus_key a) (account_key b) = ground arith
same_key_iff (consensus_key a) (consensus_key b) = ground (arith, same_public_iff a b)

unfoldable pub key_ord : KeyOrd TendermintKey
unfolding same_key
key_ord = record { beq = same_key; less = λ a b. false }

pub key_ord-IsKeyOrd : IsKeyOrd key_ord
unfolding key_ord
key_ord-IsKeyOrd = record { beq_iff = same_key_iff }

-- Every message has three bytes, and the key signs a message with itself.
abbrev pub codec : Codec
codec = record {
  proto_vote = λ v. some (1 ∷ 2 ∷ 3 ∷ []);
  proto_proposal = λ p. some (1 ∷ 2 ∷ 3 ∷ []);
  amino_vote = λ v. some (1 ∷ 2 ∷ 3 ∷ []);
  amino_proposal = λ p. some (1 ∷ 2 ∷ 3 ∷ []);
}

abbrev pub signer : Ed25519.Signer
signer = record {
  provider = soft_sign;
  public_key = consensus_key (ed25519 (9 ∷ []));
  signer = λ m. some m;
}

abbrev pub one_key : KeyRing
one_key = record { ecdsa_keys = []; ed25519_keys = (consensus_key (ed25519 (9 ∷ [])), signer) ∷ [] }

unfoldable pub env : Platform
unfolding key_ord
env = record { tendermint = crate; io = json; codec = codec; ids = text_key; keys = key_ord }

abbrev pub chain_at : ConsensusState → Chain
chain_at c = record {
  id = "hub";
  keyring = one_key;
  state = record { consensus_state = c; state_file_path = "hub.json" };
  poisoned = false;
}

abbrev pub kms_at : ConsensusState → Kms
kms_at c = record { registry = ("hub", chain_at c) ∷ []; files = λ path. some "seven" }

abbrev pub hub : ValidatorConfig
hub = record {
  addr = unix "hub.sock";
  chain_id = "hub";
  reconnect = true;
  timeout = none;
  secret_key = none;
  max_height = some 100;
  protocol_version = v0_34;
}

abbrev pub fair : Weather
fair = record {
  has_parent = true;
  readable = true;
  created = true;
  written = true;
  persisted = true;
}

pub env-HasIdEq : HasIdEq env.tendermint
unfolding env
env-HasIdEq = crate-HasIdEq

-- An encoder of nothing, and a hash that keeps the bytes of the name.
abbrev pub deaf : Wire
deaf = record {
  decode_message = λ b. none;
  decode_sign_vote = λ b. none;
  decode_sign_proposal = λ b. none;
  decode_pub_key = λ b. none;
  decode_ping = λ b. none;
  decode_varint = λ b. none;
  sha256 = λ b. b;
  name_bytes = λ s. 1 ∷ 0 ∷ 2 ∷ 3 ∷ 0 ∷ 4 ∷ 5 ∷ [];
  encode_message = λ s. some [];
  encode_signed_vote = λ r. some [];
  encode_signed_proposal = λ r. some [];
  encode_ping = some [];
  encode_public_key = λ r. some [];
}

pub env-IsKeyOrd : IsKeyOrd env.ids
unfolding env
env-IsKeyOrd = record { beq_iff = str_eq_iff }

pub text_key-IsKeyOrd : IsKeyOrd text_key
text_key-IsKeyOrd = record { beq_iff = str_eq_iff }

-- A Base64 that knows one secret.
abbrev pub base64 : Base64
base64 = record {
  encode = λ bytes. "KioqKg==";
  decode = λ text. if str_eq text "KioqKg==" then some (42 ∷ 42 ∷ 42 ∷ 42 ∷ []) else none;
}

abbrev pub key_files : Files
key_files path = some (record { text = "KioqKg=="; mode = secret_file_perms })

abbrev pub dalek : Dalek
dalek = record { is_secret = λ _. true; public_of = λ bytes. bytes }
