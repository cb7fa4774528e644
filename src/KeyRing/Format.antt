-- ===== src/KeyRing/Format.antt =====
-- src/keyring/format.rs: how the keys of a chain are printed. The encodings are those of the crates
-- subtle_encoding, tendermint and cosmrs.
use tmkms.Prelude.{String}
use tmkms.Tendermint.{Bytes}
use tmkms.KeyRing.Keys.{PublicKey, TendermintKey, account_key, consensus_key}

pub data Format : Type 0 where
  -- the prefixes of account keys and of consensus keys
  bech32 : String → String → Format
  cosmos_json hex : Format

-- What the crates print
pub record Printer : Type 0 where
  pub account_id : PublicKey → Bytes
  pub bech32_encode : String → Bytes → String
  pub to_bech32 : PublicKey → String → String
  pub to_json : PublicKey → String
  pub to_hex : TendermintKey → String

-- `TendermintKey::public_key`
pub public_key : TendermintKey → PublicKey
public_key (account_key pk) = pk
public_key (consensus_key pk) = pk

unfoldable pub serialize : Printer → Format → TendermintKey → String
unfolding public_key
serialize p (bech32 account_key_prefix consensus_key_prefix) (account_key pk) =
    p.bech32_encode account_key_prefix (p.account_id pk)
serialize p (bech32 account_key_prefix consensus_key_prefix) (consensus_key pk) =
    p.to_bech32 pk consensus_key_prefix
serialize p cosmos_json key = p.to_json (public_key key)
serialize p hex key = p.to_hex key
