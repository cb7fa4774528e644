-- ===== src/Config/Validator.antt =====
-- src/config/validator.rs
use tmkms.Prelude.{ℕ, String, Bool, true, false, Option}

pub data ProtocolVersion : Type 0 where
  v0_34 v0_33 legacy : ProtocolVersion

unfoldable pub is_protobuf : ProtocolVersion → Bool
is_protobuf v0_33 = false
is_protobuf legacy = false
is_protobuf v0_34 = true

-- `net::Address`; a TCP address may name the peer that is expected
pub data Address : Type 0 where
  tcp : Option String → String → ℕ → Address
  unix : String → Address

pub record ValidatorConfig : Type 0 where
  pub addr : Address
  pub chain_id : String
  pub reconnect : Bool
  pub timeout : Option ℕ
  pub secret_key : Option String
  pub max_height : Option ℕ
  pub protocol_version : ProtocolVersion
