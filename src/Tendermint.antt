-- ===== src/Tendermint.antt =====
-- The types of the tendermint crate as the program builds them by struct literals, and the calls of
-- that crate which the program makes, as the fields of a record that the models take.
use tmkms.Prelude.{ℕ, Bool, Option, List}
use tmkms.Prelude.Int.{ℤ}

abbrev pub Bytes : Type 0
Bytes = List ℕ

-- `Hash::Sha256([u8; 32])`, the only form that the program builds
pub data Hash : Type 0 where
  sha256 : Bytes → Hash

-- `block::parts::Header`
pub record Header : Type 0 where
  pub total : ℕ
  pub hash : Hash

-- `block::Id`
pub record TendermintBlockId : Type 0 where
  pub hash : Hash
  pub part_set_header : Header

-- `consensus::State`; heights and rounds are unsigned, the step is signed
pub record ConsensusState : Type 0 where
  pub height : ℕ
  pub round : ℕ
  pub step : ℤ
  pub block_id : Option TendermintBlockId

pub record Tendermint : Type 0 where
  pub id_eq : TendermintBlockId → TendermintBlockId → Bool  -- `==` on `block::Id`
  pub height_try_from : ℤ → Option ℕ  -- `block::Height::try_from(i64)`
  pub header_new : ℕ → Hash → Option Header  -- `parts::Header::new`
  pub default_state : ConsensusState  -- `consensus::State::default()`
