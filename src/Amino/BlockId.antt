-- ===== src/Amino/BlockId.antt =====
-- src/amino_types/block_id.rs, time.rs and validate.rs: block IDs in their wire forms, parsed,
-- validated and converted.
pub mod Laws
use tmkms.Prelude.{
  ℕ, ◌^◌, Bool, true, false, not, ◌&&◌, Option, none, some, ◌==◌, length, is_empty, map_option,
  and_then, if◌then◌else◌,
}
use tmkms.Prelude.Int.{ℤ, pos, ltb_ℤ, cast_unsigned}
use tmkms.Tendermint.{Bytes, Hash, sha256, Header, TendermintBlockId, Tendermint}
use tmkms.Amino.Messages.{
  PartsSetHeader, BlockId, CanonicalPartSetHeader, CanonicalBlockId, TimeMsg,
}
use tmkms.Amino.Messages.Proto

-- `validate::Error`
pub data ValidationError : Type 0 where
  invalid_message_type missing_consensus_message negative_height negative_round : ValidationError
  negative_pol_round negative_validator_index invalid_validator_address_size : ValidationError
  invalid_hash_size negative_total : ValidationError

abbrev pub sha256_hash_size : ℕ
sha256_hash_size = 32

-- `bytes.try_into()` into `[u8; 32]` succeeds exactly for 32 bytes
unfoldable pub parse_sha256_hash : Bytes → Option Hash
parse_sha256_hash bytes = if length bytes == 32 then some (sha256 bytes) else none

-- `total as u32` of an i64
abbrev pub as_u32 : ℤ → ℕ
as_u32 = cast_unsigned (2 ^ 32)

module _ (t : Tendermint) where
  unfoldable pub parse_parts_header : PartsSetHeader → Option Header
  unfolding parse_sha256_hash
  parse_parts_header p =
      and_then (parse_sha256_hash p.hash) (λ hash. t.header_new (as_u32 p.total) hash)

  unfoldable pub parse_block_id : BlockId → Option TendermintBlockId
  unfolding parse_sha256_hash parse_parts_header
  parse_block_id b = and_then (parse_sha256_hash b.hash) (λ hash.
      and_then (and_then b.parts_header parse_parts_header)
        (λ header. some (record { hash = hash; part_set_header = header })))

-- `Result<(), validate::Error>` is the error, if any.
unfoldable pub validate_parts_header : PartsSetHeader → Option ValidationError
validate_parts_header p =
    if ltb_ℤ p.total (pos 0)
    then some negative_total
    else if not (is_empty p.hash) && not (length p.hash == sha256_hash_size)
    then some invalid_hash_size
    else none

unfoldable pub validate_block_id : BlockId → Option ValidationError
unfolding validate_parts_header
validate_block_id b =
    if not (is_empty b.hash) && not (length b.hash == sha256_hash_size)
    then some invalid_hash_size
    else and_then b.parts_header validate_parts_header

unfoldable pub from_proto_block_id : Proto.BlockId → BlockId
from_proto_block_id b = record {
  hash = b.hash;
  parts_header =
      map_option (λ psh. record { total = pos psh.total; hash = psh.hash }) b.part_set_header;
}

unfoldable pub to_proto_block_id : BlockId → Proto.BlockId
to_proto_block_id b = record {
  hash = b.hash;
  part_set_header =
      map_option (λ psh. record { total = as_u32 psh.total; hash = psh.hash }) b.parts_header;
}

-- The amino canonical form, which `CanonicalVote::new` and the proposal's `sign_bytes` build.
unfoldable pub canonical_block_id : BlockId → CanonicalBlockId
canonical_block_id b = record {
  hash = b.hash;
  parts_header = map_option (λ psh. record { hash = psh.hash; total = psh.total }) b.parts_header;
}

-- The protobuf canonical form: a block ID without a hash is left out.
unfoldable pub proto_canonical_block_id : Option BlockId → Option Proto.CanonicalBlockId
proto_canonical_block_id none = none
proto_canonical_block_id (some x) =
    if is_empty x.hash
    then none
    else some (record {
      hash = x.hash;
      part_set_header =
          map_option (λ y. record { total = as_u32 y.total; hash = y.hash }) x.parts_header;
    })

unfoldable pub from_proto_timestamp : Proto.Timestamp → TimeMsg
from_proto_timestamp ts = record { seconds = ts.seconds; nanos = ts.nanos }

unfoldable pub to_proto_timestamp : TimeMsg → Proto.Timestamp
to_proto_timestamp ts = record { seconds = ts.seconds; nanos = ts.nanos }
