-- ===== src/Amino/BlockId/Laws.antt =====
-- What validation and conversion of block IDs (src/amino_types/block_id.rs) do.
use tmkms.Prelude.{◌<◌, ◌^◌, ◌≡◌, ◌↔◌, ◌⊎◌, Option, none, some, [], arith, length}
use tmkms.Prelude.Int.{pos, ◌≤ℤ◌, ◌<ℤ◌}
use tmkms.Tendermint.{Bytes, Tendermint}
use tmkms.Amino.Messages.{PartsSetHeader, BlockId}
use tmkms.Amino.Messages.Proto
use tmkms.Amino.BlockId.{
  parse_block_id, validate_parts_header, validate_block_id, from_proto_block_id, to_proto_block_id,
}

-- A hash is left empty or is a SHA-256 hash.
abbrev pub IsHash : Bytes → Type 0
IsHash h = (h ≡ []) ⊎ (length h ≡ 32)

abbrev pub IsPartsHeader : PartsSetHeader → Type 0
IsPartsHeader p = (pos 0 ≤ℤ p.total) × IsHash p.hash

abbrev pub IsParts : Option PartsSetHeader → Type 0
IsParts none = Unit
IsParts (some p) = IsPartsHeader p

abbrev pub IsBlockId : BlockId → Type 0
IsBlockId b = IsHash b.hash × IsParts b.parts_header

parts_iff : (p : PartsSetHeader) → (validate_parts_header p ≡ none) ↔ IsPartsHeader p
unfolding validate_parts_header
parts_iff p = ((λ h. ground arith), (λ h. ground arith))

-- A block ID passes validation exactly if its hash and that of its parts header are empty or 32 bytes
-- long, and the total of the parts header is not negative.
pub validate_block_id_iff : (b : BlockId) → (validate_block_id b ≡ none) ↔ IsBlockId b
unfolding validate_block_id
validate_block_id_iff b = ((λ h. ground arith), (λ h. ground arith))

abbrev pub FitsU32 : Option PartsSetHeader → Type 0
FitsU32 none = Unit
FitsU32 (some p) = (pos 0 ≤ℤ p.total) × (p.total <ℤ pos (2 ^ 32))

abbrev pub IsU32 : Option Proto.PartSetHeader → Type 0
IsU32 none = Unit
IsU32 (some p) = p.total < 2 ^ 32

-- A block ID taken over from protobuf and given back is the same, if the total of its parts is a
-- u32.
pub to_proto-from_proto :
    (b : Proto.BlockId) → IsU32 b.part_set_header → to_proto_block_id (from_proto_block_id b) ≡ b
unfolding to_proto_block_id from_proto_block_id
to_proto-from_proto b h = ground arith

pub from_proto-to_proto :
    (b : BlockId) → FitsU32 b.parts_header → from_proto_block_id (to_proto_block_id b) ≡ b
unfolding to_proto_block_id from_proto_block_id
from_proto-to_proto b h = ground arith

-- A valid block ID that names a block and has no parts header cannot be parsed.
pub parse_block_id-no_parts :
    (t : Tendermint) (b : BlockId) → b.parts_header ≡ none → parse_block_id t b ≡ none
unfolding parse_block_id
parse_block_id-no_parts t b h = ground arith
