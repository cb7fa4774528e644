-- ===== src/Examples/Conversions.antt =====
-- Conversions of messages, and `ledger init`: src/amino_types/ and src/commands/ledger.rs.
use tmkms.Prelude.{◌≡◌, refl, arith, some, none, [], ◌∷◌}
use tmkms.Prelude.Int.{pos}
use tmkms.Tendermint.{sha256, TendermintBlockId}
use tmkms.Amino.Messages.{Vote}
use tmkms.Amino.SignedMsg.{pre_vote}
use tmkms.Amino.Vote.{vote_consensus_state, vote_msg_type}
use tmkms.Amino.Convert.{TendermintVote, prevote, from_vote, from_block_id}
use tmkms.Amino.Convert.Laws.{IsProper, from_vote-state}
use tmkms.Commands.Ledger.{InitCommand}
use tmkms.Examples.Setup.{crate}

abbrev block : TendermintBlockId
block = record {
  hash = sha256 (
      1 ∷ 2 ∷ 3 ∷ 4 ∷ 5 ∷ 6 ∷ 7 ∷ 8 ∷ 9 ∷ 10 ∷ 11 ∷ 12 ∷ 13 ∷ 14 ∷ 15 ∷ 16 ∷ 17 ∷ 18 ∷ 19 ∷ 20 ∷ 21
      ∷ 22 ∷ 23 ∷ 24 ∷ 25 ∷ 26 ∷ 27 ∷ 28 ∷ 29 ∷ 30 ∷ 31 ∷ 32 ∷ []);
  part_set_header = record {
    total = 2;
    hash = sha256 (
        1 ∷ 2 ∷ 3 ∷ 4 ∷ 5 ∷ 6 ∷ 7 ∷ 8 ∷ 9 ∷ 10 ∷ 11 ∷ 12 ∷ 13 ∷ 14 ∷ 15 ∷ 16 ∷ 17 ∷ 18 ∷ 19 ∷ 20
        ∷ 21 ∷ 22 ∷ 23 ∷ 24 ∷ 25 ∷ 26 ∷ 27 ∷ 28 ∷ 29 ∷ 30 ∷ 31 ∷ 33 ∷ []);
  };
}

abbrev cast : TendermintVote
cast = record {
  vote_type = prevote;
  height = 7;
  round = 3;
  block_id = some block;
  timestamp = some (some (1_600_000_000, 5));
  validator_address = [];
  validator_index = 0;
  signature = none;
}

abbrev message : Vote
message = record {
  vote_type = 1;
  height = pos 7;
  round = pos 3;
  block_id = some (from_block_id block);
  timestamp = some (record { seconds = pos 1_600_000_000; nanos = pos 5 });
  validator_address = [];
  validator_index = pos 0;
  signature = [];
}

block-IsProper : IsProper crate block
unfolding crate
block-IsProper = record { hash = refl; parts_hash = refl; total = omega arith; accepted = refl }

from_vote-state_example :
    (vote_consensus_state crate message
      ≡ some (record { height = 7; round = 3; step = pos 6; block_id = some block }))
    × (vote_msg_type message ≡ some pre_vote)
unfolding from_vote crate
from_vote-state_example =
    from_vote-state crate cast message refl (omega arith) (omega arith) refl block-IsProper

abbrev command : InitCommand
command = record { height = some (pos 7); round = some (pos 0) }
