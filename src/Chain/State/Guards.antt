-- ===== src/Chain/State/Guards.antt =====
-- What the guards of `update_consensus_state` (src/chain/state.rs) let through: an order on consensus
-- states, and the agreement on block IDs that goes with it.
use tmkms.Prelude.{
  ◌<◌, ◌≡◌, refl, ◌↔◌, ◌⊎◌, inr, true, Option, none, some, arith, ◌∙◌, Option-cases,
}
use tmkms.Prelude.Int.{◌<ℤ◌, eq_of_parts}
use tmkms.Tendermint.{TendermintBlockId, ConsensusState, Tendermint}
use tmkms.Chain.State.{block_id_eq, refuse}

-- The documented behaviour of the derived `==` on `block::Id`.
pub record HasIdEq (t : Tendermint) : Type 0 where
  pub id_eq_iff : (a b : TendermintBlockId) → (t.id_eq a b ≡ true) ↔ (a ≡ b)

-- Height, round and step, compared in this order.
abbrev pub Precedes : ConsensusState → ConsensusState → Type 0
Precedes a b =
    (a.height < b.height)
    ⊎ ((a.height ≡ b.height) × ((a.round < b.round) ⊎ ((a.round ≡ b.round) × (a.step <ℤ b.step))))

abbrev pub SameStep : ConsensusState → ConsensusState → Type 0
SameStep a b = (a.height ≡ b.height) × (a.round ≡ b.round) × (a.step ≡ b.step)

-- After `last`, `new` may be signed: it is later and, in the same round, no two block IDs are named,
-- or it repeats height, round and step with the same block ID.
abbrev pub Allowed : ConsensusState → ConsensusState → Type 0
Allowed new last =
    (last.height < new.height)
    ⊎ ((last.height ≡ new.height)
        × ((last.round < new.round)
            ⊎ ((last.round ≡ new.round)
                × (((last.step <ℤ new.step)
                      × ((new.block_id ≡ last.block_id)
                          ⊎ ((new.block_id ≡ none) ⊎ (last.block_id ≡ none))))
                    ⊎ ((last.step ≡ new.step) × (new.block_id ≡ last.block_id))))))

-- `new` protects `old`: it is no earlier, and agrees with it on the block ID of one step.
pub record Guards (new old : ConsensusState) : Type 0 where
  pub order : Precedes old new ⊎ SameStep old new
  pub agree : SameStep old new → old.block_id ≡ new.block_id

module _ (t : Tendermint) (lawful : HasIdEq t) where
  pub block_id_eq_iff : (a b : Option TendermintBlockId) → (block_id_eq t a b ≡ true) ↔ (a ≡ b)
  block_id_eq_iff none none = ground arith
  block_id_eq_iff none (some b) = ground arith
  block_id_eq_iff (some a) none = ground arith
  block_id_eq_iff (some a) (some b) = ground (arith, lawful.id_eq_iff a b)

pub Guards-refl : (a : ConsensusState) → Guards a a
Guards-refl a = record { order = inr (refl, refl, refl); agree = λ _. refl }

-- What lies between two states of one step is of that step.
SameStep-between :
    (a b c : ConsensusState)
    → Precedes b a ⊎ SameStep b a
    → Precedes c b ⊎ SameStep c b
    → SameStep c a
    → SameStep c b × SameStep b a
SameStep-between a b c p q e =
    ground (arith, eq_of_parts c.step b.step, eq_of_parts b.step a.step, eq_of_parts c.step a.step)

pub Guards-trans : (a b c : ConsensusState) → Guards a b → Guards b c → Guards a c
Guards-trans a b c p q = record {
  order = ground (arith, p.order, q.order, eq_of_parts a.step b.step);
  agree = λ e.
      let between = SameStep-between a b c p.order q.order e in
      q.agree between.0 ∙ p.agree between.1;
}

pub Allowed-Guards : (new last : ConsensusState) → Allowed new last → Guards new last
Allowed-Guards new last h = record { order = ground arith; agree = λ e. ground arith }

-- The guards of `update_consensus_state` raise no error exactly for the states that may be signed
-- after the last one, if `==` on block IDs is equality.
pub refuse_iff_Allowed :
    (t : Tendermint)
    → HasIdEq t
    → (new last : ConsensusState) → (refuse t new last ≡ none) ↔ Allowed new last
unfolding refuse
refuse_iff_Allowed t lawful new last = (
  (λ h. ground (
    arith,
    block_id_eq_iff t lawful new.block_id last.block_id,
    eq_of_parts last.step new.step,
    Option-cases new.block_id,
    Option-cases last.block_id,
  )),
  (λ h. ground (arith, block_id_eq_iff t lawful new.block_id last.block_id)),
)
