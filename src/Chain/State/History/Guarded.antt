-- ===== src/Chain/State/History/Guarded.antt =====
-- Lists of consensus states (src/chain/state.rs) of which each guards the earlier ones.
use tmkms.Prelude.{◌≡◌, sym, ap, ◌∙◌, subst, List, [], ◌∷◌, Memᴰ, All}
use tmkms.Tendermint.{ConsensusState}
use tmkms.Chain.State.Guards.{Guards, Guards-trans, SameStep}

-- Every granted state is guarded by all that were granted after it.
abbrev pub IsGuarded : List ConsensusState → Type 0
IsGuarded [] = Unit
IsGuarded (c ∷ cs) = All (Guards c) cs × IsGuarded cs

pub All-Guards :
    (new last : ConsensusState) (cs : List ConsensusState)
    → Guards new last
    → All (Guards last) cs
    → All (Guards new) cs
All-Guards new last [] g h = tt
All-Guards new last (c ∷ cs) g h = (Guards-trans new last c g h.0, All-Guards new last cs g h.1)

pub All-Memᴰ {ℓ κ} : {A : Type ℓ} {a : A} (P : A → Type κ) {l : List A} → All P l → Memᴰ a l → P a
All-Memᴰ P h (Memᴰ.head e) = subst P (sym e) h.0
All-Memᴰ P h (Memᴰ.tail m) = All-Memᴰ P h.1 m

SameStep-sym : (a b : ConsensusState) → SameStep a b → SameStep b a
SameStep-sym a b e = (sym e.0, sym e.1, sym e.2)

-- Two granted states of one step name the same block.
pub IsGuarded-agree :
    {a b : ConsensusState} {cs : List ConsensusState}
    → IsGuarded cs
    → Memᴰ a cs
    → Memᴰ b cs
    → SameStep a b
    → a.block_id ≡ b.block_id
IsGuarded-agree h (Memᴰ.head p) (Memᴰ.head q) e =
    ap (λ (c : ConsensusState). c.block_id) (p ∙ sym q)
IsGuarded-agree {a} {b} h (Memᴰ.head p) (Memᴰ.tail n) e =
    let g = subst (λ c. Guards c b) (sym p) (All-Memᴰ (Guards _) h.0 n) in
    sym (g.agree (SameStep-sym a b e))
IsGuarded-agree {a} {b} h (Memᴰ.tail m) (Memᴰ.head q) e =
    let g = subst (λ c. Guards c a) (sym q) (All-Memᴰ (Guards _) h.0 m) in g.agree e
IsGuarded-agree h (Memᴰ.tail m) (Memᴰ.tail n) e = IsGuarded-agree h.1 m n e
