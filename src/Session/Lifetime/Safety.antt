-- ===== src/Session/Lifetime/Safety.antt =====
-- No two conflicting signatures leave the program in its whole life (src/session.rs, src/chain.rs,
-- src/chain/state.rs).
use tmkms.Prelude.{
  ℕ, ◌≡◌, refl, sym, subst, String, List, [], All, Memᴰ, arith, Outcome, ok, err, panic,
}
use tmkms.Error.{ErrorKind}
use tmkms.Tendermint.{ConsensusState}
use tmkms.Map.{IsKeyOrd}
use tmkms.Config.Validator.{ValidatorConfig}
use tmkms.Chain.State.{Disk}
use tmkms.Chain.State.Guards.{HasIdEq, SameStep}
use tmkms.Chain.State.History.Guarded.{IsGuarded-agree, All-Memᴰ}
use tmkms.Chain.State.History.Invariant.{RoundTrips}
use tmkms.Chain.Registry.{get_chain}
use tmkms.Chain.Load.{Boot, KmsConfig}
use tmkms.Chain.Load.Guarded.{IsLocated, BootGuards, none-DiskGuards, load_config-Guards}
use tmkms.Providers.Load.{Backends}
use tmkms.Session.{Platform, Kms, parse_request}
use tmkms.Session.Cases.{respond_keeps}
use tmkms.Session.Interleave.{signable_request, System, update, Step, read, lock, answer, again}
use tmkms.Session.Interleave.Backed.{IsBacked, Inv, started-Inv}
use tmkms.Session.Interleave.Safety.{Step-Inv}
use tmkms.Session.Lifetime.{loaded, off, load, boot_step, session, boot, Life, born, later}
use tmkms.Session.Lifetime.Saved.{KmsGuards, update-Guards}

module _ (env : Platform) (default_path : String → String) (lawful : HasIdEq env.tendermint)
    (keyed : IsKeyOrd env.ids) (trips : RoundTrips env.io) (path_of : String → String)
    (distinct : (a b : String) → path_of a ≡ path_of b → a ≡ b) where
  abbrev IsKept : System → Type 0
  IsKept s = KmsGuards env default_path lawful keyed trips path_of distinct s.granted s.kms

  off-IsKept : (files : String → Disk) → IsKept (off files)
  unfolding get_chain
  off-IsKept files = record {
    disks = λ id. none-DiskGuards env.io env.tendermint [] (files (path_of id)) refl;
    states = λ id s h. cc h;
  }

  Step-IsKept :
      {configs : ℕ → ValidatorConfig} {s t : System} → Step env configs s t → IsKept s → IsKept t
  Step-IsKept (read i r h) g = g
  Step-IsKept {configs} {s} (lock i w r h) g =
      update-Guards env default_path lawful keyed trips path_of distinct w (configs i) r s.kms
        s.granted g (update env w (configs i) r s.kms).0 (parse_request env.tendermint r) refl refl
  Step-IsKept {configs} {s} (answer i w r chain remote h) g =
      subst (KmsGuards env default_path lawful keyed trips path_of distinct s.granted)
        (sym (respond_keeps env w (configs i) chain r remote s.kms)) g
  Step-IsKept (again i out h) g = g

  module _ {D Client : Type 0} (b : Backends D Client) (config : KmsConfig)
      (located : All (IsLocated default_path path_of) config.chain) (s : System) where
    loaded-IsKept :
        (granted : String → List ConsensusState) (out : Outcome ErrorKind (Unit {0}))
        (at_start : Boot)
        → BootGuards env.io env.tendermint default_path env.ids keyed path_of distinct granted
            at_start
        → BootGuards env.io env.tendermint default_path env.ids keyed path_of distinct granted
            (record at_start { registry = loaded out at_start.registry })
    unfolding loaded get_chain
    loaded-IsKept granted (ok _) at_start g = g
    loaded-IsKept granted (err e) at_start g = record { disks = g.disks; states = λ id s h. cc h }
    loaded-IsKept granted (panic p) at_start g = record { disks = g.disks; states = λ id s h. cc h }

    boot-IsKept : IsKept s → IsKept (boot_step env default_path b config s)
    unfolding load
    boot-IsKept g = loaded-IsKept s.granted _ _ (
        load_config-Guards env.io env.tendermint default_path env.ids keyed path_of distinct
          s.granted b env.keys config s.kms.files located g.disks)

    boot-Inv :
        (configs : ℕ → ValidatorConfig)
        → IsKept s
        → Inv env configs s
        → Inv env configs (boot_step env default_path b config s)
    unfolding IsBacked
    boot-Inv configs g v =
        let kept = boot-IsKept g in
        record {
          covers = λ validator. record {
            guarded = (v.covers validator).guarded;
            held = λ chain found.
                (kept.states validator.chain_id chain.state (ground (arith, found))).guards;
          };
          backed = λ i. tt;
          within = v.within;
        }

  module _ {D Client : Type 0} {configs : ℕ → ValidatorConfig} where
    Life-Inv :
        {s t : System}
        → Life env default_path D Client path_of configs s t
        → IsKept s
        → Inv env configs s
        → IsKept t × Inv env configs t
    Life-Inv born g v = (g, v)
    Life-Inv (later l (session step)) g v =
        let (g', v') = Life-Inv l g v in
        (Step-IsKept step g', Step-Inv env lawful keyed configs step v')
    Life-Inv (later {t} l (boot b config located)) g v =
        let (g', v') = Life-Inv l g v in
        (boot-IsKept b config located t g', boot-Inv b config located t configs g' v')

    -- No double signing in the whole life of the program: sessions of any chains run at the same
    -- time, the program stops at any moment and starts again, with whatever providers, hooks and
    -- failures of the disk, and over whatever files there were first. Of the consensus states that
    -- the votes and proposals signed under one chain ID ask for, two of the same height, round and
    -- step have the same block ID. It is assumed that `==` on block IDs and on chain IDs is
    -- equality, that a state that is printed to JSON is read back from it, that the configuration
    -- gives each chain the same state file at every start, that different chains have different
    -- files, and that nothing else writes them.
    pub lifetime_agree :
        {files : String → Disk} {s : System}
        → Life env default_path D Client path_of configs (off files) s
        → (id : String) (a b : ConsensusState) → Memᴰ a (s.signed id)
        → Memᴰ b (s.signed id)
        → SameStep a b
        → a.block_id ≡ b.block_id
    lifetime_agree {files} l id a b in_a in_b =
        let kms : Kms = record { registry = []; files = files } in
        let (_, v) = Life-Inv l (off-IsKept files) (started-Inv env configs kms) in
        let covered = v.covers (record (configs 0) { chain_id = id }) in
        IsGuarded-agree covered.guarded (All-Memᴰ _ (v.within id) in_a)
          (All-Memᴰ _ (v.within id) in_b)
