-- ===== src/Examples/Lives.antt =====
-- The program signs, is started again, and signs once more: src/session.rs and src/chain.rs.
use tmkms.Prelude.{◌≡◌, refl, some, [], ◌∷◌, Memᴰ}
use tmkms.Map.{get, put, values}
use tmkms.KeyRing
use tmkms.KeyRing.{sign_ed25519, add_ed25519}
use tmkms.KeyUtils.{load_base64_ed25519_key, load_base64_secret}
use tmkms.Chain.State
use tmkms.Chain.State.{refuse, sync_to_disk, load_state}
use tmkms.Chain.Startup.{from_config, state_path}
use tmkms.Chain.Registry.{get_chain, register_chain, add_consensus_key}
use tmkms.Chain.Load.{KmsConfig, load_config}
use tmkms.Chain.Load.Keys.{software_only}
use tmkms.Providers.{add_consensus_keys}
use tmkms.Providers.Load
use tmkms.Providers.Softsign
use tmkms.Providers.Softsign.{init_consensus, load_ed25519_key, consensus_signer}
use tmkms.Providers.Yubihsm
use tmkms.Providers.Ledger
use tmkms.Providers.Fortanix
use tmkms.Tendermint.{Bytes}
use tmkms.Amino.BlockId.{parse_block_id}
use tmkms.Amino.Vote.{
  vote_request, vote_msg_type, vote_consensus_state, validate_vote, validate_vote_request,
  sign_vote_bytes, set_vote_signature, build_vote_response,
}
use tmkms.Session.{
  validated, check_max_height, parse_request, find_chain, update_consensus_state, locked_update,
  report, respond, store,
}
use tmkms.Session.Trace.{after_answer, is_signature}
use tmkms.Session.Interleave.{phase_after, after_update, System, check, update, read, lock, answer}
use tmkms.Session.Lifetime.{loaded, off, load, session, boot, Life, born, later}
use tmkms.Session.Lifetime.Safety.{lifetime_agree}
use tmkms.Examples.Setup.{
  env, env-HasIdEq, env-IsKeyOrd, json-RoundTrips, json, crate, nil_at, fair,
}
use tmkms.Examples.Keys.{backends, planned, soft, path_of}
use tmkms.Examples.Interleaved.{asking, hubs}

abbrev config : KmsConfig
config = record { chain = planned ∷ []; providers = software_only (soft ∷ []) }

abbrev Twice : System → Type 0
Twice s =
    Life env path_of Bytes (Unit {0}) path_of hubs (off (λ path. some "seven")) s
    × Memᴰ (nil_at 7) (s.signed "hub")

restarted : (s : System) × Twice s
unfolding check validated validate_vote_request validate_vote check_max_height update find_chain
    get_chain env update_consensus_state parse_request vote_msg_type vote_consensus_state crate
    locked_update report State.update_consensus_state refuse sync_to_disk json parse_block_id store
    respond put get sign_vote_bytes sign_ed25519 values set_vote_signature build_vote_response
    phase_after after_update after_answer is_signature load loaded load_config from_config
    load_state register_chain Load.load_config Softsign.init init_consensus load_ed25519_key
    load_base64_ed25519_key load_base64_secret add_consensus_keys add_consensus_key add_ed25519
    consensus_signer KeyRing.new Yubihsm.init Ledger.init Fortanix.init state_path
restarted =
    let one = later born (boot backends config (refl, tt)) in
    let two = later one (session (read 0 asking refl)) in
    let three = later two (session (lock 0 fair asking refl)) in
    let four = later three (session (answer 0 fair asking _ _ refl)) in
    let five = later four (boot backends config (refl, tt)) in
    let six = later five (session (read 1 asking refl)) in
    let seven = later six (session (lock 1 fair asking refl)) in
    let eight = later seven (session (answer 1 fair asking _ _ refl)) in
    (_, (eight, Memᴰ.head refl))

lifetime_agree_example : (nil_at 7).block_id ≡ (nil_at 7).block_id
unfolding env
lifetime_agree_example =
    lifetime_agree env path_of env-HasIdEq env-IsKeyOrd json-RoundTrips path_of (λ a b h. h)
      restarted.1.0 "hub" (nil_at 7) (nil_at 7) restarted.1.1 restarted.1.1 (refl, refl, refl)
