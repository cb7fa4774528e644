-- ===== src/TxSigner/Run/Safety.antt =====
-- What the signer (src/tx_signer.rs) sends while it runs, and how far its sequence number goes.
use tmkms.Prelude.{
  ℕ, zero, suc, ◌+◌, ◌*◌, ◌≤◌, ◌≡◌, refl, sym, subst, arith, ◌⊎◌, inl, inr, Option, none, some,
  List, [], ◌∷◌, All, length, Outcome, ok, err, panic,
}
use tmkms.Error.{ErrorKind}
use tmkms.Config.TxSigner.{TxSignerConfig}
use tmkms.TxSigner.SequenceFile
use tmkms.TxSigner.Source
use tmkms.TxSigner.Source.{Json}
use tmkms.TxSigner.Broadcast.{Signer}
use tmkms.TxSigner.Broadcast.Safety.{
  IsAuthorized, SendsAuthorized, request-SendsAuthorized, request-InWindow,
}
use tmkms.TxSigner.Run.{
  Fixed, Crates, new, opened, made, blocks_of, first_block, Turn, Turned, still_waiting, no_height,
  asked, died, params, request_at, after_request, at_height, waited, turn, loop, run,
}

module _ (fixed : Fixed) (json : Json) where
  -- A turn leaves the signer alone, or makes one request.
  Comes : Turn → Signer → Turned → Type 0
  Comes t s still_waiting = Unit
  Comes t s no_height = Unit
  Comes t s (asked h next s') = s' ≡ (request_at fixed json h t s).1
  Comes t s (died p s') = (s' ≡ s) ⊎ ((h : ℕ) × (s' ≡ (request_at fixed json h t s).1))

  after_request-Comes :
      (h next : ℕ) (t : Turn) (s : Signer) (r : Outcome ErrorKind (Unit {0}) × Signer)
      → r ≡ request_at fixed json h t s
      → Comes t s (after_request fixed json h next r)
  unfolding after_request Comes
  after_request-Comes h next t s (ok _, s') same = cc same
  after_request-Comes h next t s (err e, s') same = cc same
  after_request-Comes h next t s (panic p, s') same = inr (h, cc same)

  at_height-Comes :
      (h : ℕ) (next : Outcome ErrorKind ℕ) (t : Turn) (s : Signer)
      → Comes t s (at_height fixed json h next t s)
  unfolding at_height Comes
  at_height-Comes h (ok next) t s =
      after_request-Comes h next t s (request_at fixed json h t s) refl
  at_height-Comes h (err e) t s = tt
  at_height-Comes h (panic p) t s = inl refl

  waited-Comes :
      (w : Option (Outcome ErrorKind ℕ)) (t : Turn) (s : Signer)
      → Comes t s (waited fixed json w t s)
  unfolding waited Comes
  waited-Comes none t s = tt
  waited-Comes (some (ok h)) t s = at_height-Comes h _ t s
  waited-Comes (some (err e)) t s = tt
  waited-Comes (some (panic p)) t s = inl refl

  turn-Comes : (next : ℕ) (t : Turn) (s : Signer) → Comes t s (turn fixed json next t s)
  unfolding turn
  turn-Comes next t s = waited-Comes _ t s

  -- What each request keeps, counted by the turns, is kept by the loop.
  module _ (Q : ℕ → Signer → Type 0)
      (step : (k : ℕ) (s : Signer) (t : Turn) (h : ℕ)
        → Q k s
        → Q (k + 1) (request_at fixed json h t s).1)
      (wait : (k : ℕ) (s : Signer) → Q k s → Q (k + 1) s) where
    stays : (k n : ℕ) (s : Signer) → Q k s → Q (k + n) s
    stays k zero s q = subst (λ m. Q m s) (omega arith) q
    stays k (suc n) s q = subst (λ m. Q m s) (omega arith) (stays (k + 1) n s (wait k s q))

    loop_turn-keeps :
        (k next : ℕ) (t : Turn) (ts : List Turn) (s : Signer) (d : Turned)
        → turn fixed json next t s ≡ d
        → Comes t s d
        → ((next' : ℕ) (s' : Signer)
            → Q (k + 1) s'
            → Q (k + 1 + length ts) (loop fixed json next' ts s').signer)
        → Q k s
        → Q (k + 1 + length ts) (loop fixed json next (t ∷ ts) s).signer
    unfolding loop Comes
    loop_turn-keeps k next t ts s still_waiting h c rest q =
        rw (loop, h) (stays (k + 1) _ s (wait k s q))
    loop_turn-keeps k next t ts s no_height h c rest q = rw (loop, h) (rest next s (wait k s q))
    loop_turn-keeps k next t ts s (asked height next' s') h c rest q =
        rw (loop, h) (rest next' s' (subst (Q (k + 1)) (sym c) (step k s t height q)))
    loop_turn-keeps k next t ts s (died p s') h (inl same) rest q =
        rw (loop, h) (stays (k + 1) _ s' (subst (Q (k + 1)) (sym same) (wait k s q)))
    loop_turn-keeps k next t ts s (died p s') h (inr (height, same)) rest q =
        rw (loop, h) (stays (k + 1) _ s' (subst (Q (k + 1)) (sym same) (step k s t height q)))

    loop-keeps :
        (k next : ℕ) (ts : List Turn) (s : Signer)
        → Q k s
        → Q (k + length ts) (loop fixed json next ts s).signer
    unfolding loop
    loop-keeps k next [] s q = subst (λ m. Q m s) (omega arith) q
    loop-keeps k next (t ∷ ts) s q =
        subst (λ m. Q m (loop fixed json next (t ∷ ts) s).signer) (omega arith)
          (loop_turn-keeps k next t ts s (turn fixed json next t s) refl (turn-Comes next t s)
            (λ next' s' q'. loop-keeps (k + 1) next' ts s' q') q)

    run_keeps :
        (answers : List (Option ℕ)) (ts : List Turn) (s : Signer)
        → Q 0 s
        → Q (0 + length ts) (run fixed json answers ts s).signer
    unfolding run
    run_keeps answers ts s q =
        started_keeps (first_block (blocks_of fixed.poll_interval) answers) refl
      where
        started_keeps :
            (first : Option (Outcome ErrorKind ℕ))
            → first_block (blocks_of fixed.poll_interval) answers ≡ first
            → Q (0 + length ts) (run fixed json answers ts s).signer
        started_keeps none h = rw (run, h) (stays 0 _ s q)
        started_keeps (some (ok next)) h = rw (run, h) (loop-keeps 0 next ts s q)
        started_keeps (some (err e)) h = rw (run, h) (stays 0 _ s q)
        started_keeps (some (panic p)) h = rw (run, h) (stays 0 _ s q)

  -- While the signer runs, whatever the node and the service answer and however the disk behaves, the
  -- sequence number never goes back, and it advances by three at most in each turn of the loop.
  pub run-InWindow :
      (answers : List (Option ℕ)) (ts : List Turn) (s : Signer)
      → (s.seq_file.sequence ≤ (run fixed json answers ts s).signer.seq_file.sequence)
        × ((run fixed json answers ts s).signer.seq_file.sequence
            ≤ s.seq_file.sequence + 3 * length ts)
  unfolding request_at
  run-InWindow answers ts s =
      let (back, forth) =
        run_keeps
          (λ k r.
            (s.seq_file.sequence ≤ r.seq_file.sequence)
            × (r.seq_file.sequence ≤ s.seq_file.sequence + 3 * k))
          request_moves (λ k r q. (q.0, omega (arith, q.1))) answers ts s
          (omega arith, omega arith) in
      (back, omega (arith, forth))
    where
      request_moves :
          (k : ℕ) (r : Signer) (t : Turn) (h : ℕ)
          → (s.seq_file.sequence ≤ r.seq_file.sequence)
            × (r.seq_file.sequence ≤ s.seq_file.sequence + 3 * k)
          → (s.seq_file.sequence ≤ (request_at fixed json h t r).1.seq_file.sequence)
            × ((request_at fixed json h t r).1.seq_file.sequence
                ≤ s.seq_file.sequence + 3 * (k + 1))
      request_moves k r t h q =
          let w =
            request-InWindow fixed.setup (Source.request json t.service (params fixed json h r))
              t.first t.second t.third r in
          (omega (arith, w.0, q.0), omega (arith, w.1, q.1))

  run-SendsAuthorized :
      (answers : List (Option ℕ)) (ts : List Turn) (s : Signer)
      → SendsAuthorized fixed.setup s
      → SendsAuthorized fixed.setup (run fixed json answers ts s).signer
  unfolding request_at
  run-SendsAuthorized = run_keeps (λ _. SendsAuthorized fixed.setup) request_sends (λ k s q. q)
    where
      request_sends :
          (k : ℕ) (s : Signer) (t : Turn) (h : ℕ)
          → SendsAuthorized fixed.setup s
          → SendsAuthorized fixed.setup (request_at fixed json h t s).1
      request_sends k s t h q = request-SendsAuthorized fixed.setup _ t.first t.second t.third s q

-- What a signer takes over from its configuration.
pub new_lem :
    (crates : Crates) (w : SequenceFile.Weather) (config : TxSignerConfig)
    (disk : SequenceFile.Disk) (fixed : Fixed) (s : Signer)
    → (new crates w config disk).0 ≡ ok (fixed, s)
    → (fixed.setup.acl ≡ config.acl.msg_type)
      × (s.sent ≡ [])
      × (fixed.poll_interval ≡ config.poll_interval)
unfolding new opened made
new_lem crates w config disk fixed s h = ground arith

-- A signer that was made from a configuration sends, while it runs, only transactions whose message
-- the access control list of the configuration authorizes and which the key of its account has
-- signed, whatever the node and the service answer.
pub new_runs-SendsAuthorized :
    (crates : Crates) (w : SequenceFile.Weather) (config : TxSignerConfig)
    (disk : SequenceFile.Disk) (fixed : Fixed) (s : Signer)
    → (new crates w config disk).0 ≡ ok (fixed, s)
    → (json : Json) (answers : List (Option ℕ)) (ts : List Turn)
    → (fixed.setup.acl ≡ config.acl.msg_type)
      × SendsAuthorized fixed.setup (run fixed json answers ts s).signer
new_runs-SendsAuthorized crates w config disk fixed s h json answers ts =
    let (listed, none_sent, _) = new_lem crates w config disk fixed s h in
    (
      listed,
      run-SendsAuthorized fixed json answers ts s
          (subst (All (IsAuthorized fixed.setup)) (sym none_sent) tt),
    )
