-- ===== src/TxSigner/Run/Pace.antt =====
-- How often the signer (src/tx_signer.rs) asks the service: never twice in one interval of blocks.
use tmkms.Prelude.{
  ℕ, ◌+◌, ◌%◌, ◌≤◌, ◌<◌, ◌≡◌, Bool, refl, subst, arith, inl, inr, Option, none, some, List, [], ◌∷◌,
  ◌++◌, Memᴰ, Outcome, ok, err, panic,
}
use tmkms.Error.{ErrorKind}
use tmkms.TxSigner.Source.{Json}
use tmkms.TxSigner.Blocks.{
  next_block_after, next_block_after-bounds, wait_until_block_height, wait-ok,
}
use tmkms.TxSigner.Broadcast.{Signer}
use tmkms.TxSigner.Run.{
  Fixed, blocks_of, min_secs_of, first_block, Turn, Turned, still_waiting, no_height, asked, died,
  request_at, after_request, at_height, waited, turn, loop, run,
}

-- The heights that the node reports do not go back, from a height on.
abbrev pub IsRising : ℕ → List (Option ℕ) → Type 0
IsRising from [] = Unit
IsRising from (none ∷ heights) = IsRising from heights
IsRising from (some h ∷ heights) = (from ≤ h) × IsRising h heights

-- All that the node reports while the loop runs.
unfoldable pub reported : List Turn → List (Option ℕ)
reported [] = []
reported (t ∷ ts) = t.polls ++ reported ts

-- After the height `h`, and not after `h'`, there is a multiple of the interval.
abbrev pub IsApart : ℕ → ℕ → ℕ → Type 0
IsApart interval h h' = (m : ℕ) × (m % interval ≡ 0) × (h < m) × (m ≤ h')

abbrev pub IsPaced : ℕ → List ℕ → Type 0
IsPaced interval [] = Unit
IsPaced interval (h ∷ []) = Unit
IsPaced interval (h ∷ h' ∷ hs) = IsApart interval h h' × IsPaced interval (h' ∷ hs)

-- The same, from a height before the first one.
IsPacedFrom : ℕ → ℕ → List ℕ → Type 0
IsPacedFrom interval h [] = Unit
IsPacedFrom interval h (h' ∷ hs) = IsApart interval h h' × IsPacedFrom interval h' hs

IsPacedFrom-IsPaced :
    (interval h : ℕ) (hs : List ℕ) → IsPacedFrom interval h hs → IsPaced interval hs
unfolding IsPacedFrom
IsPacedFrom-IsPaced interval h [] p = tt
IsPacedFrom-IsPaced interval h (h' ∷ []) p = tt
IsPacedFrom-IsPaced interval h (h' ∷ h'' ∷ hs) p =
    (p.1.0, IsPacedFrom-IsPaced interval h' (h'' ∷ hs) p.1)

lower-IsRising :
    (low high : ℕ) (hs : List (Option ℕ)) → low ≤ high → IsRising high hs → IsRising low hs
lower-IsRising low high [] le r = tt
lower-IsRising low high (none ∷ hs) le r = lower-IsRising low high hs le r
lower-IsRising low high (some h ∷ hs) le r = (omega (arith, le, r.0), r.1)

rest-IsRising :
    (low : ℕ) (hs rest : List (Option ℕ)) → IsRising low (hs ++ rest) → IsRising low rest
rest-IsRising low [] rest r = r
rest-IsRising low (none ∷ hs) rest r = rest-IsRising low hs rest r
rest-IsRising low (some h ∷ hs) rest r = lower-IsRising low h rest r.0 (rest-IsRising h hs rest r.1)

-- From a height that was reported on.
reported-IsRising :
    (low h : ℕ) (hs rest : List (Option ℕ))
    → IsRising low (hs ++ rest)
    → Memᴰ (some h) hs
    → (low ≤ h) × IsRising h rest
reported-IsRising low h [] rest r m = elim m [ ]
reported-IsRising low h (none ∷ hs) rest r (Memᴰ.head e) = cc e
reported-IsRising low h (none ∷ hs) rest r (Memᴰ.tail m) = reported-IsRising low h hs rest r m
reported-IsRising low h (some g ∷ hs) rest r (Memᴰ.head e) =
    let same : g ≡ h = cc e in
    subst (λ k. (low ≤ k) × IsRising k rest) same (r.0, rest-IsRising g hs rest r.1)
reported-IsRising low h (some g ∷ hs) rest r (Memᴰ.tail m) =
    let (above, rising) = reported-IsRising g h hs rest r.1 m in (omega (arith, above, r.0), rising)

module _ (fixed : Fixed) (json : Json) where
  abbrev interval : ℕ
  interval = blocks_of fixed.poll_interval

  abbrev fits : Turn → Bool
  fits t = t.deadline (min_secs_of fixed.poll_interval)

  -- The service is asked at a height for which the wait ended.
  Waited : ℕ → Turn → Turned → Type 0
  Waited target t (asked h next s) =
      (wait_until_block_height (fits t) interval target t.polls ≡ some (ok h))
      × (next_block_after interval h ≡ ok next)
  Waited target t still_waiting = Unit
  Waited target t no_height = Unit
  Waited target t (died p s) = Unit

  after_request-Waited :
      (target h next : ℕ) (t : Turn) (r : Outcome ErrorKind (Unit {0}) × Signer)
      → (wait_until_block_height (fits t) interval target t.polls ≡ some (ok h))
      → (next_block_after interval h ≡ ok next)
      → Waited target t (after_request fixed json h next r)
  unfolding after_request Waited
  after_request-Waited target h next t (ok _, s) waits follows = (waits, follows)
  after_request-Waited target h next t (err e, s) waits follows = (waits, follows)
  after_request-Waited target h next t (panic p, s) waits follows = tt

  at_height-Waited :
      (target h : ℕ) (next : Outcome ErrorKind ℕ) (t : Turn) (s : Signer)
      → (wait_until_block_height (fits t) interval target t.polls ≡ some (ok h))
      → (next_block_after interval h ≡ next)
      → Waited target t (at_height fixed json h next t s)
  unfolding at_height Waited
  at_height-Waited target h (ok next) t s waits follows =
      after_request-Waited target h next t (request_at fixed json h t s) waits follows
  at_height-Waited target h (err e) t s waits follows = tt
  at_height-Waited target h (panic p) t s waits follows = tt

  waited-Waited :
      (target : ℕ) (w : Option (Outcome ErrorKind ℕ)) (t : Turn) (s : Signer)
      → (wait_until_block_height (fits t) interval target t.polls ≡ w)
      → Waited target t (waited fixed json w t s)
  unfolding waited Waited
  waited-Waited target none t s waits = tt
  waited-Waited target (some (ok h)) t s waits = at_height-Waited target h _ t s waits refl
  waited-Waited target (some (err e)) t s waits = tt
  waited-Waited target (some (panic p)) t s waits = tt

  turn-Waited : (target : ℕ) (t : Turn) (s : Signer) → Waited target t (turn fixed json target t s)
  unfolding turn
  turn-Waited target t s = waited-Waited target _ t s refl

  -- The wait ends after the target, since the heights do not go back.
  reached :
      (may : Bool) (last target height : ℕ) (polls : List (Option ℕ))
      → last ≤ height
      → target ≤ last + interval
      → wait_until_block_height may interval target polls ≡ some (ok height)
      → target ≤ height
  reached may last target height polls above near waits =
      elim (wait-ok may interval target polls height waits).1 [
        | inl at_target ↦ at_target
        | inr far ↦ absurd (omega (arith, far, above, near))
      ]

  loop-turn-IsPacedFrom :
      (last target : ℕ) (t : Turn) (ts : List Turn) (s : Signer) (d : Turned)
      → turn fixed json target t s ≡ d
      → Waited target t d
      → target % interval ≡ 0
      → last < target
      → target ≤ last + interval
      → IsRising last (t.polls ++ reported ts)
      → ((last' target' : ℕ) (s' : Signer)
          → target' % interval ≡ 0
          → last' < target'
          → target' ≤ last' + interval
          → IsRising last' (reported ts)
          → IsPacedFrom interval last' (loop fixed json target' ts s').heights)
      → IsPacedFrom interval last (loop fixed json target (t ∷ ts) s).heights
  unfolding loop Waited IsPacedFrom
  loop-turn-IsPacedFrom last target t ts s still_waiting h w multiple above near rising rest =
      rw (loop, h) tt
  loop-turn-IsPacedFrom last target t ts s no_height h w multiple above near rising rest =
      rw (loop, h)
        (rest last target s multiple above near (rest-IsRising last t.polls (reported ts) rising))
  loop-turn-IsPacedFrom last target t ts s (asked height next s') h (waits, follows) multiple above
        near rising rest =
      let polled = (wait-ok (fits t) interval target t.polls height waits).0 in
      let (over, onward) = reported-IsRising last height t.polls (reported ts) rising polled in
      let (m, a, n) = next_block_after-bounds interval height next follows in
      rw (loop, h)
        (
          (target, multiple, above, reached (fits t) last target height t.polls over near waits),
          rest height next s' m a n onward,
        )
  loop-turn-IsPacedFrom last target t ts s (died p s') h w multiple above near rising rest =
      rw (loop, h) tt

  loop-IsPacedFrom :
      (ts : List Turn) (last target : ℕ) (s : Signer)
      → target % interval ≡ 0
      → last < target
      → target ≤ last + interval
      → IsRising last (reported ts)
      → IsPacedFrom interval last (loop fixed json target ts s).heights
  unfolding loop IsPacedFrom reported
  loop-IsPacedFrom [] last target s multiple above near rising = tt
  loop-IsPacedFrom (t ∷ ts) last target s multiple above near rising =
      loop-turn-IsPacedFrom last target t ts s (turn fixed json target t s) refl
        (turn-Waited target t s) multiple above near rising (loop-IsPacedFrom ts)

  first_block-IsRising :
      (low : ℕ) (answers rest : List (Option ℕ)) (next : ℕ)
      → first_block interval answers ≡ some (ok next)
      → IsRising low (answers ++ rest)
      → (h : ℕ) × (next_block_after interval h ≡ ok next) × IsRising h rest
  unfolding first_block
  first_block-IsRising low [] rest next e r = cc e
  first_block-IsRising low (none ∷ answers) rest next e r =
      first_block-IsRising low answers rest next e r
  first_block-IsRising low (some h ∷ answers) rest next e r =
      (h, cc e, rest-IsRising h answers rest r.1)

  -- If the heights that the node reports never go back, then between two heights at which the
  -- signer asks the service one after the other, a multiple of the block interval is passed: it lies
  -- above the first one and not above the second one.
  pub run-IsPaced :
      (answers : List (Option ℕ)) (ts : List Turn) (s : Signer)
      → IsRising 0 (answers ++ reported ts)
      → IsPaced interval (run fixed json answers ts s).heights
  unfolding run
  run-IsPaced answers ts s rising = first_IsPaced (first_block interval answers) refl
    where
      first_IsPaced :
          (first : Option (Outcome ErrorKind ℕ))
          → first_block interval answers ≡ first
          → IsPaced interval (run fixed json answers ts s).heights
      first_IsPaced none h = rw (run, h) tt
      first_IsPaced (some (ok next)) h =
          let (start, follows, onward) =
            first_block-IsRising 0 answers (reported ts) next h rising in
          let (m, a, n) = next_block_after-bounds interval start next follows in
          rw (run, h)
            (IsPacedFrom-IsPaced interval start _ (loop-IsPacedFrom ts start next s m a n onward))
      first_IsPaced (some (err e)) h = rw (run, h) tt
      first_IsPaced (some (panic p)) h = rw (run, h) tt
