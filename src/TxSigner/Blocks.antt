-- ===== src/TxSigner/Blocks.antt =====
-- src/tx_signer.rs: which block the signer waits for, and when it stops waiting.
use tmkms.Prelude.{
  ℕ, ◌+◌, ◌-◌, ◌*◌, ◌%◌, ◌/◌, ◌^◌, ◌<◌, ◌≤◌, ◌≡◌, ap, Bool, true, false, Bool-cases, ◌⊎◌, inl, inr,
  Option, none, some, List, [], ◌∷◌, Memᴰ, arith, ltb, leb, ◌==◌, if◌then◌else◌, Outcome, ok, err,
  panic, crash,
}
use native.Mathlib.Nat.{div-add-mod, add-mod_right, mul-mod_right}
use tmkms.Error.{ErrorKind, tendermint_error}

-- `block_height - block_height % block_interval + block_interval` in checked arithmetic on u64; the
-- remainder by zero panics.
unfoldable pub next_block_after : ℕ → ℕ → Outcome ErrorKind ℕ
next_block_after block_interval block_height =
    if block_interval == 0
    then panic crash
    else (let start = block_height - block_height % block_interval in
        if ltb (start + block_interval) (2 ^ 64) then ok (start + block_interval) else panic crash)

-- The heights that the node reports, one for each poll (`none` for an error of the call). `none` as
-- the result: the polls ran out, and the signer still waits.
polled : ℕ → ℕ → List (Option ℕ) → Option (Outcome ErrorKind ℕ)
polled block_interval target [] = none
polled block_interval target (none ∷ polls) = some (err tendermint_error)
polled block_interval target (some current ∷ polls) =
    let rest = polled block_interval target polls in
    if leb target current
    then some (ok current)
    else if ltb block_interval (target - current)
    then some (ok current)
    else rest

-- `fits`: whether the deadline, `min_secs` from now, is an instant of the clock. The addition panics
-- otherwise.
unfoldable pub wait_until_block_height :
    Bool → ℕ → ℕ → List (Option ℕ) → Option (Outcome ErrorKind ℕ)
unfolding polled
wait_until_block_height fits block_interval target polls =
    if fits then polled block_interval target polls else some (panic crash)

-- What is left of a number without its remainder is a multiple, and so is the next one.
multiple_above : (n i : ℕ) → (n - n % i + i) % i ≡ 0
multiple_above n i =
    let whole : n - n % i ≡ i * (n / i) = omega (arith, div-add-mod n i) in
    rw (whole, add-mod_right) (mul-mod_right i (n / i))

-- The next block, if there is one, is a multiple of the interval, above the height given, and at
-- most an interval above it.
pub next_block_after-bounds :
    (interval height next : ℕ)
    → next_block_after interval height ≡ ok next
    → (next % interval ≡ 0) × (height < next) × (next ≤ height + interval)
unfolding next_block_after
next_block_after-bounds interval height next h =
    (ground (arith, multiple_above height interval), grind arith, grind arith)

-- For a positive interval a next block is given unless the sum leaves the range of u64.
next_block_after_total :
    (interval height : ℕ)
    → 0 < interval
    → height + interval < 2 ^ 64
    → (next : ℕ) × (next_block_after interval height ≡ ok next)
unfolding next_block_after
next_block_after_total interval height pos_interval fits =
    (height - height % interval + interval, ground arith)

-- The polls end with a height that was polled, and which has reached the target or lies more than an
-- interval below it.
polled-ok :
    (interval target : ℕ) (polls : List (Option ℕ)) (height : ℕ)
    → polled interval target polls ≡ some (ok height)
    → Memᴰ (some height) polls × ((target ≤ height) ⊎ (height + interval < target))
unfolding polled
polled-ok interval target [] height h = cc h
polled-ok interval target (none ∷ polls) height h = cc h
polled-ok interval target (some current ∷ polls) height h = elim (Bool-cases (leb target current)) [
  | inl reached ↦
      let same : height ≡ current = ground arith in (Memᴰ.head (ap some same), ground arith)
  | inr below ↦ elim (Bool-cases (ltb interval (target - current))) [
    | inl far ↦
        let same : height ≡ current = ground arith in (Memᴰ.head (ap some same), ground arith)
    | inr near ↦
        let (m, bound) = polled-ok interval target polls height (ground arith) in
        (Memᴰ.tail m, bound)
  ]
]

-- So it is with the wait, which polls if its deadline fits the clock.
pub wait-ok :
    (fits : Bool) (interval target : ℕ) (polls : List (Option ℕ)) (height : ℕ)
    → wait_until_block_height fits interval target polls ≡ some (ok height)
    → Memᴰ (some height) polls × ((target ≤ height) ⊎ (height + interval < target))
unfolding wait_until_block_height
wait-ok true interval target polls height h = polled-ok interval target polls height h
wait-ok false interval target polls height h = cc h
