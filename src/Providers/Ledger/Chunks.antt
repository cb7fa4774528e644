-- ===== src/Providers/Ledger/Chunks.antt =====
-- The pieces in which src/keyring/providers/ledgertm/client.rs sends a message.
use tmkms.Prelude.{
  ℕ, suc, zero, ◌+◌, ◌-◌, ◌*◌, ◌≤◌, ◌<◌, ◌≡◌, refl, ap, ◌∙◌, List, [], ◌∷◌, ◌++◌, length, take,
  drop, arith,
}
use tmkms.Tendermint.{Bytes}
use tmkms.Providers.Ledger.Client.{chunks_in, chunks}

abbrev pub concat : List Bytes → Bytes
concat [] = []
concat (x ∷ xs) = x ++ concat xs

take-drop : (n : ℕ) (xs : Bytes) → take n xs ++ drop n xs ≡ xs
take-drop zero xs = refl
take-drop (suc n) [] = refl
take-drop (suc n) (x ∷ xs) = ap (λ (l : Bytes). x ∷ l) (take-drop n xs)

length-drop : (n : ℕ) (xs : Bytes) → length (drop n xs) ≡ length xs - n
length-drop zero xs = omega arith
length-drop (suc n) [] = omega arith
length-drop (suc n) (x ∷ xs) = omega (arith, length-drop n xs)

concat-chunks_in :
    (s fuel : ℕ) (xs : Bytes) → length xs ≤ fuel → concat (chunks_in (suc s) fuel xs) ≡ xs
unfolding chunks_in
concat-chunks_in s zero [] h = refl
concat-chunks_in s zero (x ∷ xs) h = absurd (omega arith)
concat-chunks_in s (suc fuel) [] h = refl
concat-chunks_in s (suc fuel) (x ∷ xs) h =
    ap (λ (l : Bytes). take (suc s) (x ∷ xs) ++ l)
      (concat-chunks_in s fuel (drop s xs) (omega (arith, length-drop s xs)))
    ∙ take-drop (suc s) (x ∷ xs)

-- The pieces are the message.
pub concat-chunks : (s : ℕ) (xs : Bytes) → concat (chunks (suc s) xs) ≡ xs
unfolding chunks
concat-chunks s xs = concat-chunks_in s (length xs) xs (omega arith)

length-chunks_in :
    (fuel : ℕ) (xs : Bytes)
    → length xs ≤ fuel
    → (length xs ≤ 250 * length (chunks_in 250 fuel xs))
      × (250 * length (chunks_in 250 fuel xs) < length xs + 250)
unfolding chunks_in
length-chunks_in zero [] h = (omega arith, omega arith)
length-chunks_in zero (x ∷ xs) h = omega (arith, h)
length-chunks_in (suc fuel) [] h = (omega arith, omega arith)
length-chunks_in (suc fuel) (x ∷ xs) h =
    let short = length-drop 249 xs in
    let (low, high) = length-chunks_in fuel (drop 249 xs) (omega (arith, short)) in
    (omega (arith, low, short), omega (arith, high, short))

pub length-chunks :
    (xs : Bytes)
    → (length xs ≤ 250 * length (chunks 250 xs)) × (250 * length (chunks 250 xs) < length xs + 250)
unfolding chunks
length-chunks xs = length-chunks_in (length xs) xs (omega arith)
