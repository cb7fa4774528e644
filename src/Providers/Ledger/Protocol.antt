-- ===== src/Providers/Ledger/Protocol.antt =====
-- src/keyring/providers/ledgertm/client.rs against a device that puts the pieces of a message together.
use tmkms.Prelude.{
  ℕ, false, Bool-cases, inl, inr, ◌+◌, ◌%◌, ◌≤◌, ◌<◌, ◌≡◌, refl, ap, ◌∙◌, ltb, ◌==◌, some, List, [],
  ◌∷◌, ◌++◌, append_assoc, append-nil, length, arith, if◌then◌else◌, Outcome, ok, err,
}
use tmkms.Prelude.Exec.{lift, continue}
use tmkms.Tendermint.{Bytes}
use tmkms.Providers.Ledger.Client.{
  LedgerError, invalid_empty_message, invalid_message_size, ApduCommand, ApduAnswer, App,
  ins_sign_ed25519, chunks, judge, exchange, packet, send, no_response, sign_pieces, sign,
}
use tmkms.Providers.Ledger.Chunks.{concat, concat-chunks, length-chunks}

-- What the device holds after a packet: the first packet of a message starts a new one.
abbrev pub joined : ℕ → Bytes → Bytes → Bytes
joined packet_idx held new = if packet_idx == 1 then new else held ++ new

-- The protocol of the app: packets before the last are stored, and the last is answered for the whole
-- message.
pub record Assembles {D : Type 0} (app : App D) (answer : Bytes → ApduAnswer) : Type 0 where
  pub held : D → Bytes
  pub accepts :
      (c : ApduCommand) (d : D)
      → c.ins ≡ ins_sign_ed25519
      → c.p1 < c.p2
      → (r : ApduAnswer) × ((app c d).0 ≡ some r)
  pub stores :
      (c : ApduCommand) (d : D)
      → c.ins ≡ ins_sign_ed25519
      → c.p1 < c.p2
      → held (app c d).1 ≡ joined c.p1 (held d) c.data_bytes
  pub answers :
      (c : ApduCommand) (d : D)
      → c.ins ≡ ins_sign_ed25519
      → c.p1 ≡ c.p2
      → (app c d).0 ≡ some (answer (joined c.p1 (held d) c.data_bytes))

-- Signing in one step, without packets
abbrev pub sign_whole : (Bytes → ApduAnswer) → Bytes → Outcome LedgerError Bytes
sign_whole answer message =
    if ltb 63750 (length message)
    then err invalid_message_size
    else if length message == 0
    then err invalid_empty_message
    else judge (answer message)

joined-joined :
    (i p1 : ℕ) (old kept c more : Bytes)
    → p1 ≡ i + 1
    → kept ≡ joined p1 old c
    → joined (i + 1 + 1) kept more ≡ joined (i + 1) old (c ++ more)
joined-joined i p1 old kept c more first e = ground (arith, append_assoc old c more)

module _ {D : Type 0} (app : App D) (answer : Bytes → ApduAnswer)
    (device : Assembles app answer) where
  -- A packet that is accepted is followed by the rest.
  send-accepted :
      (i n : ℕ) (chunk : Bytes) (rest : List Bytes) (before r : ApduAnswer) (d : D)
      → (app (packet app i n chunk) d).0 ≡ some r
      → send app i n (chunk ∷ rest) before d
        ≡ send app (i + 1) n rest r (app (packet app i n chunk) d).1
  unfolding send exchange
  send-accepted i n chunk rest before r d e = ground (arith, e)

  send-done : (i n : ℕ) (before : ApduAnswer) (d : D) → (send app i n [] before d).0 ≡ ok before
  unfolding send
  send-done i n before d = refl

  -- What is sent from the packet `i` on is answered as a whole.
  send-answers :
      (i n : ℕ) (chunk : Bytes) (rest : List Bytes) (before : ApduAnswer) (d : D)
      → n ≤ 255
      → i + length (chunk ∷ rest) ≡ n
      → (send app i n (chunk ∷ rest) before d).0
        ≡ ok (answer (joined (i + 1) (device.held d) (concat (chunk ∷ rest))))
  send-answers i n chunk [] before d small last =
      let e = device.answers (packet app i n chunk) d refl (omega (arith, small, last)) in
      let p1 : (i + 1) % 256 ≡ i + 1 = omega (arith, small, last) in
      ap (λ (p : Outcome LedgerError ApduAnswer × D). p.0) (send-accepted i n chunk [] before _ d e)
      ∙ send-done (i + 1) n _ (app (packet app i n chunk) d).1
      ∙ ap (λ (x : Bytes). ok (answer x)) (ground (arith, append-nil chunk, p1))
  send-answers i n chunk (next ∷ rest) before d small more =
      let (r, e) = device.accepts (packet app i n chunk) d refl (omega (arith, small, more)) in
      let p1 : (i + 1) % 256 ≡ i + 1 = omega (arith, small, more) in
      let d' = (app (packet app i n chunk) d).1 in
      let kept = device.stores (packet app i n chunk) d refl (omega (arith, small, more)) in
      ap (λ (p : Outcome LedgerError ApduAnswer × D). p.0)
        (send-accepted i n chunk (next ∷ rest) before r d e)
      ∙ send-answers (i + 1) n next rest r d' small (omega (arith, more))
      ∙ ap (λ (x : Bytes). ok (answer x))
          (joined-joined i ((i + 1) % 256) (device.held d) (device.held d') chunk
            (concat (next ∷ rest)) p1 kept)

  judged :
      (sent : Outcome LedgerError ApduAnswer) (response : ApduAnswer) (d : D)
      → sent ≡ ok response
      → (continue sent (λ (r : ApduAnswer). lift (judge r)) d).0 ≡ judge response
  judged sent response d e = rw e refl

  sign_pieces-whole :
      (pieces : List Bytes) (d : D)
      → (sign_pieces app pieces d).0 ≡ (
          if ltb 255 (length pieces)
          then err invalid_message_size
          else if length pieces == 0
          then err invalid_empty_message
          else judge (answer (concat pieces)))
  unfolding sign_pieces
  sign_pieces-whole [] d = refl
  sign_pieces-whole (piece ∷ rest) d = elim (Bool-cases (ltb 255 (length (piece ∷ rest)))) [
    | inl long ↦ rw long refl
    | inr short ↦
        let some_piece : (length (piece ∷ rest) == 0) ≡ false = ground arith in
        rw (short, some_piece)
          (judged (send app 0 (length (piece ∷ rest)) (piece ∷ rest) no_response d).0
            (answer (concat (piece ∷ rest)))
            (send app 0 (length (piece ∷ rest)) (piece ∷ rest) no_response d).1
            (send-answers 0 (length (piece ∷ rest)) piece rest no_response d (ground (arith, short))
              (omega arith)))
  ]

  -- A message up to 63750 bytes is signed by a device that puts the packets together exactly as if the
  -- device had been handed the message as a whole; an empty message and a longer one are refused.
  pub sign-sign_whole :
      (message : Bytes) (d : D) → (sign app message d).0 ≡ sign_whole answer message
  unfolding sign
  sign-sign_whole message d =
      sign_pieces-whole (chunks 250 message) d
      ∙ ground (arith, concat-chunks 249 message, length-chunks message)
