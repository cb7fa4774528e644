-- ===== src/TxSigner/Broadcast/Safety.antt =====
-- What the transaction signer (src/tx_signer.rs) sends, and what becomes of its sequence number.
use tmkms.Prelude.{
  ℕ, ◌+◌, ◌≤◌, ◌≡◌, refl, sym, Option, some, ◌∷◌, All, arith, Outcome, ok, subst, Option-cases, inl,
  inr,
}
use tmkms.Error.{ErrorKind}
use tmkms.KeyRing.{KeyRing, sign_ecdsa}
use tmkms.TxSigner.SequenceFile
use tmkms.TxSigner.SignMsg.{SignMsg, TxSigningRequest, authorize}
use tmkms.TxSigner.Broadcast.{
  Setup, Tx, Signer, Attempt, next_sequence, sign_tx, signed_if, signed_by, send, save, check,
  broadcast_tx, request_and_sign_tx,
}
use tmkms.Prelude.Exec.Keeps.{Keeps, Keeps-lift-bind, Keeps-bind, Keeps-lift}
use tmkms.TxSigner.Broadcast.Rules.{Keeps-request, requested-keeps, next_sequence-ok}

-- Every transaction that was sent has a message that the access control list authorizes, signed by
-- the account of the signer.
abbrev pub IsAuthorized : Setup → ℕ × Tx → Type 0
IsAuthorized setup p =
    (authorize p.1.msg setup.acl ≡ ok tt)
    × ((k : KeyRing) × (setup.keyring ≡ some k)
        × (sign_ecdsa setup.wanted setup.account_id p.1.msg.repr k ≡ ok p.1.signature))

abbrev pub SendsAuthorized : Setup → Signer → Type 0
SendsAuthorized setup s = All (IsAuthorized setup) s.sent

-- The sequence number has not gone back, and is at most three above `base`.
abbrev pub InWindow : ℕ → Signer → Type 0
InWindow base s = (base ≤ s.seq_file.sequence) × (s.seq_file.sequence ≤ base + 3)

module _ (setup : Setup) where
  signed_by-ok :
      (m : SignMsg) (k : KeyRing) {tx : Tx}
      → signed_by setup m k ≡ ok tx
      → (tx.msg ≡ m) × (sign_ecdsa setup.wanted setup.account_id m.repr k ≡ ok tx.signature)
  unfolding signed_by
  signed_by-ok m k h = ground arith

  sign_tx-ok :
      (m : SignMsg) {tx : Tx}
      → sign_tx setup m ≡ ok tx
      → (authorize m setup.acl ≡ ok tt)
        × ((k : KeyRing) × (setup.keyring ≡ some k) × (signed_by setup m k ≡ ok tx))
  unfolding sign_tx signed_if
  sign_tx-ok m h = elim (Option-cases setup.keyring) [
    | inl missing ↦ absurd (ground arith)
    | inr (k, known) ↦ (ground arith, (k, known, ground arith))
  ]

  sign_tx-IsAuthorized :
      (m : SignMsg) (n : ℕ) (tx : Tx) → sign_tx setup m ≡ ok tx → IsAuthorized setup (n, tx)
  sign_tx-IsAuthorized m n tx h =
      let (listed, (k, known, signed)) = sign_tx-ok m h in
      let (same, by_key) = signed_by-ok m k signed in
      (
        subst (λ x. authorize x setup.acl ≡ ok tt) (sym same) listed,
        (
          k,
          known,
          subst
              (λ (x : SignMsg). sign_ecdsa setup.wanted setup.account_id x.repr k ≡ ok tx.signature)
              (sym same) by_key,
        ),
      )

  send_lem :
      (n : ℕ) (a : Attempt) (tx : Tx) (s : Signer)
      → ((send setup n a tx s).1.sent ≡ (n, tx) ∷ s.sent)
        × ((send setup n a tx s).1.seq_file ≡ s.seq_file)
  unfolding send
  send_lem n a tx s = ground arith

  send-SendsAuthorized :
      (n : ℕ) (a : Attempt) (tx : Tx)
      → IsAuthorized setup (n, tx)
      → Keeps (SendsAuthorized setup) (send setup n a tx)
  send-SendsAuthorized n a tx ok_tx = record {
    at = λ s h. subst (All (IsAuthorized setup)) (sym (send_lem n a tx s).0) (ok_tx, h);
  }

  save-SendsAuthorized :
      (n : ℕ) (w : SequenceFile.Weather) → Keeps (SendsAuthorized setup) (save setup n w)
  unfolding save
  save-SendsAuthorized n w = record { at = λ s h. h }

  broadcast-SendsAuthorized :
      (m : SignMsg) (n : ℕ) (a : Attempt) → Keeps (SendsAuthorized setup) (broadcast_tx setup m n a)
  unfolding broadcast_tx
  broadcast-SendsAuthorized m n a =
      let P = SendsAuthorized setup in
      Keeps-lift-bind P (sign_tx setup m) _ λ tx signed.
        Keeps-bind P (send setup n a tx) _
          (send-SendsAuthorized n a tx (sign_tx-IsAuthorized m n tx signed))
          λ c. Keeps-lift-bind P (check setup c.check_tx_ok) _ λ _ _.
            Keeps-lift-bind P (next_sequence n) _ λ next _.
              Keeps-bind P (save setup next a.weather) _ (save-SendsAuthorized next a.weather)
                λ _. Keeps-lift P (check setup c.deliver_tx_ok)

  send-InWindow : (base n : ℕ) (a : Attempt) (tx : Tx) → Keeps (InWindow base) (send setup n a tx)
  send-InWindow base n a tx = record {
    at = λ s h.
        subst (λ (f : SequenceFile.SequenceFile). (base ≤ f.sequence) × (f.sequence ≤ base + 3))
          (sym (send_lem n a tx s).1) h;
  }

  save-InWindow :
      (base n : ℕ) (w : SequenceFile.Weather)
      → base ≤ n
      → n ≤ base + 3
      → Keeps (InWindow base) (save setup n w)
  unfolding save SequenceFile.persist
  save-InWindow base n w lo hi = record { at = λ s h. (lo, hi) }

  broadcast-InWindow :
      (base : ℕ) (m : SignMsg) (n : ℕ) (a : Attempt)
      → base ≤ n
      → n ≤ base + 2
      → Keeps (InWindow base) (broadcast_tx setup m n a)
  unfolding broadcast_tx
  broadcast-InWindow base m n a lo hi =
      let P = InWindow base in
      Keeps-lift-bind P (sign_tx setup m) _ λ tx signed.
        Keeps-bind P (send setup n a tx) _ (send-InWindow base n a tx) λ c.
          Keeps-lift-bind P (check setup c.check_tx_ok) _ λ _ _.
            Keeps-lift-bind P (next_sequence n) _ λ next up.
              Keeps-bind P (save setup next a.weather) _
                (save-InWindow base next a.weather (omega (arith, next_sequence-ok n up))
                  (omega (arith, next_sequence-ok n up)))
                λ _. Keeps-lift P (check setup c.deliver_tx_ok)

  -- Whatever the service asks for and the node answers, if only transactions were sent before
  -- whose message the access control list authorizes and the key of the account has signed, a
  -- request sends only such transactions.
  pub request-SendsAuthorized :
      (requested : Outcome ErrorKind (Option TxSigningRequest)) (a b c : Attempt) (s : Signer)
      → SendsAuthorized setup s
      → SendsAuthorized setup (request_and_sign_tx setup requested a b c s).1
  request-SendsAuthorized requested a b c s h =
      requested-keeps setup (SendsAuthorized setup) requested a b c s
        (λ req.
          Keeps-request setup (SendsAuthorized setup) s.seq_file.sequence
            (λ m n at _ _. broadcast-SendsAuthorized m n at) req a b c s refl h)
        h

  -- The sequence number never goes back, and one request advances it by three at most.
  pub request-InWindow :
      (requested : Outcome ErrorKind (Option TxSigningRequest)) (a b c : Attempt) (s : Signer)
      → InWindow s.seq_file.sequence (request_and_sign_tx setup requested a b c s).1
  request-InWindow requested a b c s =
      let base = s.seq_file.sequence in
      let here : InWindow base s = omega arith in
      requested-keeps setup (InWindow base) requested a b c s
        (λ req.
          Keeps-request setup (InWindow base) base (broadcast-InWindow base) req a b c s refl here)
        here
