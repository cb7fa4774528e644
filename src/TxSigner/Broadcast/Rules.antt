-- ===== src/TxSigner/Broadcast/Rules.antt =====
-- Rules for what the actions of the transaction signer (src/tx_signer.rs) keep.
use tmkms.Prelude.{
  ℕ, ◌+◌, ◌≤◌, ◌≡◌, Option, none, some, arith, not, str_eq, Outcome, ok, err, panic, inl, inr,
  Bool-cases,
}
use tmkms.Prelude.Exec.{Exec}
use tmkms.Prelude.Exec.Keeps.{Keeps, Keeps-pure, Keeps-lift-bind, Keeps-if}
use tmkms.Error.{ErrorKind}
use tmkms.TxSigner.LastTx.{is_response}
use tmkms.TxSigner.SignMsg
use tmkms.TxSigner.SignMsg.{SignMsg, TxSigningRequest, authorize}
use tmkms.TxSigner.Broadcast.{
  Setup, Signer, Attempt, next_sequence, broadcast_tx, on_error, try_at, third_try, second_try,
  sign_request, request_and_sign_tx,
}

abbrev pub Action : Type 0 → Type 0
Action A = Exec Signer ErrorKind A

pub next_sequence-ok : (n : ℕ) {k : ℕ} → next_sequence n ≡ ok k → k ≡ n + 1
unfolding next_sequence
next_sequence-ok n h = ground arith

module _ (setup : Setup) (P : Signer → Type 0) where
  on_error_of :
      (out : Outcome ErrorKind (Unit {0})) (k : Action (Unit {0}))
      → Keeps P k
      → Keeps {E = ErrorKind} P {A = Unit {0}}
          (λ s. elim out [ ok _ ↦ (ok tt, s) | err e ↦ k s | panic p ↦ (panic p, s) ])
  on_error_of (ok _) k kk = record { at = λ s h. h }
  on_error_of (err e) k kk = kk
  on_error_of (panic p) k kk = record { at = λ s h. h }

  Keeps-on_error : (m k : Action (Unit {0})) → Keeps P m → Keeps P k → Keeps P (on_error setup m k)
  unfolding on_error
  Keeps-on_error m k km kk = record {
    at = λ s h. (on_error_of (m s).0 k kk).at (m s).1 (km.at s h);
  }

  Keeps-third :
      (base : ℕ)
      → ((m : SignMsg) (n : ℕ) (a : Attempt)
          → base ≤ n
          → n ≤ base + 2
          → Keeps P (broadcast_tx setup m n a))
      → (req : TxSigningRequest) (c : Attempt) (n : ℕ) → n ≡ base + 1
      → Keeps P (third_try setup req n c)
  unfolding third_try try_at
  Keeps-third base tx req c n at_n = Keeps-lift-bind P (next_sequence n) _ λ k next.
      Keeps-lift-bind P (SignMsg.new req setup.builder k) _ λ m _.
        tx m k c (omega (arith, next_sequence-ok n next)) (omega (arith, next_sequence-ok n next))

  Keeps-second :
      (base : ℕ)
      → ((m : SignMsg) (n : ℕ) (a : Attempt)
          → base ≤ n
          → n ≤ base + 2
          → Keeps P (broadcast_tx setup m n a))
      → (req : TxSigningRequest) (b c : Attempt) (n : ℕ) → n ≡ base
      → Keeps P (second_try setup req n b c)
  unfolding second_try
  Keeps-second base tx req b c n at_n = Keeps-lift-bind P (next_sequence n) _ λ k next.
      Keeps-lift-bind P (SignMsg.new req setup.builder k) _ λ m _.
        Keeps-on_error _ _
          (tx m k b (omega (arith, next_sequence-ok n next))
            (omega (arith, next_sequence-ok n next)))
          (Keeps-third base tx req c k (omega (arith, next_sequence-ok n next)))

  -- One request keeps what each of its three broadcasts keeps.
  pub Keeps-request :
      (base : ℕ)
      → ((m : SignMsg) (n : ℕ) (a : Attempt)
          → base ≤ n
          → n ≤ base + 2
          → Keeps P (broadcast_tx setup m n a))
      → (req : TxSigningRequest) (a b c : Attempt) (s : Signer) → s.seq_file.sequence ≡ base
      → P s
      → P (sign_request setup req a b c s).1
  unfolding sign_request
  Keeps-request base tx req a b c s at_base h =
      (Keeps-lift-bind P (SignMsg.new req setup.builder s.seq_file.sequence) _ (λ m _.
          Keeps-on_error _ _ (tx m s.seq_file.sequence a (omega arith) (omega arith)) (
            Keeps-if P (not (is_response s.last_tx)) _ _
              (Keeps-second base tx req b c s.seq_file.sequence at_base) (Keeps-pure P tt)))).at
        s h

  pub requested-keeps :
      (requested : Outcome ErrorKind (Option TxSigningRequest)) (a b c : Attempt) (s : Signer)
      → ((req : TxSigningRequest) → P (sign_request setup req a b c s).1)
      → P s
      → P (request_and_sign_tx setup requested a b c s).1
  unfolding request_and_sign_tx
  requested-keeps (ok none) a b c s keep h = h
  requested-keeps (ok (some req)) a b c s keep h =
      elim (Bool-cases (str_eq setup.chain_id req.chain_id)) [
        | inl same ↦ rw same (keep req)
        | inr other ↦ rw other h
      ]
  requested-keeps (err e) a b c s keep h = h
  requested-keeps (panic p) a b c s keep h = h
