-- ===== src/TxSigner/SignMsg.antt =====
-- src/tx_signer/sign_msg.rs, tx_request.rs and the access control list of src/config/tx_signer.rs.
use tmkms.Prelude.{
  ◌≡◌, refl, ◌↔◌, arith, String, ℕ, Bool, true, false, Option, none, some, List, [], ◌∷◌, str_eq,
  str_eq_iff, if◌then◌else◌, Outcome, ok, err, sym, Bool-cases, inl, inr, subst,
}
use tmkms.Error.{ErrorKind, access_error, stdtx_error}
use tmkms.Tendermint.{Bytes}

-- `amino::Msg`, by the name of its type and its encoding
pub record Msg : Type 0 where
  pub type_name : String
  pub body : Bytes

pub record TxSigningRequest : Type 0 where
  pub chain_id : String
  pub fee : Bytes
  pub memo : String
  pub msgs : List String  -- JSON values

-- The message is signed by its text `repr`.
pub record SignMsg : Type 0 where
  pub fee : Bytes
  pub memo : String
  pub msgs : List Msg
  pub msg_types : List String
  pub repr : Bytes

-- The stdtx crate: `Msg::from_json_value` and `Builder::create_sign_msg`
pub record Builder : Type 0 where
  pub from_json_value : String → Option Msg
  pub create_sign_msg : ℕ → Bytes → String → List Msg → Bytes

pub contains : List String → String → Bool
contains [] x = false
contains (y ∷ ys) x = let rest = contains ys x in if str_eq x y then true else rest

-- `BTreeSet::insert`; the order of a set is not read
insert_type : String → List String → List String
unfolding contains
insert_type x xs = if contains xs x then xs else x ∷ xs

parse_msgs : Builder → List String → Option (List Msg)
parse_msgs b [] = some []
parse_msgs b (v ∷ vs) = elim (b.from_json_value v) [
  | none ↦ none
  | some msg ↦ elim (parse_msgs b vs) [ none ↦ none | some msgs ↦ some (msg ∷ msgs) ]
]

type_set : List Msg → List String
unfolding insert_type
type_set [] = []
type_set (m ∷ ms) = insert_type m.type_name (type_set ms)

unfoldable pub new : TxSigningRequest → Builder → ℕ → Outcome ErrorKind SignMsg
unfolding parse_msgs type_set
new req b sequence = elim (parse_msgs b req.msgs) [
  | none ↦ err stdtx_error
  | some msgs ↦ ok (record {
    fee = req.fee;
    memo = req.memo;
    msgs = msgs;
    msg_types = type_set msgs;
    repr = b.create_sign_msg sequence req.fee req.memo msgs;
  })
]

all_in : List String → List String → Outcome ErrorKind (Unit {0})
unfolding contains
all_in acl [] = ok tt
all_in acl (x ∷ xs) = let rest = all_in acl xs in if contains acl x then rest else err access_error

-- Every message type must be in the access control list.
unfoldable pub authorize : SignMsg → List String → Outcome ErrorKind (Unit {0})
unfolding all_in
authorize m acl = all_in acl m.msg_types

-- Every message has a listed type.
abbrev pub AllListed : List String → List Msg → Type 0
AllListed acl [] = Unit
AllListed acl (m ∷ ms) = (contains acl m.type_name ≡ true) × AllListed acl ms

contains-all_in :
    (acl xs : List String) (x : String)
    → all_in acl xs ≡ ok tt
    → contains xs x ≡ true
    → contains acl x ≡ true
unfolding all_in contains
contains-all_in acl [] x h c = cc c
contains-all_in acl (y ∷ ys) x h c = elim (Bool-cases (str_eq x y)) [
  | inl same ↦ subst (λ z. contains acl z ≡ true) (sym ((str_eq_iff x y).0 same)) (ground arith)
  | inr other ↦ contains-all_in acl ys x (ground arith) (ground arith)
]

all_in-insert_type :
    (acl xs : List String) (x : String)
    → (all_in acl (insert_type x xs) ≡ ok tt) ↔ ((contains acl x ≡ true) × (all_in acl xs ≡ ok tt))
unfolding insert_type all_in
all_in-insert_type acl xs x = (
  (λ h. elim (Bool-cases (contains xs x)) [
    | inl old ↦
        let inside : all_in acl xs ≡ ok tt = ground arith in
        (contains-all_in acl xs x inside old, inside)
    | inr fresh ↦ ground arith
  ]),
  (λ h. ground arith),
)

all_in-type_set :
    (acl : List String) (ms : List Msg) → (all_in acl (type_set ms) ≡ ok tt) ↔ AllListed acl ms
unfolding type_set all_in
all_in-type_set acl [] = ((λ h. tt), (λ h. refl))
all_in-type_set acl (m ∷ ms) =
    let rest = all_in-type_set acl ms in
    let step = all_in-insert_type acl (type_set ms) m.type_name in
    ((λ h. ((step.0 h).0, rest.0 (step.0 h).1)), (λ h. step.1 (h.0, rest.1 h.1)))

-- The message types of a message that was built are those of its messages.
msg_types-new :
    (req : TxSigningRequest) (b : Builder) (sequence : ℕ) (m : SignMsg)
    → new req b sequence ≡ ok m
    → m.msg_types ≡ type_set m.msgs
unfolding new
msg_types-new req b sequence m made = ground arith

-- A message built from a request is authorized exactly if the type of each of its messages is in the
-- access control list.
pub authorize_iff :
    (req : TxSigningRequest) (b : Builder) (sequence : ℕ) (acl : List String) (m : SignMsg)
    → new req b sequence ≡ ok m
    → (authorize m acl ≡ ok tt) ↔ AllListed acl m.msgs
unfolding authorize
authorize_iff req b sequence acl m made =
    let types = msg_types-new req b sequence m made in
    let listed = all_in-type_set acl m.msgs in
    (
      (λ h. listed.0 (subst (λ ts. all_in acl ts ≡ ok tt) types h)),
      (λ h. subst (λ ts. all_in acl ts ≡ ok tt) (sym types) (listed.1 h)),
    )
