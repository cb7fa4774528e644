-- ===== src/Commands/Text.antt =====
-- What the commands of src/commands/ use of the standard library's strings.
use Prim.Native.Char.{code}
use Prim.Native.String.{◌++◌ as append}
use tmkms.Prelude.{
  ℕ, ◌+◌, ◌-◌, ◌*◌, String, ◌&&◌, ◌==◌, leb, ltb, Option, none, some, List, [], ◌∷◌, if◌then◌else◌,
  str_eq,
}
use tmkms.KeyUtils.{is_whitespace, trim_end}

unfoldable pub trim_start : String → String
trim_start String.[] = String.[]
trim_start (String.◌∷◌ c s) = if is_whitespace (code c) then trim_start s else String.◌∷◌ c s

-- `str::trim`
unfoldable pub trim : String → String
unfolding trim_start
trim s = trim_start (trim_end s)

on_first : (String → String) → List String → List String
on_first f [] = f String.[] ∷ []
on_first f (word ∷ words) = f word ∷ words

-- the pieces between single white spaces, empty ones included
pieces : String → List String
unfolding on_first
pieces String.[] = String.[] ∷ []
pieces (String.◌∷◌ c s) =
    let rest = pieces s in
    if is_whitespace (code c) then String.[] ∷ rest else on_first (String.◌∷◌ c) rest

non_empty : List String → List String
non_empty [] = []
non_empty (word ∷ words) =
    let rest = non_empty words in if str_eq word String.[] then rest else word ∷ rest

-- `str::split_whitespace`
unfoldable pub split_whitespace : String → List String
unfolding pieces non_empty
split_whitespace s = non_empty (pieces s)

-- `join(" ")`
unfoldable pub join : List String → String
join [] = String.[]
join (word ∷ []) = word
join (word ∷ next ∷ words) = append word (append " " (join (next ∷ words)))

below : ℕ → ℕ → Option ℕ
below radix d = if ltb d radix then some d else none

-- `char::to_digit`
digit : ℕ → ℕ → Option ℕ
unfolding below
digit radix c =
    if leb 48 c && leb c 57
    then below radix (c - 48)
    else if leb 97 c && leb c 122
    then below radix (c - 87)
    else if leb 65 c && leb c 90
    then below radix (c - 55)
    else none

-- The digits that follow `n`, as long as the number is below 2 ^ 16.
digits : ℕ → ℕ → String → Option ℕ
unfolding digit
digits radix n String.[] = some n
digits radix n (String.◌∷◌ c s) = elim (digit radix (code c)) [
  | none ↦ none
  | some d ↦ if ltb 65535 (n * radix + d) then none else digits radix (n * radix + d) s
]

some_digits : ℕ → String → Option ℕ
unfolding digits
some_digits radix String.[] = none
some_digits radix (String.◌∷◌ c s) = digits radix 0 (String.◌∷◌ c s)

-- `u16::from_str_radix`, which also takes a plus sign; `parse` is the one with the radix 10.
unfoldable pub parse_u16 : ℕ → String → Option ℕ
unfolding some_digits
parse_u16 radix String.[] = none
parse_u16 radix (String.◌∷◌ c s) =
    if code c == 43 then some_digits radix s else some_digits radix (String.◌∷◌ c s)
