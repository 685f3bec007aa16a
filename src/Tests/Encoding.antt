-- ===== src/Tests/Encoding.antt =====
-- An encoding of JSON values that loses nothing, to stand for `serde_json::to_vec` in the tests.
use ph_reactor.Base.{ℕ, ◌≡◌, refl, ap, ap₂, String, Bool, true, false, List, [], ◌∷◌, ◌++◌, length}
use ph_reactor.Base.Bytes.{as_bytes, as_bytes-inj, append_split}
use ph_reactor.Json.Data.{
  Value, null, bool, num, other_num, str, arr, obj, Values, nil, cons, Members, end, member,
}

abbrev string_then : String → List ℕ → List ℕ
string_then s rest = length (as_bytes s) ∷ as_bytes s ++ rest

abbrev digit : Bool → ℕ
digit true = 1
digit false = 0

digit-inj : (b c : Bool) → digit b ≡ digit c → b ≡ c
digit-inj true true e = refl
digit-inj true false e = cc e
digit-inj false true e = cc e
digit-inj false false e = refl

unfoldable mutual
  pub value_then : Value → List ℕ → List ℕ
  value_then null rest = 0 ∷ rest
  value_then (bool b) rest = 1 ∷ digit b ∷ rest
  value_then (num n) rest = 3 ∷ n ∷ rest
  value_then (other_num s) rest = 4 ∷ string_then s rest
  value_then (str s) rest = 5 ∷ string_then s rest
  value_then (arr vs) rest = 6 ∷ values_then vs rest
  value_then (obj ms) rest = 7 ∷ members_then ms rest

  pub values_then : Values → List ℕ → List ℕ
  values_then nil rest = 0 ∷ rest
  values_then (cons v vs) rest = 1 ∷ value_then v (values_then vs rest)

  pub members_then : Members → List ℕ → List ℕ
  members_then end rest = 0 ∷ rest
  members_then (member k v ms) rest = 1 ∷ string_then k (value_then v (members_then ms rest))

string_split :
    (s t : String) (xs ys : List ℕ) → string_then s xs ≡ string_then t ys → (s ≡ t) × (xs ≡ ys)
string_split s t xs ys e =
    let lengths : length (as_bytes s) ≡ length (as_bytes t) = cc e in
    let tails : as_bytes s ++ xs ≡ as_bytes t ++ ys = cc e in
    let (bytes, rest) = append_split (as_bytes s) xs (as_bytes t) ys lengths tails in
    (as_bytes-inj s t bytes, rest)

mutual
  unfolding value_then values_then members_then

  value_split :
      (a b : Value) (xs ys : List ℕ) → value_then a xs ≡ value_then b ys → (a ≡ b) × (xs ≡ ys)
  value_split null null xs ys e = (refl, cc e)
  value_split (bool b) (bool c) xs ys e = (ap bool (digit-inj b c (cc e)), cc e)
  value_split (num m) (num n) xs ys e = (cc e, cc e)
  value_split (other_num s) (other_num t) xs ys e =
      let (same, rest) = string_split s t xs ys (cc e) in (ap other_num same, rest)
  value_split (str s) (str t) xs ys e =
      let (same, rest) = string_split s t xs ys (cc e) in (ap str same, rest)
  value_split (arr a) (arr b) xs ys e =
      let (same, rest) = values_split a b xs ys (cc e) in (ap arr same, rest)
  value_split (obj a) (obj b) xs ys e =
      let (same, rest) = members_split a b xs ys (cc e) in (ap obj same, rest)
  value_split _ _ xs ys e = absurd (cc e)

  values_split :
      (a b : Values) (xs ys : List ℕ) → values_then a xs ≡ values_then b ys → (a ≡ b) × (xs ≡ ys)
  values_split nil nil xs ys e = (refl, cc e)
  values_split (cons a r) (cons b s) xs ys e =
      let (same, after) = value_split a b (values_then r xs) (values_then s ys) (cc e) in
      let (rest, left) = values_split r s xs ys after in (ap₂ cons same rest, left)
  values_split _ _ xs ys e = absurd (cc e)

  members_split :
      (a b : Members) (xs ys : List ℕ) → members_then a xs ≡ members_then b ys → (a ≡ b) × (xs ≡ ys)
  members_split end end xs ys e = (refl, cc e)
  members_split (member j a r) (member k b s) xs ys e =
      let (keys, after) =
        string_split j k (value_then a (members_then r xs)) (value_then b (members_then s ys))
          (cc e) in
      let (same, later) = value_split a b (members_then r xs) (members_then s ys) after in
      let (rest, left) = members_split r s xs ys later in (cc (keys, same, rest), left)
  members_split _ _ xs ys e = absurd (cc e)

unfoldable pub json_bytes : Value → List ℕ
unfolding value_then
json_bytes v = value_then v []

pub json_bytes-inj : (a b : Value) → json_bytes a ≡ json_bytes b → a ≡ b
unfolding json_bytes
json_bytes-inj a b e = (value_split a b [] [] e).0
