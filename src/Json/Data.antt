-- ===== src/Json/Data.antt =====
-- `serde_json::Value`: the data, and the accessors that the program calls. The members of an object
-- stand in the order of their keys, as in serde_json's default `Map`.
use ph_reactor.Base.{
  ℕ, ◌≡◌, refl, String, Bool, true, false, Option, none, some, List, [], ◌∷◌, if◌then◌else◌, ap,
}
use ph_reactor.Base.Eq.{◌==◌, string_eq}
use ph_reactor.Base.Text.{str_lt}

-- A number is an unsigned integer, or any other number by its printed text.
mutual
  pub data Value : Type 0 where
    null : Value
    bool : Bool → Value
    num : ℕ → Value
    other_num : String → Value
    str : String → Value
    arr : Values → Value
    obj : Members → Value

  pub data Values : Type 0 where
    nil : Values
    cons : Value → Values → Values

  pub data Members : Type 0 where
    end : Members
    member : String → Value → Members → Members

abbrev pub to_list : Values → List Value
to_list nil = []
to_list (cons v vs) = v ∷ to_list vs

abbrev pub of_list : List Value → Values
of_list [] = nil
of_list (v ∷ vs) = cons v (of_list vs)

pub to_list-of_list : (vs : List Value) → to_list (of_list vs) ≡ vs
to_list-of_list [] = refl
to_list-of_list (v ∷ vs) = ap (◌∷◌ v) (to_list-of_list vs)

abbrev pub to_members : Members → List (String × Value)
to_members end = []
to_members (member k v ms) = (k, v) ∷ to_members ms

-- `Map::insert`
unfoldable pub insert_member : String → Value → Members → Members
insert_member k v end = member k v end
insert_member k v (member j w ms) =
    if j == k
    then member k v ms
    else if str_lt k j
    then member k v (member j w ms)
    else member j w (insert_member k v ms)

members_of : List (String × Value) → Members
members_of [] = end
members_of ((k, v) ∷ ms) = insert_member k v (members_of ms)

-- `json!({ ... })` and `json!([ ... ])`.
unfoldable pub object : List (String × Value) → Value
unfolding members_of insert_member str_lt
object ms = obj (members_of ms)

abbrev pub array : List Value → Value
array vs = arr (of_list vs)

abbrev pub find_member : String → Members → Option Value
find_member k end = none
find_member k (member j v ms) = if j == k then some v else find_member k ms

-- `v.get(key)`
abbrev pub get : Value → String → Option Value
get (obj ms) k = find_member k ms
get _ k = none

abbrev pub as_str : Value → Option String
as_str (str s) = some s
as_str _ = none

abbrev pub as_array : Value → Option (List Value)
as_array (arr vs) = some (to_list vs)
as_array _ = none

abbrev pub as_object : Value → Option (List (String × Value))
as_object (obj ms) = some (to_members ms)
as_object _ = none

abbrev pub as_u64 : Value → Option ℕ
as_u64 (num n) = some n
as_u64 _ = none

abbrev pub is_string : Value → Bool
is_string (str s) = true
is_string _ = false

abbrev pub is_number : Value → Bool
is_number (num n) = true
is_number (other_num s) = true
is_number _ = false

abbrev pub is_boolean : Value → Bool
is_boolean (bool b) = true
is_boolean _ = false

abbrev pub is_array : Value → Bool
is_array (arr vs) = true
is_array _ = false

abbrev pub is_object : Value → Bool
is_object (obj ms) = true
is_object _ = false

object_runs :
    object (("b", num 1) ∷ ("a", null) ∷ []) ≡ obj (member "a" null (member "b" (num 1) end))
unfolding object
object_runs = refl
