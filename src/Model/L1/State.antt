-- ===== src/Model/L1/State.antt =====
-- The helpers of src/model/l1.rs that read a document's state or a definition's values.
use ph_reactor.Base.{
  String, Bool, true, false, Option, none, some, List, [], not, all, any, is_some, unwrap_or, ◌▷◌,
  head?, if◌then◌else◌,
}
use ph_reactor.Base.Eq.{◌==◌, string_eq}
use ph_reactor.Base.Map.{lookup}
use ph_reactor.Base.Result.{Result, ok, err}
use ph_reactor.Json.{
  Value, null, get, as_str, as_array, as_object, as_u64, is_string, is_number, is_boolean, is_array,
  is_object,
}
use ph_reactor.Doc.Data.{Doc, Field}
use ph_reactor.Model.Interface.{Reject, precondition, QuorumSpec, needs_field, needs_string}

-- The value of a field that is there and not deleted.
live_value : Option Field → Value
live_value none = null
live_value (some f) = if f.deleted then null else f.value

unfoldable pub current_value : Doc → String → Value
unfolding live_value
current_value state field = live_value (lookup field state.fields)

unfoldable pub current_array : Doc → String → List Value
unfolding current_value
current_array state field = unwrap_or [] (as_array (current_value state field))

unfoldable pub is_present : Doc → String → Bool
is_present state field = elim (lookup field state.fields) [ none ↦ false | some f ↦ not f.deleted ]

-- `v.as_str() == Some(s)`
abbrev pub str_is : String → Value → Bool
str_is s v = elim (as_str v) [ none ↦ false | some t ↦ t == s ]

unfoldable pub in_list : Doc → String → String → Bool
unfolding current_array
in_list state field origin = any (str_is origin) (current_array state field)

unfoldable pub field_name : Value → String → Result Reject String
field_name arg key = elim (get arg "field" ▷ as_str) [
  | none ↦ err (precondition (needs_field key))
  | some f ↦ ok f
]

unfoldable pub string_arg : Value → String → Result Reject String
string_arg arg key = elim (as_str arg) [
  | none ↦ err (precondition (needs_string key))
  | some s ↦ ok s
]

-- The first entry of an object, in key order.
abbrev pub first_member : Value → Option (String × Value)
first_member v = as_object v ▷ head?

unfoldable pub is_space_member : Value → Bool
is_space_member p = is_some (get p "space-member")

unfoldable pub is_quorum : Value → Bool
is_quorum p = is_some (get p "quorum")

unfoldable pub parse_quorum : Value → Option QuorumSpec
parse_quorum p = get p "quorum" ▷ λ q. get q "group" ▷ as_str ▷ λ group.
    get q "min" ▷ as_u64 ▷ λ min.
    some (record { group = group; min = min; field = unwrap_or "members" (get q "field" ▷ as_str) })

all_items : (Value → Bool) → Value → Bool
all_items test v = elim (as_array v) [ none ↦ false | some vs ↦ all test vs ]

-- An unknown type name allows every value.
unfoldable pub type_matches : Value → String → Bool
unfolding all_items
type_matches v want =
    if want == "string"
    then is_string v
    else if want == "number"
    then is_number v
    else if want == "boolean"
    then is_boolean v
    else if want == "object"
    then is_object v
    else if want == "array"
    then is_array v
    else if want == "string[]"
    then all_items is_string v
    else if want == "number[]"
    then all_items is_number v
    else if want == "boolean[]"
    then all_items is_boolean v
    else true
