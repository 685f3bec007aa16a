-- ===== src/Model/L1/Interpreter.antt =====
-- `L1` of src/model/l1.rs: a definition, read as a model.
use ph_reactor.Base.{
  String, Bool, false, ◌||◌, Option, none, some, List, [], ◌∷◌, not, any, unwrap_or, find_map, ◌▷◌,
  if◌then◌else◌,
}
use ph_reactor.Base.Eq.{◌==◌, string_eq}
use ph_reactor.Base.Map.{lookup}
use ph_reactor.Base.Result.{Result, ok, err, ◌>>=◌, ◌>>◌}
use ph_reactor.Json.{Value, null, str, get, as_str, as_array, as_object, value_eq}
use ph_reactor.Doc.Data.{Doc, ModelRef, Op, Hash32}
use ph_reactor.Action.{Action, Extern}
use ph_reactor.Model.Interface.{
  Model, Reject, unknown_kind, bad_payload, precondition, bad_state, Check, QuorumSpec,
  missing_payload, payload_type, field_type, private_channel,
}
use ph_reactor.Model.L1.State.{
  current_array, str_is, is_space_member, is_quorum, parse_quorum, type_matches,
}
use ph_reactor.Model.L1.Eval.{eval_template, write_value, eval_precond}

pub record L1 : Type 0 where
  pub ref_ : ModelRef
  pub def : Value
  pub fields : Value
  pub reducers : Value
  pub checks : Value
  pub auth : Value

-- SHA-256 of the definition's JSON.
unfoldable pub model_def_hash : Extern → Value → Hash32
model_def_hash x def = x.sha256 (x.to_vec def)

abbrev pub get_str : Value → String → String → String
get_str v key default = unwrap_or default (get v key ▷ as_str)

abbrev pub get_or_null : Value → String → Value
get_or_null v key = unwrap_or null (get v key)

unfoldable pub from_def : Extern → Value → Result String L1
unfolding model_def_hash
from_def x def =
    let name = get_str def "name" "" in
    if name == ""
    then err "l1 model definition requires a non-empty 'name'"
    else ok (record {
      ref_ = record {
        name = name;
        version = get_str def "version" "1";
        hash = some (model_def_hash x def);
      };
      def = def;
      fields = get_or_null def "fields";
      reducers = get_or_null def "reducers";
      checks = get_or_null def "checks";
      auth = get_or_null def "auth";
    })

pre_list : L1 → String → List Value
pre_list m kind = unwrap_or [] (get m.reducers kind ▷ λ r. get r "pre" ▷ as_array)

check_fields : Value → List (String × Value) → Check
check_fields payload [] = ok tt
check_fields payload ((f, t) ∷ rest) =
    let next = check_fields payload rest in
    let want = unwrap_or "" (as_str t) in
    elim (get payload f) [
      | none ↦ err (bad_payload (missing_payload f want))
      | some got ↦ if type_matches got want then next else err (bad_payload (payload_type f want))
    ]

unfoldable pub validate_payload : L1 → String → Value → Check
unfolding check_fields
validate_payload m kind payload = elim (get m.reducers kind) [
  | none ↦ err (unknown_kind kind)
  | some r ↦ check_fields payload (unwrap_or [] (as_object (get_or_null r "payload")))
]

check_all : L1 → Doc → Action → List Value → Check
check_all m state action [] = ok tt
check_all m state action (p ∷ rest) =
    let next = check_all m state action rest in
    if is_quorum p || is_space_member p
    then next
    else eval_precond 9 m.checks state action p >> next

unfoldable pub check_precondition : L1 → Doc → Action → Check
unfolding check_all pre_list
check_precondition m state action = check_all m state action (pre_list m action.kind)

-- The operation for one entry of `writes`.
abbrev pub write_op : Action → String → Value → Op
write_op action field value = record {
  doc_id = action.doc_id;
  key = some field;
  value = some value;
  ts = action.ts;
  clock = action.clock;
  origin = action.origin;
  sig = action.sig;
}

unfoldable pub reduce_writes : Doc → Action → List (String × Value) → Result Reject (List Op)
reduce_writes state action [] = ok []
reduce_writes state action ((field, w) ∷ rest) =
    let later = reduce_writes state action rest in
    do value ← write_value state action field w; ops ← later; ok (write_op action field value ∷ ops)

unfoldable pub reduce : L1 → Doc → Action → Result Reject (List Op)
unfolding reduce_writes
reduce m state action = elim (get m.reducers action.kind) [
  | none ↦ err (unknown_kind action.kind)
  | some r ↦ reduce_writes state action (unwrap_or [] (as_object (get_or_null r "writes")))
]

check_types : Doc → List (String × Value) → Check
check_types state [] = ok tt
check_types state ((field, t) ∷ rest) =
    let next = check_types state rest in
    let want = unwrap_or "" (as_str t) in
    elim (lookup field state.fields) [
      | none ↦ next
      | some f ↦
          if f.deleted || type_matches f.value want
          then next
          else err (bad_state (field_type field want))
    ]

unfoldable pub check_state : L1 → Doc → Check
unfolding check_types
check_state m state = check_types state (unwrap_or [] (as_object m.fields))

unfoldable pub quorum : L1 → String → Option QuorumSpec
unfolding pre_list
quorum m kind = find_map parse_quorum (pre_list m kind)

unfoldable pub requires_space_member : L1 → String → Option String
unfolding pre_list
requires_space_member m kind =
    find_map (λ p. get p "space-member" ▷ λ v. some (unwrap_or "members" (as_str v)))
      (pre_list m kind)

-- `entry.get(key) == Some(want)`
unfoldable pub entry_is : Value → String → Value → Bool
entry_is entry key want = elim (get entry key) [ none ↦ false | some v ↦ value_eq v want ]

-- The private-entry rule on the entries of the array field.
unfoldable pub authorize_entries : Value → Value → Action → List Value → Check
unfolding entry_is
authorize_entries rule match_val action [] = ok tt
authorize_entries rule match_val action (entry ∷ rest) =
    let next = authorize_entries rule match_val action rest in
    let named = entry_is entry (get_str rule "name" "name") match_val in
    let private =
      entry_is entry (get_str rule "visibility" "visibility")
        (str (get_str rule "private" "private")) in
    let allow = unwrap_or [] (get entry (get_str rule "allow" "members") ▷ as_array) in
    if not named || not private || any (str_is action.origin) allow
    then next
    else err (precondition (private_channel action.origin match_val))

unfoldable pub authorize : L1 → Doc → Action → Check
unfolding authorize_entries
authorize m state action = elim (get m.auth action.kind) [
  | none ↦ ok tt
  | some rule ↦
      authorize_entries rule (eval_template action (get_or_null rule "match")) action
        (current_array state (get_str rule "field" ""))
]

unfoldable pub as_model : L1 → Model
unfolding validate_payload check_precondition reduce check_state authorize quorum
    requires_space_member
as_model m = record {
  ref_ = m.ref_;
  validate_payload = validate_payload m;
  check_precondition = check_precondition m;
  reduce = reduce m;
  check_state = check_state m;
  authorize = authorize m;
  quorum = quorum m;
  requires_space_member = requires_space_member m;
  definition = some m.def;
}
