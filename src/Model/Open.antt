-- ===== src/Model/Open.antt =====
-- `open@1` of src/model/open.rs: one field write for each action, with no precondition.
use ph_reactor.Base.{String, none, some, List, [], ◌∷◌, ◌||◌, ◌▷◌, if◌then◌else◌}
use ph_reactor.Base.Eq.{◌==◌, string_eq}
use ph_reactor.Base.Result.{Result, ok, err}
use ph_reactor.Json.{Value, get, as_str}
use ph_reactor.Doc.Data.{Doc, Op, model_ref}
use ph_reactor.Action.{Action}
use ph_reactor.Model.Interface.{
  Model, Reject, unknown_kind, bad_payload, Check, requires_field, field_empty, no_authorization,
  no_quorum, no_space,
}

unfoldable pub validate_payload : String → Value → Check
validate_payload kind payload =
    if kind == "create" || kind == "set"
    then elim (get payload "field" ▷ as_str) [
      | none ↦ err (bad_payload requires_field)
      | some field ↦ if field == "" then err (bad_payload field_empty) else ok tt
    ]
    else if kind == "delete"
    then ok tt
    else err (unknown_kind kind)

unfoldable pub reduce : Doc → Action → Result Reject (List Op)
reduce state action = ok (op ∷ [])
  where
    op : Op
    op = record {
      doc_id = action.doc_id;
      key = get action.payload "field" ▷ as_str;
      value = get action.payload "value";
      ts = action.ts;
      clock = action.clock;
      origin = action.origin;
      sig = action.sig;
    }

unfoldable pub open_model : Model
unfolding validate_payload reduce
open_model = record {
  ref_ = model_ref "open" "1";
  validate_payload = validate_payload;
  check_precondition = λ state action. ok tt;
  reduce = reduce;
  check_state = λ state. ok tt;
  authorize = no_authorization;
  quorum = no_quorum;
  requires_space_member = no_space;
  definition = none;
}
