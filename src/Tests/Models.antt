-- ===== src/Tests/Models.antt =====
-- The space model and an authorization rule.
use ph_reactor.Base.{String, ◌≡◌, ◌↔◌, ◌∙◌, refl, sym, true, none, some, List, [], ◌∷◌, All}
use ph_reactor.Base.Map.{lookup, insert, lookup-nil}
use ph_reactor.Base.Result.{ok, err}
use ph_reactor.Json.{Value, str, array, object}
use ph_reactor.Doc.Data.{Doc, Hash32, Op, model_ref}
use ph_reactor.Action.{Action}
use ph_reactor.Model.L1.State.{in_list, current_array, current_value}
use ph_reactor.Model.L1.Eval.{write_value, eval_template, text_template}
use ph_reactor.Json.Data.{insert_member}
use ph_reactor.Base.Text.{str_lt}
use ph_reactor.Model.L1.Interpreter.{
  L1, from_def, model_def_hash, get_or_null, get_str, reduce, reduce_writes, authorize,
  authorize_entries, entry_is, check_precondition, as_model,
}
use ph_reactor.Model.Builtin.Space.{space_def}
use ph_reactor.Model.Registry.{ModelRegistry, find, insert_model}
use ph_reactor.Model.Laws.{
  Writes, reduce-Writes, Keyed, insert_model-Keyed, find_pinned, add_member_iff,
}
use ph_reactor.Model.Private.{IsEntry, Allowed, authorize_iff}
use ph_reactor.Model.Interface.{precondition, private_channel}
use ph_reactor.Json.{value_eq}
use ph_reactor.Tests.Fixture.{crypto, from_alice, empty_doc, live_field}

space : L1
space = record {
  ref_ = record { name = "space"; version = "1"; hash = some (model_def_hash crypto space_def) };
  def = space_def;
  fields = get_or_null space_def "fields";
  reducers = get_or_null space_def "reducers";
  checks = get_or_null space_def "checks";
  auth = get_or_null space_def "auth";
}

space_loads : from_def crypto space_def ≡ ok space
unfolding from_def space space_def object model_def_hash
space_loads = refl

-- Alice adds Bob to a space that she manages.
add_bob : Action
add_bob = record from_alice { kind = "add-member"; payload = object (("member", str "bob") ∷ []) }

managed : Doc
managed = record empty_doc { fields = ("managers", live_field (array (str "alice" ∷ []))) ∷ [] }

add_member_iff_example :
    check_precondition space managed add_bob ≡ ok tt
    ↔ in_list managed "managers" add_bob.origin ≡ true
unfolding add_bob
add_member_iff_example = add_member_iff crypto space managed add_bob space_loads kind
  where
    kind : add_bob.kind ≡ "add-member"
    kind = refl

ops : List Op
ops = elim (reduce space managed add_bob) [ ok written ↦ written | err r ↦ [] ]

reduced : reduce space managed add_bob ≡ ok ops
unfolding ops reduce reduce_writes write_value space managed add_bob object insert_member space_def
    current_array current_value lookup str_lt ph_reactor.Action.sign eval_template
reduced = refl

reduce-Writes_example : All (Writes add_bob) ops
reduce-Writes_example = reduce-Writes space managed add_bob ops reduced

registry : ModelRegistry
registry = insert_model (as_model space) []

registry-Keyed : Keyed registry
unfolding registry
registry-Keyed = insert_model-Keyed [] (as_model space) nothing
  where
    nothing : Keyed []
    nothing name version m h = absurd (cc (sym (lookup-nil (name, version)) ∙ h))

found : find registry (model_ref "space" "1") ≡ some (as_model space)
unfolding find registry insert_model insert lookup as_model space
found = refl

find_pinned_example :
    ((as_model space).ref_.name ≡ "space")
    × ((as_model space).ref_.version ≡ "1")
    × ((h : Hash32) → none ≡ some h → (as_model space).ref_.hash ≡ some h)
find_pinned_example =
    find_pinned registry (model_ref "space" "1") (as_model space) registry-Keyed found

-- A model whose `edit` of a channel asks that the actor is on the list of a private one.
abbrev rule : Value
rule = object (("field", str "channels") ∷ ("match", str "$payload.channel") ∷ [])

guarded : L1
guarded = record space { auth = object (("edit", rule) ∷ []) }

abbrev edit : String → Action
edit actor = record from_alice {
  kind = "edit";
  payload = object (("channel", str "board") ∷ []);
  origin = actor;
}

abbrev channel : String → String → Value
channel name member =
    object (
      ("name", str name)
      ∷ ("visibility", str "private")
      ∷ ("members", array (str member ∷ []))
      ∷ [])

-- The board's channel is Alice's, the other one Bob's.
abbrev channels : Doc
channels = record empty_doc {
  fields =
      ("channels", live_field (array (channel "board" "alice" ∷ channel "lobby" "bob" ∷ []))) ∷ [];
}

run_alice : authorize guarded channels (edit "alice") ≡ ok tt
unfolding guarded authorize authorize_entries entry_is current_array current_value eval_template
    text_template object insert_member str_lt lookup value_eq
run_alice = refl

run_bob :
    authorize guarded channels (edit "bob")
    ≡ err (precondition (private_channel "bob" (str "board")))
unfolding guarded authorize authorize_entries entry_is current_array current_value eval_template
    text_template object insert_member str_lt lookup value_eq
run_bob = refl

authorize_iff_example : authorize guarded channels (edit "bob") ≡ ok tt ↔ (
    (entry : Value)
    → IsEntry channels (get_str rule "field" "") entry
    → Allowed rule (edit "bob") entry)
unfolding guarded object insert_member
authorize_iff_example = authorize_iff guarded channels (edit "bob") rule refl
