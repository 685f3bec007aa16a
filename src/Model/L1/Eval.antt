-- ===== src/Model/L1/Eval.antt =====
-- Templates, writes and preconditions of src/model/l1.rs.
use Prim.Native.String.{slice, len}
use text.Mathlib.Text.{starts_with}
use ph_reactor.Base.{
  ℕ, zero, suc, String, Bool, none, some, [], ◌∷◌, ◌++◌, not, unwrap_or, keep, if◌then◌else◌,
}
use ph_reactor.Base.Eq.{◌==◌, string_eq}
use ph_reactor.Base.Result.{Result, ok, err, ◌>>=◌}
use ph_reactor.Json.{Value, null, num, str, array, get, value_eq}
use ph_reactor.Doc.Data.{Doc}
use ph_reactor.Action.{Action}
use ph_reactor.Model.Interface.{
  Reject, precondition, bad_state, Check, too_deep, single_key, field_is, must_not_be, field_absent,
  field_present, not_in_list, in_list as listed, actor_is, unknown_check, unsupported, one_write,
}
use ph_reactor.Model.L1.State.{
  current_value, current_array, is_present, in_list, field_name, string_arg, first_member,
}

-- A text template.
unfoldable pub text_template : Action → String → Value
text_template action s =
    if s == "$actor"
    then str action.origin
    else if s == "$ts"
    then num action.ts
    else if starts_with s "$payload."
    then unwrap_or null (get action.payload (slice s 9 (len s)))
    else str s

-- `$actor`, `$ts`, `$payload.<f>`, or a literal.
unfoldable pub eval_template : Action → Value → Value
unfolding text_template
eval_template action (str s) = text_template action s
eval_template action tmpl = tmpl

one_write_only : String → Result Reject Value
one_write_only field = err (bad_state (one_write field))

-- The write under its key.
write_with : Doc → Action → String → String → Value → Result Reject Value
unfolding current_array one_write_only
write_with state action field key tmpl =
    let item = eval_template action tmpl in
    if key == "set"
    then ok item
    else if key == "append"
    then ok (array (current_array state field ++ item ∷ []))
    else if key == "remove"
    then ok (array (keep (λ v. not (value_eq v item)) (current_array state field)))
    else one_write_only field

unfoldable pub write_value : Doc → Action → String → Value → Result Reject Value
unfolding write_with one_write_only
write_value state action field w = elim (first_member w) [
  | none ↦ one_write_only field
  | some (key, tmpl) ↦ write_with state action field key tmpl
]

refuse_unless : Bool → Reject → Check
refuse_unless test r = if test then ok tt else err r

-- One precondition form, with the evaluator of named checks.
unfoldable pub precond_form : Value → (Value → Check) → Doc → Action → String → Value → Check
unfolding refuse_unless
precond_form checks eval state action key arg =
    if key == "field-is"
    then (do
      f ← field_name arg "field-is"
      let want = unwrap_or null (get arg "value")
      let got = current_value state f
      refuse_unless (value_eq got want) (precondition (field_is f got want)))
    else if key == "field-not"
    then (do
      f ← field_name arg "field-not"
      let want = unwrap_or null (get arg "value")
      let got = current_value state f
      refuse_unless (not (value_eq got want)) (precondition (must_not_be f want)))
    else if key == "field-present"
    then (do
      f ← string_arg arg "field-present"
      refuse_unless (is_present state f) (precondition (field_absent f)))
    else if key == "field-absent"
    then (do
      f ← string_arg arg "field-absent"
      refuse_unless (not (is_present state f)) (precondition (field_present f)))
    else if key == "actor-in"
    then (do
      f ← string_arg arg "actor-in"
      refuse_unless (in_list state f action.origin) (precondition (not_in_list action.origin f)))
    else if key == "actor-not-in"
    then (do
      f ← string_arg arg "actor-not-in"
      refuse_unless (not (in_list state f action.origin)) (precondition (listed action.origin f)))
    else if key == "actor-is"
    then (do
      who ← string_arg arg "actor-is"
      refuse_unless (action.origin == who) (precondition (actor_is action.origin who)))
    else if key == "check"
    then (do
      name ← string_arg arg "check"
      elim (get checks name) [
        | none ↦ err (precondition (unknown_check name))
        | some sub ↦ eval sub
      ])
    else err (precondition (unsupported key))

-- Named checks nest at most eight deep: the first argument is `9 - depth`.
unfoldable pub eval_precond : ℕ → Value → Doc → Action → Value → Check
unfolding precond_form
eval_precond zero checks state action p = err (precondition too_deep)
eval_precond (suc levels) checks state action p = elim (first_member p) [
  | none ↦ err (precondition single_key)
  | some (key, arg) ↦
      precond_form checks (λ sub. eval_precond levels checks state action sub) state action key arg
]
