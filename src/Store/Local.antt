-- ===== src/Store/Local.antt =====
-- Local writes of src/store.rs: building and signing an action, creating documents and spaces, and
-- field writes by name. The current time and a fresh document id are arguments.
pub mod Build
use Prim.Native.Char.{code}
use Prim.Native.String
use ph_reactor.Base.{
  ℕ, ◌≡◌, ◌+◌, ◌<◌, Bool, true, false, Option, none, some, List, [], ◌∷◌, ◌&&◌, ◌||◌, not, leb, ltb,
  eqb, max, length, is_empty, last?, is_some, unwrap_or, ◌▷◌, if◌then◌else◌, String,
}
use ph_reactor.Base.Eq.{Eq, ◌==◌, string_eq, nat_eq}
use ph_reactor.Base.Bytes.{as_bytes}
use ph_reactor.Base.Map.{Map, lookup, insert, contains_key}
use ph_reactor.Base.Result.{Result, ok, err}
use ph_reactor.Json.{Value, str, object}
use ph_reactor.Doc.Clock.{VecClock, tick, u64}
use ph_reactor.Doc.Data.{DocId, ModelRef, model_ref}
use ph_reactor.Doc.Apply.{ApplyResult}
use ph_reactor.Action.{Action, Extern, sign, action_hash}
use ph_reactor.Model.Registry.{find}
use ph_reactor.Store.State.{
  max_name_len, name_key, open_ref, Entry, new_entry, Inner, StoreError, bad_name, name_taken,
  no_doc, id_taken,
}
use ph_reactor.Store.Apply.{Outcome, then_with, apply_action, entry_or_new}

-- `next_ts`
unfoldable pub next_ts : Inner → ℕ → Inner × ℕ
next_ts s now = let ts = u64 (max s.ts_hint now + 1) in (record s { ts_hint = ts }, ts)

unfoldable pub canonical_model_ref : Inner → ModelRef → ModelRef
canonical_model_ref s ref_ = elim (find s.models ref_) [ none ↦ ref_ | some m ↦ m.ref_ ]

-- The unsigned action for the entry of document `id`.
unfoldable pub draft : Extern → Inner → Entry → DocId → ℕ → ModelRef → String → Value → Action
unfolding canonical_model_ref
draft x s e id ts model kind payload = record {
  doc_id = id;
  model = canonical_model_ref s model;
  kind = kind;
  payload = payload;
  ts = ts;
  clock = (tick e.clock s.origin).0;
  origin = s.origin;
  cosig = [];
  prev_hash = last? e.log ▷ λ a. some (action_hash x a);
  space = e.space;
  sig = [];
}

-- The callers have looked the document up, so its entry is an argument.
unfoldable pub build_action :
    Extern → Inner → ℕ → Entry → DocId → ModelRef → String → Value → Action × Inner
unfolding next_ts draft
build_action x s now e id model kind payload =
    let (s', ts) = next_ts s now in (sign x (draft x s' e id ts model kind payload) s.key, s')

-- `build_action`, then `apply_action`.
unfoldable pub build_and_apply :
    Extern → Inner → ℕ → DocId → ModelRef → String → Value → Outcome Action
unfolding build_action
build_and_apply x s now id model kind payload =
    let (a, s') = build_action x s now (entry_or_new s id) id model kind payload in
    then_with (apply_action x s' a) λ r s2. (ok a, s2)

is_name_char : ℕ → Bool
is_name_char c =
    (leb 97 c && leb c 122) || ((leb 48 c && leb c 57) || (eqb c 45 || (eqb c 95 || eqb c 46)))

name_chars : String → Bool
unfolding is_name_char
name_chars String.[] = true
name_chars (String.◌∷◌ c s) = is_name_char (code c) && name_chars s

starts_with_dot : String → Bool
starts_with_dot String.[] = false
starts_with_dot (String.◌∷◌ c s) = eqb (code c) 46

-- `validate_name`
unfoldable pub valid_name : String → Bool
unfolding name_chars starts_with_dot
valid_name name =
    not (name == "")
    && (leb (length (as_bytes name)) max_name_len
        && (name_chars name && not (starts_with_dot name)))

-- The name is valid and free, then the rest runs.
unfoldable pub with_free_name : {A : Type 0} → Inner → String → Outcome A → Outcome A
with_free_name s name rest =
    if not (valid_name name)
    then (err (bad_name name), s)
    else if contains_key name s.names
    then (err (name_taken name), s)
    else rest

set_payload : String → Value → Value
unfolding object
set_payload field value = object (("field", str field) ∷ ("value", value) ∷ [])

-- One `set` action for each field.
set_fields : Extern → Inner → ℕ → DocId → List (String × Value) → Outcome (Unit {0})
unfolding set_payload
set_fields x s now id [] = (ok tt, s)
set_fields x s now id ((field, value) ∷ rest) =
    then_with (build_and_apply x s now id open_ref "set" (set_payload field value))
      λ a s'. set_fields x s' now id rest

unfoldable pub create_doc :
    Extern → Inner → ℕ → DocId → String → List (String × Value) → Outcome DocId
unfolding with_free_name set_fields
create_doc x s now id name fields =
    let s1 = record s { entries = insert id (new_entry id) s.entries } in
    with_free_name s name (
      then_with (build_and_apply x s1 now id open_ref "create" (set_payload name_key (str name)))
        λ a s2.
          then_with (set_fields x s2 now id fields)
            λ u s3. (ok id, record s3 { names = insert name id s3.names }))

unfoldable pub create_doc_in_space :
    Extern → Inner → ℕ → DocId → String → ModelRef → Value → Option DocId → Outcome DocId
unfolding with_free_name
create_doc_in_space x s now id name model payload space =
    let s1 = record s { entries = insert id (record (new_entry id) { space = space }) s.entries } in
    with_free_name s name
      (then_with (build_and_apply x s1 now id model "init" payload) λ a s2. (ok id, s2))

-- A space lives in itself.
unfoldable pub create_space_at : Extern → Inner → ℕ → DocId → String → Value → Outcome DocId
unfolding with_free_name
create_space_at x s now id name payload =
    let s1 = record s {
      entries = insert id (record (new_entry id) { space = some id }) s.entries;
    } in
    let made =
      then_with (build_and_apply x s1 now id (model_ref "space" "1") "init" payload)
        λ a s2. (ok id, s2) in
    with_free_name s name (if contains_key id s.entries then (err (id_taken id), s) else made)

unfoldable pub apply_local_action :
    Extern → Inner → ℕ → String → ModelRef → String → Value → Outcome Action
apply_local_action x s now name model kind payload = elim (lookup name s.names) [
  | none ↦ (err (no_doc name), s)
  | some id ↦ build_and_apply x s now id model kind payload
]

unfoldable pub update_field : Extern → Inner → ℕ → String → String → Value → Outcome Action
unfolding apply_local_action set_payload
update_field x s now name field value =
    apply_local_action x s now name open_ref "set" (set_payload field value)

unfoldable pub delete_field : Extern → Inner → ℕ → String → String → Outcome Action
unfolding apply_local_action object
delete_field x s now name field =
    apply_local_action x s now name open_ref "delete" (object (("field", str field) ∷ []))

unfoldable pub delete_doc : Extern → Inner → ℕ → String → Outcome Action
unfolding apply_local_action object
delete_doc x s now name = apply_local_action x s now name open_ref "delete" (object [])
