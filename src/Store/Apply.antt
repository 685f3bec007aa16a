-- ===== src/Store/Apply.antt =====
-- `apply_action` of src/store.rs, the single path of local and remote actions. What was written
-- before an error stays written, so the state comes back beside the result.
pub mod Keeps
pub mod Frame
pub mod Invariant
pub mod Quiet
pub mod Outcome
use ph_reactor.Base.{
  ℕ, ◌≡◌, ◌≤◌, String, Bool, true, false, Option, none, some, List, [], ◌∷◌, ◌++◌, ◌&&◌, ◌||◌, not,
  leb, max, is_empty, length, last?, unwrap_or, ◌▷◌, if◌then◌else◌,
}
use ph_reactor.Base.Eq.{Eq, ◌==◌, string_eq, nat_eq}
use ph_reactor.Base.Map.{Map, lookup, insert, remove}
use ph_reactor.Base.Result.{Result, ok, err}
use ph_reactor.Json.{Value, get, as_str, as_object}
use ph_reactor.Doc.Data.{DocId, Doc}
use ph_reactor.Doc.Apply.{ApplyResult}
use ph_reactor.Action.{Action, Extern}
use ph_reactor.Model.Interface.{Model}
use ph_reactor.Store.State.{
  snapshot_ops, open_ref, DocState, Entry, new_entry, DocChange, Disk, Inner, StoreError, rejected,
  write_failed, state_of, quarantine,
}
use ph_reactor.Store.Fold.{canon_lt, apply_ops_to_entry, refold}
use ph_reactor.Store.Admit.{admit}

-- A state and a result, and what runs after a success.
abbrev pub Outcome : Type 0 → Type 0
Outcome A = Result StoreError A × Inner

abbrev pub then_with : {A B : Type 0} → Outcome A → (A → Inner → Outcome B) → Outcome B
then_with (ok v, s) f = f v s
then_with (err e, s) f = (err e, s)

-- One more line in the document's log file; a failed write is only logged.
unfoldable pub persist_action : Inner → Action → Inner
persist_action s a =
    if s.disk.writable
    then record s {
      disk = record (s.disk) {
        alogs =
            insert a.doc_id (unwrap_or [] (lookup a.doc_id s.disk.alogs) ++ a ∷ []) s.disk.alogs;
      };
    }
    else s

-- The snapshot and the emptied log; the model it names is always `open@1`.
unfoldable pub snapshot_entry : Extern → Inner → DocId → Entry → Outcome (Unit {0})
snapshot_entry x s id e =
    if s.disk.writable
    then (
      ok tt,
      record s {
        disk = record (s.disk) {
          snaps = insert id (record (state_of x e) { model = open_ref }) s.disk.snaps;
          alogs = insert id [] s.disk.alogs;
        };
        entries = insert id (record e { log = [] }) s.entries;
      },
    )
    else (err write_failed, s)

unfoldable pub snapshot : Extern → Inner → DocId → Outcome (Unit {0})
unfolding snapshot_entry
snapshot x s id = elim (lookup id s.entries) [
  | none ↦ (ok tt, s)
  | some e ↦ snapshot_entry x s id e
]

-- The field and the value that a change notification names.
action_field_value : Value → Option String × Option Value
action_field_value payload = elim (get payload "field" ▷ as_str) [
  | some f ↦ (some f, get payload "value")
  | none ↦ elim (as_object payload) [ some ms ↦ lone ms | none ↦ (none, none) ]
]
  where
    lone : List (String × Value) → Option String × Option Value
    lone ((k, v) ∷ []) = (some k, some v)
    lone _ = (none, none)

unfoldable pub emit_change : Extern → Inner → DocId → ℕ → Option Action → Inner
unfolding action_field_value
emit_change x s id ts action = elim (lookup id s.entries) [
  | none ↦ s
  | some e ↦ record s { changes = s.changes ++ change e ∷ [] }
]
  where
    fields : Option String × Option Value
    fields = elim action [ none ↦ (none, none) | some a ↦ action_field_value a.payload ]

    change : Entry → DocChange
    change e = record {
      doc_id = id;
      name = e.doc.name;
      model = e.model;
      deleted = e.deleted;
      state = state_of x e;
      ts = ts;
      action_kind = action ▷ λ a. some a.kind;
      action_field = fields.0;
      action_value = fields.1;
    }

-- After an action that changed something: a local one is handed to the sync layer, and the high-water
-- mark of timestamps follows.
unfoldable pub publish : Inner → Action → Bool → Inner
publish s a applied =
    let s' = record s { ts_hint = max s.ts_hint a.ts } in
    let sent = record s' {
      outbound = s.outbound ++ a ∷ [];
      outbound_feed = s.outbound_feed ▷ λ sent. some (sent ++ a ∷ []);
    } in
    if applied then (if a.origin == s.origin then sent else s') else s

-- `self.names.get(&name) == Some(id)`
abbrev pub names_id : Inner → String → DocId → Bool
names_id s name id = elim (lookup name s.names) [ none ↦ false | some j ↦ j == id ]

name_entry : Inner → DocId → Entry → Inner
name_entry s id e =
    if e.deleted
    then if not (e.doc.name == "") && names_id s e.doc.name id
      then record s { names = remove e.doc.name s.names }
      else s
    else if e.doc.name == ""
    then s
    else record s { names = insert e.doc.name id s.names }

-- Step 7: the name index follows the document.
unfoldable pub index_name : Inner → DocId → Inner
unfolding name_entry
index_name s id = elim (lookup id s.entries) [ none ↦ s | some e ↦ name_entry s id e ]

unfoldable pub out_of_order : Extern → Inner → Action → Bool
out_of_order x s a = elim (lookup a.doc_id s.entries ▷ λ e. last? e.log) [
  | none ↦ false
  | some last ↦ canon_lt x a last
]

-- The entry of a document, made where there is none.
unfoldable pub entry_or_new : Inner → DocId → Entry
entry_or_new s id = unwrap_or (new_entry id) (lookup id s.entries)

-- Step 4 on the entry: the space of a first action, the merge, the model, the log.
unfoldable pub log_action : Entry → Model → Action → Entry × Bool
log_action e m a =
    let bound = if is_empty e.log then record e { space = a.space } else e in
    let (merged, applied) = apply_ops_to_entry bound m a in
    (record merged { model = a.model; log = merged.log ++ a ∷ [] }, applied)

abbrev pub or_as_it_was : Inner → Result StoreError Inner → Outcome (Unit {0})
or_as_it_was s (ok s') = (ok tt, s')
or_as_it_was s (err e) = (err e, s)

-- `if out_of_order { self.refold(..)? }`
unfoldable pub reorder : Extern → Inner → DocId → Bool → Outcome (Unit {0})
reorder x s id late = if late then or_as_it_was s (refold x s id) else (ok tt, s)

unfoldable pub log_is_long : Inner → DocId → Bool
log_is_long s id = elim (lookup id s.entries) [
  | none ↦ false
  | some e ↦ leb snapshot_ops (length e.log)
]

-- Steps 6 and 7, and the notification.
unfoldable pub finish : Extern → Inner → Action → Bool → Bool → Outcome ApplyResult
finish x s a applied deleted =
    then_with (if log_is_long s a.doc_id then snapshot x s a.doc_id else (ok tt, s)) λ _ s1.
      let s2 = index_name s1 a.doc_id in
      (
        ok (record { applied = applied; doc_deleted = deleted }),
        if applied || deleted then emit_change x s2 a.doc_id a.ts (some a) else s2,
      )

-- Steps 4 to 7, after the precondition has passed.
unfoldable pub commit : Extern → Inner → Model → Action → Outcome ApplyResult
commit x s m a =
    let late = out_of_order x s a in
    let (e, applied) = log_action (entry_or_new s a.doc_id) m a in
    let s1 = record s { entries = insert a.doc_id e s.entries } in
    then_with (reorder x s1 a.doc_id late)
      λ _ s2. finish x (publish (persist_action s2 a) a applied) a applied e.deleted

-- A failed precondition leaves the entry that was looked up or made.
unfoldable pub apply_admitted : Extern → Inner → Model → Action → Outcome ApplyResult
apply_admitted x s m a =
    let e = entry_or_new s a.doc_id in
    elim (m.check_precondition e.doc a) [
      | err r ↦ (err (rejected r), quarantine (record s { entries = insert a.doc_id e s.entries }))
      | ok _ ↦ commit x s m a
    ]

unfoldable pub apply_action : Extern → Inner → Action → Outcome ApplyResult
apply_action x s a = elim (admit x s a) [
  | err e ↦ (err e, quarantine s)
  | ok m ↦ apply_admitted x s m a
]
