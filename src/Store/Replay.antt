-- ===== src/Store/Replay.antt =====
-- `replay_doc`, `replay` and `persist_index` of src/store.rs: the state after a restart. The lines of
-- a log file that do not parse are not modelled.
use ph_reactor.Base.{
  ℕ, Bool, Option, none, some, List, [], ◌∷◌, ◌++◌, ◌&&◌, not, max, is_empty, unwrap_or,
  if◌then◌else◌,
}
use ph_reactor.Base.Eq.{◌==◌, string_eq, nat_eq}
use ph_reactor.Base.Map.{lookup, insert}
use ph_reactor.Doc.Data.{DocId}
use ph_reactor.Action.{Action, Extern}
use ph_reactor.Model.Interface.{Model}
use ph_reactor.Model.Registry.{find}
use ph_reactor.Store.State.{Entry, Inner, base_entry}
use ph_reactor.Store.Fold.{canon_sort, apply_ops_to_entry}

-- `if entry.space.is_none() { entry.space = action.space }`
abbrev pub or_space : Option DocId → Option DocId → Option DocId
or_space (some s) space = some s
or_space none space = space

-- A model that is not loaded keeps the action for the audit; one that is loaded keeps it if it did
-- something.
unfoldable pub replay_with : Entry → Option Model → Action → Entry
replay_with e none a = record e { log = e.log ++ a ∷ [] }
replay_with e (some m) a =
    let (merged, applied) = apply_ops_to_entry e m a in
    record merged { model = a.model; log = if applied then merged.log ++ a ∷ [] else merged.log }

unfoldable pub replay_action : Inner → Entry → Action → Entry
unfolding replay_with
replay_action s e a =
    replay_with (record e { space = or_space e.space a.space }) (find s.models a.model) a

unfoldable pub replay_log : Inner → Entry → List Action → Entry
unfolding replay_action
replay_log s e [] = e
replay_log s e (a ∷ rest) = replay_log s (replay_action s e a) rest

max_ts : List Action → ℕ
max_ts [] = 0
max_ts (a ∷ rest) = max a.ts (max_ts rest)

unfoldable pub replay_entry : Extern → Inner → DocId → Entry
unfolding replay_log
replay_entry x s id =
    let base = base_entry id (lookup id s.disk.snaps) in
    replay_log s (record base { doc = record (base.doc) { id = id } })
      (canon_sort x (unwrap_or [] (lookup id s.disk.alogs)))

is_blank : Entry → Bool
is_blank e = e.doc.name == "" && (is_empty e.doc.fields && (is_empty e.log && not e.deleted))

unfoldable pub replay_doc : Extern → Inner → DocId → Inner
unfolding replay_entry max_ts is_blank
replay_doc x s id =
    let e = replay_entry x s id in
    let s' = record s { entries = insert id e s.entries; ts_hint = max s.ts_hint (max_ts e.log) } in
    if is_blank e
    then s
    else if e.doc.name == ""
    then s'
    else record s' { names = insert e.doc.name id s.names }

replay_docs : Extern → Inner → List (DocId × List Action) → Inner
replay_docs x s [] = s
replay_docs x s ((id, log) ∷ rest) = replay_docs x (replay_doc x s id) rest

unfoldable pub persist_index : Inner → Inner
persist_index s =
    if s.disk.writable then record s { disk = record (s.disk) { index = some s.ts_hint } } else s

-- Every document with a log file. The documents do not read each other, so their order does not
-- matter but for two of one name.
unfoldable pub replay : Extern → Inner → Inner
unfolding replay_docs persist_index
replay x s =
    let s1 = record s { ts_hint = max s.ts_hint (unwrap_or 0 s.disk.index) } in
    persist_index (replay_docs x s1 s.disk.alogs)
