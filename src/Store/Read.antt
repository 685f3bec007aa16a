-- ===== src/Store/Read.antt =====
-- Reads of src/store.rs: who may read a document, summaries, catch-up, and the pinned keys.
pub mod Access
pub mod CatchUp
pub mod Keys
use ph_reactor.Base.{
  ℕ, ◌≡◌, String, Bool, true, false, Option, none, some, List, [], ◌∷◌, ◌++◌, not, any, keep,
  filter_map, length, map, unwrap_or, ◌▷◌, if◌then◌else◌,
}
use ph_reactor.Base.Eq.{Eq, ◌==◌, string_eq, nat_eq}
use ph_reactor.Base.Bytes.{bytes_eq}
use ph_reactor.Base.Map.{Map, lookup, insert}
use ph_reactor.Base.Result.{Result, ok, err}
use ph_reactor.Json.{Value, as_str}
use ph_reactor.Doc.Clock.{Origin, VecClock, covers}
use ph_reactor.Doc.Data.{DocId, Doc, live}
use ph_reactor.Action.{Action, Extern}
use ph_reactor.Store.State.{
  DocState, Entry, new_entry, Inner, StoreError, key_mismatch, lift_name, state_of,
}
use ph_reactor.Store.Admit.{list_of}
use ph_reactor.Store.Apply.{Outcome, emit_change, entry_or_new}

-- `visibility_of` of src/model/space.rs, private where a document does not say.
unfoldable pub visibility_of : Doc → String
visibility_of d = unwrap_or "private" (lookup "visibility" d.fields ▷ λ f. as_str f.value)

-- `may_gossip` and `replicates` of src/model/space.rs.
unfoldable pub may_gossip : String → Bool
may_gossip visibility = visibility == "public"

unfoldable pub replicates : String → Bool
replicates visibility = not (visibility == "private")

-- What a space's document lets a peer read.
unfoldable pub gate_opens : Doc → String → Bool
gate_opens gate peer =
    let visibility = visibility_of gate in
    if visibility == "public"
    then true
    else if visibility == "private"
    then false
    else any (λ m. m == peer) (list_of gate "members")

-- The space's entry, which is the document's own where the space is the document.
unfoldable pub gate_of : Inner → DocId → Entry → DocId → Option Entry
gate_of s id e space = if space == id then some e else lookup space s.entries

unfoldable pub may_peer_read : Inner → String → DocId → Bool
unfolding gate_of
may_peer_read s peer id = elim (lookup id s.entries) [
  | none ↦ false
  | some e ↦ elim e.space [
    | none ↦ true
    | some space ↦ elim (gate_of s id e space) [
      | none ↦ false
      | some gate ↦ gate_opens gate.doc peer
    ]
  ]
]

unfoldable pub space_visibility : Inner → DocId → Option String
unfolding gate_of
space_visibility s id = lookup id s.entries ▷ λ e.
    e.space ▷ λ space. gate_of s id e space ▷ λ gate. some (visibility_of gate.doc)

unfoldable pub summary : Inner → List (DocId × VecClock)
summary s = map (λ entry. (entry.0, entry.1.clock)) s.entries

unfoldable pub summary_for : Inner → String → List (DocId × VecClock)
unfolding summary
summary_for s peer = keep (λ entry. may_peer_read s peer entry.0) (summary s)

unfoldable pub catch_up : Extern → Inner → DocId → VecClock → Option DocState × List Action
catch_up x s id have = elim (lookup id s.entries) [
  | none ↦ (none, [])
  | some e ↦ (some (state_of x e), keep (λ a. not (covers have a.clock)) e.log)
]

-- Trust on first use.
unfoldable pub register_peer_key : Inner → Origin → List ℕ → Outcome (Unit {0})
unfolding bytes_eq
register_peer_key s origin key = elim (lookup origin s.known_keys) [
  | none ↦ (ok tt, record s { known_keys = insert origin key s.known_keys })
  | some pinned ↦ if bytes_eq pinned key then (ok tt, s) else (err (key_mismatch origin), s)
]

-- Wholesale adoption of a peer's state: the log is dropped, the space is left as it was.
unfoldable pub adopt_state : Extern → Inner → DocState → Inner
adopt_state x s state =
    let e = record (entry_or_new s state.doc.id) {
      doc = lift_name state.doc;
      clock = state.clock;
      deleted = state.deleted;
      model = state.model;
      log = [];
    } in
    let s' = record s { entries = insert state.doc.id e s.entries } in
    emit_change x s' state.doc.id s.ts_hint none

-- The live document of a name.
unfoldable pub get_doc : Inner → String → Option Doc
get_doc s name = lookup name s.names ▷ λ id.
    lookup id s.entries ▷ λ e. if e.deleted then none else some (live e.doc)

unfoldable pub list_docs : Inner → List Doc
list_docs s =
    filter_map (λ entry. if entry.1.deleted then none else some (live entry.1.doc)) s.entries

unfoldable pub full_state : Extern → Inner → DocId → Option DocState
full_state x s id = lookup id s.entries ▷ λ e. some (state_of x e)

-- The pinned peers, without this node.
unfoldable pub known_peers : Inner → List Origin
known_peers s =
    filter_map (λ entry. if entry.0 == s.origin then none else some entry.0) s.known_keys
