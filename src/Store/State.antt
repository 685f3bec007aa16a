-- ===== src/Store/State.antt =====
-- The data of src/store.rs. Strings of errors are constructors of `StoreError`; a channel is the list
-- of what was sent into it.
use ph_reactor.Base.{
  ℕ, ◌+◌, String, Bool, false, Option, none, some, List, [], unwrap_or, ◌▷◌, last?,
}
use ph_reactor.Base.Eq.{string_eq, nat_eq}
use ph_reactor.Base.Map.{Map, lookup, remove}
use ph_reactor.Json.{Value, as_str}
use ph_reactor.Doc.Clock.{Origin, VecClock, u64}
use ph_reactor.Doc.Data.{DocId, Hash32, ModelRef, Doc, model_ref}
use ph_reactor.Action.{Action, Extern, action_hash}
use ph_reactor.Model.Interface.{Reject}
use ph_reactor.Model.Registry.{ModelRegistry}

abbrev pub snapshot_ops : ℕ
snapshot_ops = 1024

abbrev pub max_name_len : ℕ
max_name_len = 64

abbrev pub name_key : String
name_key = "__name__"

abbrev pub open_ref : ModelRef
open_ref = model_ref "open" "1"

pub record DocState : Type 0 where
  pub doc : Doc
  pub clock : VecClock
  pub deleted : Bool
  pub log_hash : Option Hash32
  pub model : ModelRef
  pub space : Option DocId

pub record Entry : Type 0 where
  pub doc : Doc
  pub clock : VecClock
  pub deleted : Bool
  pub log : List Action
  pub model : ModelRef
  pub space : Option DocId

-- `Entry::new`
unfoldable pub new_entry : DocId → Entry
new_entry id = record {
  doc = record { id = id; name = ""; fields = [] };
  clock = [];
  deleted = false;
  log = [];
  model = open_ref;
  space = none;
}

pub record DocChange : Type 0 where
  pub doc_id : DocId
  pub name : String
  pub model : ModelRef
  pub deleted : Bool
  pub state : DocState
  pub ts : ℕ
  pub action_kind : Option String
  pub action_field : Option String
  pub action_value : Option Value

-- The docs directory: `<id>.snap`, `<id>.alog` and `index.json`, and whether a write succeeds.
pub record Disk : Type 0 where
  pub snaps : Map DocId DocState
  pub alogs : Map DocId (List Action)
  pub index : Option ℕ
  pub writable : Bool

pub record Inner : Type 0 where
  pub disk : Disk
  pub key : List ℕ
  pub origin : Origin
  pub known_keys : Map Origin (List ℕ)
  pub entries : Map DocId Entry
  pub names : Map String DocId
  pub ts_hint : ℕ
  pub outbound : List Action
  pub outbound_feed : Option (List Action)
  pub quarantined : ℕ
  pub models : ModelRegistry
  pub changes : List DocChange

pub data StoreError : Type 0 where
  unknown_origin bad_origin_key bad_signature : StoreError
  unknown_cosigner bad_cosigner_key bad_cosignature : Origin → StoreError
  model_unavailable : String → StoreError
  rejected : Reject → StoreError
  no_group_name : StoreError
  group_not_found : String → StoreError
  quorum_not_met : ℕ → ℕ → StoreError
  no_space space_not_here : StoreError
  not_in_space : Origin → String → StoreError
  space_mismatch : StoreError
  write_failed : StoreError
  bad_name name_taken no_doc : String → StoreError
  id_taken : DocId → StoreError
  key_mismatch : Origin → StoreError

-- The name field leaves the map and becomes the document's name.
unfoldable pub lift_name : Doc → Doc
lift_name d = elim (lookup name_key d.fields) [
  | none ↦ d
  | some f ↦ record d { fields = remove name_key d.fields; name = unwrap_or "" (as_str f.value) }
]

-- The full state of an entry, as snapshots and catch-up replies carry it.
unfoldable pub state_of : Extern → Entry → DocState
state_of x e = record {
  doc = e.doc;
  clock = e.clock;
  deleted = e.deleted;
  log_hash = last? e.log ▷ λ a. some (action_hash x a);
  model = e.model;
  space = e.space;
}

-- An entry with an empty log, from a snapshot or from nothing.
unfoldable pub base_entry : DocId → Option DocState → Entry
unfolding new_entry lift_name
base_entry id none = let e = new_entry id in record e { doc = lift_name e.doc }
base_entry id (some b) = record {
  doc = lift_name b.doc;
  clock = b.clock;
  deleted = b.deleted;
  log = [];
  model = b.model;
  space = b.space;
}

-- `quarantined += 1`
unfoldable pub quarantine : Inner → Inner
quarantine s = record s { quarantined = u64 (s.quarantined + 1) }
