-- ===== src/Store/Feed.antt =====
-- What the sync layer asks of src/store.rs: models, names and the outbound queue.
use ph_reactor.Base.{
  ℕ, String, Bool, Option, some, List, [], is_some, unwrap_or, length, keep, not, ◌▷◌,
}
use ph_reactor.Base.Eq.{string_eq, nat_eq}
use ph_reactor.Base.Map.{lookup}
use ph_reactor.Json.{Value}
use ph_reactor.Doc.Data.{DocId, ModelRef}
use ph_reactor.Action.{Action}
use ph_reactor.Model.Interface.{Model}
use ph_reactor.Model.Registry.{find, insert_model, definition}
use ph_reactor.Store.State.{Inner}

unfoldable pub add_model : Inner → Model → Inner
unfolding insert_model
add_model s model = record s { models = insert_model model s.models }

unfoldable pub model_available : Inner → ModelRef → Bool
model_available s ref_ = is_some (find s.models ref_)

unfoldable pub model_definition : Inner → ModelRef → Option Value
model_definition s ref_ = definition s.models ref_

unfoldable pub doc_name : Inner → DocId → String
doc_name s id = unwrap_or "" (lookup id s.entries ▷ λ e. some e.doc.name)

pub doc_count : Inner → ℕ
doc_count s = length s.names

pub live_doc_count : Inner → ℕ
live_doc_count s = length (keep (λ entry. not entry.1.deleted) s.entries)

-- The queue, and the store without it.
unfoldable pub drain_outbound : Inner → List Action × Inner
drain_outbound s = (s.outbound, record s { outbound = [] })

-- A new feed replaces the one before.
pub connect_outbound : Inner → Inner
connect_outbound s = record s { outbound_feed = some [] }
