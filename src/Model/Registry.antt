-- ===== src/Model/Registry.antt =====
-- `ModelRegistry` of src/model/mod.rs: the loaded models by name and version.
use ph_reactor.Base.{String, Bool, false, Option, none, some, List, [], ◌▷◌, map, if◌then◌else◌}
use ph_reactor.Base.Eq.{◌==◌, nat_eq, pair_eq}
use ph_reactor.Base.Map.{Map, lookup, insert}
use ph_reactor.Base.Result.{Result, ok, ◌>>=◌}
use ph_reactor.Json.{Value}
use ph_reactor.Doc.Data.{ModelRef, Hash32, model_ref}
use ph_reactor.Action.{Extern}
use ph_reactor.Model.Interface.{Model}
use ph_reactor.Model.Open.{open_model}
use ph_reactor.Model.L1.{from_def, as_model}
use ph_reactor.Model.Builtin.Space.{space_def}
use ph_reactor.Model.Builtin.Group.{group_def}
use ph_reactor.Model.Builtin.Chat.{chat_def}
use ph_reactor.Model.Builtin.Drive.{drive_def}
use ph_reactor.Model.Builtin.Package.{package_def}
use ph_reactor.Model.Builtin.Release.{release_def}

abbrev pub ModelRegistry : Type 0
ModelRegistry = Map (String × String) Model

unfoldable pub insert_model : Model → ModelRegistry → ModelRegistry
insert_model model r = insert (model.ref_.name, model.ref_.version) model r

unfoldable pub hash_is : Hash32 → Option Hash32 → Bool
hash_is want none = false
hash_is want (some h) = h == want

-- A pinned hash must be the loaded model's.
unfoldable pub find : ModelRegistry → ModelRef → Option Model
unfolding hash_is
find r ref_ = lookup (ref_.name, ref_.version) r ▷ λ m. elim ref_.hash [
  | none ↦ some m
  | some want ↦ if hash_is want m.ref_.hash then some m else none
]

-- The order of the keys is not modelled.
unfoldable pub refs : ModelRegistry → List ModelRef
refs r = map (λ entry. model_ref entry.0.0 entry.0.1) r

unfoldable pub definition : ModelRegistry → ModelRef → Option Value
unfolding find
definition r ref_ = find r ref_ ▷ λ m. m.definition

unfoldable pub seeded_with_open : ModelRegistry
unfolding insert_model open_model
seeded_with_open = insert_model open_model []

-- `from_def(def).expect(..)`, inserted; a definition that does not parse panics.
insert_def : Extern → Value → ModelRegistry → Result String ModelRegistry
unfolding insert_model as_model from_def
insert_def x def r = do m ← from_def x def; ok (insert_model (as_model m) r)

unfoldable pub seeded_with_builtins : Extern → Result String ModelRegistry
unfolding insert_def
seeded_with_builtins x = do
  r ← insert_def x group_def seeded_with_open
  r ← insert_def x package_def r
  r ← insert_def x release_def r
  r ← insert_def x space_def r
  r ← insert_def x chat_def r
  insert_def x drive_def r
