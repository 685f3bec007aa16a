-- ===== src/Processor.antt =====
-- src/processor.rs: which changes a processor reacts to, the specs and their file, and the history of
-- what fired.
pub mod ByName
use ph_reactor.Base.{
  ℕ, String, Bool, true, false, Option, none, some, List, [], ◌∷◌, ◌++◌, ◌&&◌, ◌||◌, not, any, keep,
  is_empty, ltb, eqb, unwrap_or, if◌then◌else◌,
}
use ph_reactor.Base.Text.{str_lt}
use ph_reactor.Base.Eq.{◌==◌, string_eq}
use ph_reactor.Base.Map.{Map, lookup, insert}
use ph_reactor.Json.{Value, value_eq}
use ph_reactor.Store.State.{DocChange}

pub record ActionFilter : Type 0 where
  pub models : List String
  pub action_kind : Option String
  pub field : Option String
  pub value : Option Value

-- What a constraint asks for is what the change has; no constraint asks for nothing.
unfoldable pub agrees : {A : Type 0} → (A → A → Bool) → Option A → Option A → Bool
agrees same none found = true
agrees same (some wanted) none = false
agrees same (some wanted) (some found) = same found wanted

unfoldable pub filter_matches : ActionFilter → DocChange → Bool
unfolding agrees
filter_matches f c =
    (is_empty f.models || any (λ m. m == c.model.name) f.models)
    && (agrees ◌==◌ f.action_kind c.action_kind
        && (agrees ◌==◌ f.field c.action_field && agrees value_eq f.value c.action_value))

pub data Reaction : Type 0 where
  log : (message : String) → Reaction
  run : (command : String) → Reaction
  emit : (event : String) → Reaction
  create_doc : (model name : String) → (fields : Map String Value) → Reaction

pub record ProcessorSpec : Type 0 where
  pub name : String
  pub models : List String
  pub action_kind : Option String
  pub field : Option String
  pub value : Option Value
  pub reaction : Reaction
  pub created : ℕ

unfoldable pub filter_of : ProcessorSpec → ActionFilter
filter_of s = record {
  models = s.models;
  action_kind = s.action_kind;
  field = s.field;
  value = s.value;
}

-- The specs, the file as what it parses to, and whether it can be written.
pub record Specs : Type 0 where
  pub specs : List ProcessorSpec
  pub file : Option (List ProcessorSpec)
  pub writable : Bool

unfoldable pub load_specs : Option (List ProcessorSpec) → List ProcessorSpec
load_specs file = unwrap_or [] file

-- The file is left as it is where the write fails.
unfoldable pub save_specs : Specs → Specs
save_specs s = if s.writable then record s { file = some s.specs } else s

unfoldable pub spec_lt : ProcessorSpec → ProcessorSpec → Bool
spec_lt a b = ltb a.created b.created || (eqb a.created b.created && str_lt a.name b.name)

unfoldable pub insert_spec : ProcessorSpec → List ProcessorSpec → List ProcessorSpec
unfolding spec_lt
insert_spec a [] = a ∷ []
insert_spec a (b ∷ specs) =
    let later = insert_spec a specs in if spec_lt b a then b ∷ later else a ∷ b ∷ specs

-- `specs.sort_by`, a stable sort.
unfoldable pub sort_specs : List ProcessorSpec → List ProcessorSpec
unfolding insert_spec
sort_specs [] = []
sort_specs (a ∷ specs) = insert_spec a (sort_specs specs)

-- The first spec of that name is replaced and keeps its time of creation; a new one goes to the end.
unfoldable pub replace_spec : ProcessorSpec → List ProcessorSpec → List ProcessorSpec
replace_spec spec [] = spec ∷ []
replace_spec spec (p ∷ specs) =
    let rest = replace_spec spec specs in
    if p.name == spec.name then record spec { created = p.created } ∷ specs else p ∷ rest

unfoldable pub set_spec : Specs → ProcessorSpec → Specs
unfolding save_specs replace_spec sort_specs
set_spec s spec = save_specs (record s { specs = sort_specs (replace_spec spec s.specs) })

unfoldable pub remove_spec : Specs → String → Specs
unfolding save_specs
remove_spec s name = save_specs (record s { specs = keep (λ p. not (p.name == name)) s.specs })
