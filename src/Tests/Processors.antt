-- ===== src/Tests/Processors.antt =====
-- The reference processor, and one that was there before.
use ph_reactor.Base.{◌≡◌, refl, String, true, false, none, some, [], ◌∷◌, if◌then◌else◌}
use ph_reactor.Base.Eq.{◌==◌, string_eq}
use ph_reactor.Base.Text.{str_lt}
use ph_reactor.Json.{str, value_eq}
use ph_reactor.Doc.Data.{model_ref}
use ph_reactor.Store.State.{DocChange}
use ph_reactor.Processor.{
  ProcessorSpec, Specs, run, filter_matches, filter_of, agrees, set_spec, replace_spec, sort_specs,
  insert_spec, spec_lt, save_specs,
}
use ph_reactor.Processor.ByName.{NamesDiffer, find_spec, kept_as, set_spec_lem}
use ph_reactor.Tests.Fixture.{empty_doc, note}

abbrev reference : ProcessorSpec
reference = record {
  name = "pay";
  models = "invoice" ∷ [];
  action_kind = some "set-status";
  field = some "status";
  value = some (str "accepted");
  reaction = run "echo";
  created = 9;
}

abbrev earlier : ProcessorSpec
earlier = record reference { name = "watch"; action_kind = none; created = 3 }

abbrev held : Specs
held = record { specs = reference ∷ earlier ∷ []; file = none; writable = true }

abbrev change_to : String → DocChange
change_to status = record {
  doc_id = note;
  name = "d";
  model = model_ref "invoice" "1";
  deleted = false;
  state = record {
    doc = empty_doc;
    clock = [];
    deleted = false;
    log_hash = none;
    model = model_ref "invoice" "1";
    space = none;
  };
  ts = 1;
  action_kind = some "set-status";
  action_field = some "status";
  action_value = some (str status);
}

run_accepted : filter_matches (filter_of reference) (change_to "accepted") ≡ true
unfolding filter_matches filter_of agrees value_eq
run_accepted = refl

run_draft : filter_matches (filter_of reference) (change_to "draft") ≡ false
unfolding filter_matches filter_of agrees value_eq
run_draft = refl

-- A later spec of the same name takes the time of the one before, and the order is by time.
run_set :
    (set_spec held (record reference { created = 20; models = [] })).specs
    ≡ earlier ∷ record reference { models = [] } ∷ []
unfolding set_spec replace_spec sort_specs insert_spec spec_lt save_specs str_lt
run_set = refl

set_spec_lem_example :
    NamesDiffer (set_spec held earlier).specs
    × ((name : String)
        → find_spec name (set_spec held earlier).specs ≡ (
            if earlier.name == name
            then some (kept_as earlier (find_spec earlier.name held.specs))
            else find_spec name held.specs))
    × (held.writable ≡ true → (set_spec held earlier).file ≡ some (set_spec held earlier).specs)
set_spec_lem_example = set_spec_lem held earlier (refl, (refl, tt))
