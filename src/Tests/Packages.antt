-- ===== src/Tests/Packages.antt =====
-- A package of one model, from a publisher whose key is nine.
use ph_reactor.Base.{
  arith, ℕ, ◌+◌, ◌≡◌, refl, true, false, none, some, List, [], ◌∷◌, is_some, unwrap_or,
}
use ph_reactor.Base.Eq.{◌==◌, ==_iff, string_eq, nat_eq}
use ph_reactor.Base.Map.{lookup, insert}
use ph_reactor.Base.Bytes.{be_bytes, bytes_eq}
use ph_reactor.Base.Chars.{codes, trim, drop_while, drop_end, is_whitespace}
use ph_reactor.Base.Result.{ok, err}
use ph_reactor.Json.{Value, str, object}
use ph_reactor.Model.L1.{from_def}
use ph_reactor.Model.Persist.{save, load_all, def_key}
use ph_reactor.Package.{
  Manifest, Projection, PackageExtern, verify_manifest, validate_ui, validate_items, validate_item,
  is_control, is_view_char,
}
use ph_reactor.Package.Trust.{TrustStore, is_trusted}
use ph_reactor.Package.Install.{
  InstalledPackage, InstallError, Site, check, check_bundle, check_models, install, register_models,
  record_package, put_package, remove_package,
}
use ph_reactor.Package.Install.Safe.{Checked, Listed, install-Checked}
use ph_reactor.Doc.Data.{model_ref, DocId}
use ph_reactor.Projection.Source.{run_one_keeps}
use ph_reactor.Store.State.{DocChange, Inner}
use ph_reactor.Store.Read.{get_doc}
use ph_reactor.Projection.{
  matches, target_name, standing, copy_fields, payload_members, run_one, publish_one,
}
use ph_reactor.Tests.Fixture.{crypto, node, note, empty_doc, live_field, holding, from_alice}

-- A text in hexadecimal is taken for the key; signatures always verify.
abbrev formats : PackageExtern
formats = record {
  hex_encode = λ bytes. "09";
  hex_decode = λ text. elim (ph_reactor.Base.Eq.◌==◌ text "09") [
    | true ↦ some (be_bytes 32 9)
    | _ ↦ some (be_bytes 64 1)
  ];
  manifest_to_vec = λ m. [];
  verify = λ key message sig. true;
  to_lowercase = λ label. label;
}

abbrev todo : Value
todo = object (("name", str "todo") ∷ [])

-- Its projection copies nothing into nowhere.
abbrev manifest : Manifest
manifest = record {
  name = "todo";
  version = "1.0.0";
  description = "";
  category = "";
  publisher_name = "P";
  publisher_url = "";
  publisher_key = "09";
  document_models = todo ∷ [];
  processors = [];
  bundle = none;
  capabilities = record { read = []; write = [] };
  projections = record { source = ""; trigger = ""; target = ""; into_ = ""; fields = [] } ∷ [];
  attention = [];
  nav = record { label = "Todo"; icon = ""; view = "list" } ∷ [];
  sig = "01";
}

abbrev approved : TrustStore
approved = ("09", record { key = "09"; name = "P"; approved_at = "then" }) ∷ []

-- An older release of the package is installed, and another package.
abbrev listed_before : List InstalledPackage
listed_before =
    record { manifest = record manifest { version = "0.9.0" }; installed_at = "then" }
    ∷ record { manifest = record manifest { name = "wiki" }; installed_at = "then" }
    ∷ []

abbrev site : Site
site = record {
  store = node;
  installed_file = some listed_before;
  models_file = none;
  writable = true;
}

abbrev no_blobs : ph_reactor.Blob.BlobStore
no_blobs = record { files = []; writable = true }

install-Checked_example :
    ((pkg : InstalledPackage)
      → (install crypto formats manifest approved no_blobs "now" site).0 ≡ ok pkg
      → Checked crypto formats manifest approved no_blobs
        × Listed manifest site.installed_file
            (install crypto formats manifest approved no_blobs "now" site).1.installed_file
            pkg)
    × ((e : InstallError)
        → check crypto formats manifest approved no_blobs ≡ err e
        → install crypto formats manifest approved no_blobs "now" site ≡ (err e, site))
install-Checked_example = install-Checked crypto formats manifest approved no_blobs "now" site

run_install :
    (install crypto formats manifest approved no_blobs "now" site).0
    ≡ ok (record { manifest = manifest; installed_at = "now" })
unfolding install check verify_manifest is_trusted lookup be_bytes validate_ui validate_items
    validate_item is_control is_view_char codes trim drop_while drop_end is_whitespace bytes_eq
    check_bundle check_models from_def register_models save load_all def_key record_package
    put_package remove_package ph_reactor.Json.Data.object ph_reactor.Json.Data.insert_member
run_install = refl

abbrev to_ledger : Projection
to_ledger = record {
  source = "milestone";
  trigger = "accept";
  target = "ledger-entry";
  into_ = "commons";
  fields = "amount" ∷ "org" ∷ [];
}

-- An accepted milestone, with evidence that is not named and an organisation that was deleted.
abbrev accepted_milestone : DocChange
accepted_milestone = record {
  doc_id = note;
  name = "m1";
  model = model_ref "milestone" "1";
  deleted = false;
  state = record {
    doc = record empty_doc {
      fields =
          ("amount", live_field (str "500"))
          ∷ ("evidence", live_field (str "invoice"))
          ∷ ("org", record (live_field (str "P")) { deleted = true })
          ∷ [];
    };
    clock = [];
    deleted = false;
    log_hash = none;
    model = model_ref "milestone" "1";
    space = none;
  };
  ts = 1;
  action_kind = some "accept";
  action_field = none;
  action_value = none;
}

run_matches : matches to_ledger accepted_milestone ≡ true
unfolding matches
run_matches = refl

run_target_name : target_name to_ledger "m1" ≡ "m1-ledger-entry"
unfolding target_name
run_target_name = refl

run_payload :
    payload_members to_ledger accepted_milestone "m1-ledger-entry"
    ≡ ("name", str "m1-ledger-entry") ∷ ("amount", str "500") ∷ []
unfolding payload_members copy_fields standing lookup insert
run_payload = refl

-- The node has no space of that name.
run_absent_space : run_one crypto (λ n. (n, n + 20)) node (to_ledger ∷ []) accepted_milestone ≡ node
unfolding run_one matches publish_one target_name get_doc lookup
run_absent_space = refl

-- A node that holds the document of that name, which the published one would be placed in.
abbrev with_commons : Inner
with_commons = record (holding (from_alice ∷ [])) { names = ("commons", note) ∷ [] }

abbrev supply : ℕ → ℕ × DocId
supply n = (n, n + 20)

supply_new : (n : ℕ) → ((supply n).1 == note) ≡ false
supply_new n = ground arith

-- The space is found, so the creation is tried.
run_commons : is_some (get_doc with_commons to_ledger.into_) ≡ true
unfolding get_doc lookup
run_commons = refl

run_one_keeps_example :
    let t = run_one crypto supply with_commons (to_ledger ∷ []) accepted_milestone in
    (lookup note t.entries ≡ lookup note with_commons.entries)
    × (lookup note t.disk.snaps ≡ lookup note with_commons.disk.snaps)
    × (lookup note t.disk.alogs ≡ lookup note with_commons.disk.alogs)
    × (t.known_keys ≡ with_commons.known_keys)
    × (t.models ≡ with_commons.models)
run_one_keeps_example =
    run_one_keeps crypto supply with_commons (to_ledger ∷ []) accepted_milestone note supply_new
