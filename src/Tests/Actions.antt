-- ===== src/Tests/Actions.antt =====
-- Signing and the signed bytes.
use ph_reactor.Base.{
  ℕ, ◌≡◌, refl, String, Bool, true, false, Option, none, some, List, [], ◌∷◌, arith,
}
use ph_reactor.Action.{Action, CoSig, sign, verify, message_bytes, vec_clock_bytes}
use ph_reactor.Action.Message.{IsSized, SameSigned, message_bytes-inj}
use ph_reactor.Tests.Fixture.{crypto, crypto-Lawful, from_alice, set_title}

cosigs : List CoSig
cosigs = record { origin = "bob"; sig = 1 ∷ [] } ∷ []

unsigned : Action
unsigned = set_title "alice" 5 (("alice", 1) ∷ []) "draft"

sized : IsSized crypto unsigned
unfolding unsigned ph_reactor.Action.vec_clock_bytes ph_reactor.Action.sign ph_reactor.Action.verify
    ph_reactor.Action.message_bytes ph_reactor.Base.Map.lookup ph_reactor.Base.Bytes.be_bytes
    ph_reactor.Base.Bytes.as_bytes ph_reactor.Base.Bytes.bytes_eq ph_reactor.Json.Data.object
    ph_reactor.Action.clock_iter ph_reactor.Tests.Encoding.json_bytes ph_reactor.Store.Admit.admit
    ph_reactor.Store.Admit.check_origin ph_reactor.Store.Admit.check_cosigs
    ph_reactor.Model.Registry.find ph_reactor.Model.Open.open_model
    ph_reactor.Store.Admit.check_binding ph_reactor.Store.Apply.apply_admitted
    ph_reactor.Store.Apply.commit ph_reactor.Action.action_hash ph_reactor.Action.verify_cosig
    ph_reactor.Base.Bytes.from_be_bytes ph_reactor.Base.Map.insert ph_reactor.Base.Map.remove
    ph_reactor.Base.Text.str_lt ph_reactor.Doc.Apply.apply_live ph_reactor.Doc.Apply.apply_op
    ph_reactor.Doc.Apply.changes ph_reactor.Doc.Apply.newer ph_reactor.Doc.Apply.write_field
    ph_reactor.Doc.Data.field_from_op ph_reactor.Doc.Data.live ph_reactor.Json.Data.insert_member
    ph_reactor.Model.Open.reduce ph_reactor.Model.Open.validate_payload
    ph_reactor.Model.Registry.hash_is ph_reactor.Store.Admit.endorsers
    ph_reactor.Store.Admit.group_members ph_reactor.Store.Admit.insert_new
    ph_reactor.Store.Admit.list_of ph_reactor.Store.Admit.quorum_problem
    ph_reactor.Store.Admit.signers ph_reactor.Store.Admit.strings_of
    ph_reactor.Store.Apply.emit_change ph_reactor.Store.Apply.entry_or_new
    ph_reactor.Store.Apply.finish ph_reactor.Store.Apply.index_name
    ph_reactor.Store.Apply.log_action ph_reactor.Store.Apply.log_is_long
    ph_reactor.Store.Apply.out_of_order ph_reactor.Store.Apply.persist_action
    ph_reactor.Store.Apply.publish ph_reactor.Store.Apply.reorder ph_reactor.Store.Apply.snapshot
    ph_reactor.Store.Apply.snapshot_entry ph_reactor.Store.Fold.apply_each
    ph_reactor.Store.Fold.apply_ops_to_entry ph_reactor.Store.Fold.canon_lt
    ph_reactor.Store.Fold.canon_sort ph_reactor.Store.Fold.fold_action
    ph_reactor.Store.Fold.fold_log ph_reactor.Store.Fold.fold_ops ph_reactor.Store.Fold.or_first
    ph_reactor.Store.Fold.refold ph_reactor.Store.Fold.refold_entry ph_reactor.Store.Fold.resolve
    ph_reactor.Store.Fold.stamp ph_reactor.Store.State.base_entry ph_reactor.Store.State.lift_name
    ph_reactor.Store.State.new_entry ph_reactor.Store.State.quarantine
    ph_reactor.Store.State.state_of ph_reactor.Tests.Encoding.value_then
    ph_reactor.Doc.Clock.clock_get ph_reactor.Doc.Clock.covers ph_reactor.Doc.Clock.merge
    ph_reactor.Doc.Clock.merge_entry
sized = record {
  doc_id = omega arith;
  name = omega arith;
  version = omega arith;
  model_hash = tt;
  kind = omega arith;
  payload = omega arith;
  ts = omega arith;
  clock = omega arith;
  entries = ((omega arith, omega arith), tt);
  origin = omega arith;
  prev_hash = tt;
  space = tt;
}

signed-IsSized : IsSized crypto from_alice
unfolding sign unsigned
signed-IsSized = record {
  doc_id = sized.doc_id;
  name = sized.name;
  version = sized.version;
  model_hash = tt;
  kind = sized.kind;
  payload = sized.payload;
  ts = sized.ts;
  clock = sized.clock;
  entries = sized.entries;
  origin = sized.origin;
  prev_hash = tt;
  space = tt;
}

same_bytes : message_bytes crypto from_alice ≡ message_bytes crypto unsigned
unfolding sign unsigned message_bytes
same_bytes = refl

message_bytes-inj_example : SameSigned from_alice unsigned
message_bytes-inj_example =
    message_bytes-inj crypto from_alice unsigned crypto-Lawful signed-IsSized sized same_bytes
