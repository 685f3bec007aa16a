-- ===== src/Tests/Stores.antt =====
-- An action of the node's own and one of a peer, through the store.
use ph_reactor.Base.{
  ℕ, ◌≡◌, ◌↔◌, ◌∙◌, refl, sym, ap, subst, ◌⊎◌, inl, inr, String, Bool, true, false, Option, none,
  some, List, [], ◌∷◌, arith, All, is_some,
}
use ph_reactor.Base.Map.{lookup, insert, lookup-nil}
use ph_reactor.Base.Result.{ok, err}
use ph_reactor.Doc.Apply.{ApplyResult}
use ph_reactor.Action.{Action}
use ph_reactor.Model.Interface.{Model}
use ph_reactor.Store.State.{Inner, unknown_origin}
use ph_reactor.Store.Apply.{apply_action, entry_or_new}
use ph_reactor.Store.Apply.Frame.{Frame, apply_action-Frame}
use ph_reactor.Store.Apply.Outcome.{accepted, accepted-Sent, refused_unsent, Sent}
use ph_reactor.Store.Apply.Quiet.{Quiet}
use ph_reactor.Store.Apply.Invariant.{apply_action-AllOk}
use ph_reactor.Store.Fold.WellFormed.{AllOk, insert-AllOk}
use ph_reactor.Store.Admit.Sound.{Admitted}
use ph_reactor.Tests.Fixture.{
  crypto, node, note, from_alice, from_bob, from_eve, late_bob, entry_of, holding,
}

after_alice : Inner
unfolding apply_action
after_alice = (apply_action crypto node from_alice).1

applied : ApplyResult
applied = record { applied = true; doc_deleted = false }

run_alice : apply_action crypto node from_alice ≡ (ok applied, after_alice)
unfolding apply_action after_alice applied ph_reactor.Action.sign ph_reactor.Action.verify
    ph_reactor.Action.message_bytes ph_reactor.Base.Map.lookup ph_reactor.Base.Bytes.be_bytes
    ph_reactor.Base.Bytes.as_bytes ph_reactor.Base.Bytes.bytes_eq ph_reactor.Json.Data.object
    ph_reactor.Action.clock_iter ph_reactor.Tests.Encoding.json_bytes ph_reactor.Store.Admit.admit
    ph_reactor.Store.Admit.check_origin ph_reactor.Store.Admit.check_cosigs
    ph_reactor.Model.Registry.find ph_reactor.Model.Open.open_model
    ph_reactor.Store.Admit.check_binding ph_reactor.Store.Apply.apply_admitted
    ph_reactor.Store.Apply.commit ph_reactor.Action.action_hash ph_reactor.Action.verify_cosig
    ph_reactor.Base.Bytes.from_be_bytes ph_reactor.Base.Map.insert ph_reactor.Base.Map.remove
    ph_reactor.Base.Text.str_lt ph_reactor.Doc.Apply.apply_live ph_reactor.Doc.Apply.apply_op
    ph_reactor.Doc.Apply.changes ph_reactor.Doc.Apply.newer ph_reactor.Doc.Apply.write_field
    ph_reactor.Doc.Data.field_from_op ph_reactor.Doc.Data.live ph_reactor.Json.Data.insert_member
    ph_reactor.Model.Open.reduce ph_reactor.Model.Open.validate_payload
    ph_reactor.Model.Registry.hash_is ph_reactor.Store.Admit.endorsers
    ph_reactor.Store.Admit.group_members ph_reactor.Store.Admit.insert_new
    ph_reactor.Store.Admit.list_of ph_reactor.Store.Admit.quorum_problem
    ph_reactor.Store.Admit.signers ph_reactor.Store.Admit.strings_of
    ph_reactor.Store.Apply.emit_change ph_reactor.Store.Apply.entry_or_new
    ph_reactor.Store.Apply.finish ph_reactor.Store.Apply.index_name
    ph_reactor.Store.Apply.log_action ph_reactor.Store.Apply.log_is_long
    ph_reactor.Store.Apply.out_of_order ph_reactor.Store.Apply.persist_action
    ph_reactor.Store.Apply.publish ph_reactor.Store.Apply.reorder ph_reactor.Store.Apply.snapshot
    ph_reactor.Store.Apply.snapshot_entry ph_reactor.Store.Fold.apply_each
    ph_reactor.Store.Fold.apply_ops_to_entry ph_reactor.Store.Fold.canon_lt
    ph_reactor.Store.Fold.canon_sort ph_reactor.Store.Fold.fold_action
    ph_reactor.Store.Fold.fold_log ph_reactor.Store.Fold.fold_ops ph_reactor.Store.Fold.or_first
    ph_reactor.Store.Fold.refold ph_reactor.Store.Fold.refold_entry ph_reactor.Store.Fold.resolve
    ph_reactor.Store.Fold.stamp ph_reactor.Store.State.base_entry ph_reactor.Store.State.lift_name
    ph_reactor.Store.State.new_entry ph_reactor.Store.State.quarantine
    ph_reactor.Store.State.state_of ph_reactor.Tests.Encoding.value_then
run_alice = refl

accepted_example :
    (m : Model) × Admitted crypto node from_alice m
    × (m.check_precondition (entry_or_new node from_alice.doc_id).doc from_alice ≡ ok tt)
accepted_example = accepted crypto node after_alice from_alice applied run_alice

accepted-Sent_example : Sent node after_alice from_alice applied
accepted-Sent_example = accepted-Sent crypto node after_alice from_alice applied run_alice

apply_action-Frame_example :
    Frame from_bob.doc_id after_alice (apply_action crypto after_alice from_bob).1
apply_action-Frame_example = apply_action-Frame crypto after_alice from_bob

after_eve : Inner
unfolding apply_action
after_eve = (apply_action crypto node from_eve).1

run_eve : apply_action crypto node from_eve ≡ (err unknown_origin, after_eve)
unfolding apply_action after_eve ph_reactor.Action.sign ph_reactor.Action.verify
    ph_reactor.Action.message_bytes ph_reactor.Base.Map.lookup ph_reactor.Base.Bytes.be_bytes
    ph_reactor.Base.Bytes.as_bytes ph_reactor.Base.Bytes.bytes_eq ph_reactor.Json.Data.object
    ph_reactor.Action.clock_iter ph_reactor.Tests.Encoding.json_bytes ph_reactor.Store.Admit.admit
    ph_reactor.Store.Admit.check_origin ph_reactor.Store.Admit.check_cosigs
    ph_reactor.Model.Registry.find ph_reactor.Model.Open.open_model
    ph_reactor.Store.Admit.check_binding ph_reactor.Store.Apply.apply_admitted
    ph_reactor.Store.Apply.commit ph_reactor.Action.action_hash ph_reactor.Action.verify_cosig
    ph_reactor.Base.Bytes.from_be_bytes ph_reactor.Base.Map.insert ph_reactor.Base.Map.remove
    ph_reactor.Base.Text.str_lt ph_reactor.Doc.Apply.apply_live ph_reactor.Doc.Apply.apply_op
    ph_reactor.Doc.Apply.changes ph_reactor.Doc.Apply.newer ph_reactor.Doc.Apply.write_field
    ph_reactor.Doc.Data.field_from_op ph_reactor.Doc.Data.live ph_reactor.Json.Data.insert_member
    ph_reactor.Model.Open.reduce ph_reactor.Model.Open.validate_payload
    ph_reactor.Model.Registry.hash_is ph_reactor.Store.Admit.endorsers
    ph_reactor.Store.Admit.group_members ph_reactor.Store.Admit.insert_new
    ph_reactor.Store.Admit.list_of ph_reactor.Store.Admit.quorum_problem
    ph_reactor.Store.Admit.signers ph_reactor.Store.Admit.strings_of
    ph_reactor.Store.Apply.emit_change ph_reactor.Store.Apply.entry_or_new
    ph_reactor.Store.Apply.finish ph_reactor.Store.Apply.index_name
    ph_reactor.Store.Apply.log_action ph_reactor.Store.Apply.log_is_long
    ph_reactor.Store.Apply.out_of_order ph_reactor.Store.Apply.persist_action
    ph_reactor.Store.Apply.publish ph_reactor.Store.Apply.reorder ph_reactor.Store.Apply.snapshot
    ph_reactor.Store.Apply.snapshot_entry ph_reactor.Store.Fold.apply_each
    ph_reactor.Store.Fold.apply_ops_to_entry ph_reactor.Store.Fold.canon_lt
    ph_reactor.Store.Fold.canon_sort ph_reactor.Store.Fold.fold_action
    ph_reactor.Store.Fold.fold_log ph_reactor.Store.Fold.fold_ops ph_reactor.Store.Fold.or_first
    ph_reactor.Store.Fold.refold ph_reactor.Store.Fold.refold_entry ph_reactor.Store.Fold.resolve
    ph_reactor.Store.Fold.stamp ph_reactor.Store.State.base_entry ph_reactor.Store.State.lift_name
    ph_reactor.Store.State.new_entry ph_reactor.Store.State.quarantine
    ph_reactor.Store.State.state_of ph_reactor.Tests.Encoding.value_then
run_eve = refl

refused_unsent_example : Quiet node after_eve
refused_unsent_example = refused_unsent crypto node after_eve from_eve unknown_origin refl run_eve

nothing : AllOk crypto []
nothing id e h = absurd (cc (sym (lookup-nil id) ∙ h))

busy : Inner
busy = holding (from_alice ∷ [])

busy-AllOk : AllOk crypto busy.entries
unfolding busy insert lookup
busy-AllOk =
    insert-AllOk crypto [] note (entry_of (from_alice ∷ [])) nothing
      (record { lifted = refl; sorted = (tt, tt) })

after_late : Inner
unfolding apply_action busy
after_late = (apply_action crypto busy late_bob).1

run_late : apply_action crypto busy late_bob ≡ (ok applied, after_late)
unfolding apply_action after_late applied busy ph_reactor.Action.sign ph_reactor.Action.verify
    ph_reactor.Action.message_bytes ph_reactor.Base.Map.lookup ph_reactor.Base.Bytes.be_bytes
    ph_reactor.Base.Bytes.as_bytes ph_reactor.Base.Bytes.bytes_eq ph_reactor.Json.Data.object
    ph_reactor.Action.clock_iter ph_reactor.Tests.Encoding.json_bytes ph_reactor.Store.Admit.admit
    ph_reactor.Store.Admit.check_origin ph_reactor.Store.Admit.check_cosigs
    ph_reactor.Model.Registry.find ph_reactor.Model.Open.open_model
    ph_reactor.Store.Admit.check_binding ph_reactor.Store.Apply.apply_admitted
    ph_reactor.Store.Apply.commit ph_reactor.Action.action_hash ph_reactor.Action.verify_cosig
    ph_reactor.Base.Bytes.from_be_bytes ph_reactor.Base.Map.insert ph_reactor.Base.Map.remove
    ph_reactor.Base.Text.str_lt ph_reactor.Doc.Apply.apply_live ph_reactor.Doc.Apply.apply_op
    ph_reactor.Doc.Apply.changes ph_reactor.Doc.Apply.newer ph_reactor.Doc.Apply.write_field
    ph_reactor.Doc.Data.field_from_op ph_reactor.Doc.Data.live ph_reactor.Json.Data.insert_member
    ph_reactor.Model.Open.reduce ph_reactor.Model.Open.validate_payload
    ph_reactor.Model.Registry.hash_is ph_reactor.Store.Admit.endorsers
    ph_reactor.Store.Admit.group_members ph_reactor.Store.Admit.insert_new
    ph_reactor.Store.Admit.list_of ph_reactor.Store.Admit.quorum_problem
    ph_reactor.Store.Admit.signers ph_reactor.Store.Admit.strings_of
    ph_reactor.Store.Apply.emit_change ph_reactor.Store.Apply.entry_or_new
    ph_reactor.Store.Apply.finish ph_reactor.Store.Apply.index_name
    ph_reactor.Store.Apply.log_action ph_reactor.Store.Apply.log_is_long
    ph_reactor.Store.Apply.out_of_order ph_reactor.Store.Apply.persist_action
    ph_reactor.Store.Apply.publish ph_reactor.Store.Apply.reorder ph_reactor.Store.Apply.snapshot
    ph_reactor.Store.Apply.snapshot_entry ph_reactor.Store.Fold.apply_each
    ph_reactor.Store.Fold.apply_ops_to_entry ph_reactor.Store.Fold.canon_lt
    ph_reactor.Store.Fold.canon_sort ph_reactor.Store.Fold.fold_action
    ph_reactor.Store.Fold.fold_log ph_reactor.Store.Fold.fold_ops ph_reactor.Store.Fold.or_first
    ph_reactor.Store.Fold.refold ph_reactor.Store.Fold.refold_entry ph_reactor.Store.Fold.resolve
    ph_reactor.Store.Fold.stamp ph_reactor.Store.State.base_entry ph_reactor.Store.State.lift_name
    ph_reactor.Store.State.new_entry ph_reactor.Store.State.quarantine
    ph_reactor.Store.State.state_of ph_reactor.Tests.Encoding.value_then
    ph_reactor.Doc.Clock.clock_get ph_reactor.Doc.Clock.covers ph_reactor.Doc.Clock.merge
    ph_reactor.Doc.Clock.merge_entry
run_late = refl

apply_action-AllOk_example : AllOk crypto after_late.entries
apply_action-AllOk_example =
    apply_action-AllOk crypto busy after_late late_bob applied busy-AllOk run_late
