-- ===== src/Tests/Folds.antt =====
-- Logs in two orders, admission, quorums, building, reading.
use mathlib.Core.List.Perm
use ph_reactor.Base.{
  ℕ, ◌≡◌, ◌↔◌, ◌∙◌, refl, sym, ap, subst, ◌⊎◌, inl, inr, ◌≢◌, String, Bool, true, false, Option,
  none, some, List, [], ◌∷◌, arith, All, is_some, ◌▷◌, if◌then◌else◌,
}
use ph_reactor.Base.Eq.{◌==◌, string_eq, nat_eq}
use ph_reactor.Base.Map.{lookup, lookup-nil, Distinct}
use ph_reactor.Base.Result.{ok}
use ph_reactor.Json.{null, str}
use ph_reactor.Doc.Clock.{covers}
use ph_reactor.Doc.Data.{model_ref}
use ph_reactor.Action.{verify, Action, action_hash}
use ph_reactor.Model.Open.{open_model}
use ph_reactor.Store.State.{Inner, Entry}
use ph_reactor.Store.Fold.{canon_sort, refold_entry}
use ph_reactor.Store.Fold.Canonical.{refold_same}
use ph_reactor.Store.Admit.{admit, quorum_problem}
use ph_reactor.Store.Admit.Sound.{Signs, CoSigned}
use ph_reactor.Store.Admit.Quorum.{QuorumMet, quorum_problem-QuorumMet}
use ph_reactor.Store.Local.{build_action}
use ph_reactor.Store.Local.Build.{Built, build_action-Built}
use ph_reactor.Store.Read.{
  may_peer_read, summary_for, summary, visibility_of, gate_of, gate_opens, catch_up,
  register_peer_key,
}
use ph_reactor.Store.Read.Access.{MayRead, may_peer_read_iff, summary_for_iff}
use ph_reactor.Store.Read.CatchUp.{absorb, catch_up_completes}
use ph_reactor.Store.Read.Keys.{register_peer_key_pins}
use ph_reactor.Store.Admit.{check_origin, check_cosigs, check_binding, list_of}
use ph_reactor.Store.Admit.Unguarded.{OpenPayload, BoundTo, admit_open_iff}
use ph_reactor.Model.Open.{validate_payload}
use ph_reactor.Model.Registry.{find, hash_is}
use ph_reactor.Tests.Fixture.{
  crypto, crypto-Lawful, node, note, from_alice, from_bob, alice_key, entry_of, holding, team_node,
  both, endorsed, team, live_field,
}

Known : Action → Type 0
Known a = (a ≡ from_alice) ⊎ (a ≡ from_bob)

hashes_differ : action_hash crypto from_alice ≡ action_hash crypto from_bob → ⊥
unfolding ph_reactor.Action.action_hash ph_reactor.Action.clock_iter ph_reactor.Action.message_bytes
    ph_reactor.Action.sign ph_reactor.Action.verify ph_reactor.Action.verify_cosig
    ph_reactor.Base.Bytes.as_bytes ph_reactor.Base.Bytes.be_bytes ph_reactor.Base.Bytes.bytes_eq
    ph_reactor.Base.Bytes.from_be_bytes ph_reactor.Base.Map.insert ph_reactor.Base.Map.lookup
    ph_reactor.Base.Map.remove ph_reactor.Base.Text.str_lt ph_reactor.Doc.Apply.apply_live
    ph_reactor.Doc.Apply.apply_op ph_reactor.Doc.Apply.changes ph_reactor.Doc.Apply.newer
    ph_reactor.Doc.Apply.write_field ph_reactor.Doc.Clock.clock_get ph_reactor.Doc.Clock.covers
    ph_reactor.Doc.Clock.merge ph_reactor.Doc.Clock.merge_entry ph_reactor.Doc.Data.field_from_op
    ph_reactor.Doc.Data.live ph_reactor.Json.Data.insert_member ph_reactor.Json.Data.object
    ph_reactor.Model.Open.open_model ph_reactor.Model.Open.reduce
    ph_reactor.Model.Open.validate_payload ph_reactor.Model.Registry.find
    ph_reactor.Model.Registry.hash_is ph_reactor.Store.Admit.admit
    ph_reactor.Store.Admit.check_binding ph_reactor.Store.Admit.check_cosigs
    ph_reactor.Store.Admit.check_origin ph_reactor.Store.Admit.endorsers
    ph_reactor.Store.Admit.group_members ph_reactor.Store.Admit.insert_new
    ph_reactor.Store.Admit.list_of ph_reactor.Store.Admit.quorum_problem
    ph_reactor.Store.Admit.signers ph_reactor.Store.Admit.strings_of
    ph_reactor.Store.Apply.apply_admitted ph_reactor.Store.Apply.commit
    ph_reactor.Store.Apply.emit_change ph_reactor.Store.Apply.entry_or_new
    ph_reactor.Store.Apply.finish ph_reactor.Store.Apply.index_name
    ph_reactor.Store.Apply.log_action ph_reactor.Store.Apply.log_is_long
    ph_reactor.Store.Apply.out_of_order ph_reactor.Store.Apply.persist_action
    ph_reactor.Store.Apply.publish ph_reactor.Store.Apply.reorder ph_reactor.Store.Apply.snapshot
    ph_reactor.Store.Apply.snapshot_entry ph_reactor.Store.Fold.apply_each
    ph_reactor.Store.Fold.apply_ops_to_entry ph_reactor.Store.Fold.canon_lt
    ph_reactor.Store.Fold.canon_sort ph_reactor.Store.Fold.fold_action
    ph_reactor.Store.Fold.fold_log ph_reactor.Store.Fold.fold_ops ph_reactor.Store.Fold.or_first
    ph_reactor.Store.Fold.refold ph_reactor.Store.Fold.refold_entry ph_reactor.Store.Fold.resolve
    ph_reactor.Store.Fold.stamp ph_reactor.Store.State.base_entry ph_reactor.Store.State.lift_name
    ph_reactor.Store.State.new_entry ph_reactor.Store.State.quarantine
    ph_reactor.Store.State.state_of ph_reactor.Tests.Encoding.json_bytes
    ph_reactor.Tests.Encoding.value_then
hashes_differ h = omega arith

apart : (a b : Action) → Known a → Known b → action_hash crypto a ≡ action_hash crypto b → a ≡ b
unfolding Known
apart a b (inl p) (inl q) h = p ∙ sym q
apart a b (inr p) (inr q) h = p ∙ sym q
apart a b (inl p) (inr q) h =
    absurd (hashes_differ (sym (ap (action_hash crypto) p) ∙ h ∙ ap (action_hash crypto) q))
apart a b (inr p) (inl q) h =
    absurd (hashes_differ (sym (ap (action_hash crypto) q) ∙ sym h ∙ ap (action_hash crypto) p))

one_way : List Action
one_way = from_alice ∷ from_bob ∷ []

other_way : List Action
other_way = from_bob ∷ from_alice ∷ []

refold_same_example :
    refold_entry crypto node note (entry_of one_way)
    ≡ refold_entry crypto node note (entry_of other_way)
unfolding one_way other_way Known
refold_same_example =
    refold_same crypto node node note (entry_of one_way) (entry_of other_way) Known apart
      (inl refl, (inr refl, tt)) (Perm.swap from_bob from_alice []) refl refl refl

admits : admit crypto node from_alice ≡ ok open_model
unfolding ph_reactor.Action.action_hash ph_reactor.Action.clock_iter ph_reactor.Action.message_bytes
    ph_reactor.Action.sign ph_reactor.Action.verify ph_reactor.Action.verify_cosig
    ph_reactor.Base.Bytes.as_bytes ph_reactor.Base.Bytes.be_bytes ph_reactor.Base.Bytes.bytes_eq
    ph_reactor.Base.Bytes.from_be_bytes ph_reactor.Base.Map.insert ph_reactor.Base.Map.lookup
    ph_reactor.Base.Map.remove ph_reactor.Base.Text.str_lt ph_reactor.Doc.Apply.apply_live
    ph_reactor.Doc.Apply.apply_op ph_reactor.Doc.Apply.changes ph_reactor.Doc.Apply.newer
    ph_reactor.Doc.Apply.write_field ph_reactor.Doc.Clock.clock_get ph_reactor.Doc.Clock.covers
    ph_reactor.Doc.Clock.merge ph_reactor.Doc.Clock.merge_entry ph_reactor.Doc.Data.field_from_op
    ph_reactor.Doc.Data.live ph_reactor.Json.Data.insert_member ph_reactor.Json.Data.object
    ph_reactor.Model.Open.open_model ph_reactor.Model.Open.reduce
    ph_reactor.Model.Open.validate_payload ph_reactor.Model.Registry.find
    ph_reactor.Model.Registry.hash_is ph_reactor.Store.Admit.admit
    ph_reactor.Store.Admit.check_binding ph_reactor.Store.Admit.check_cosigs
    ph_reactor.Store.Admit.check_origin ph_reactor.Store.Admit.endorsers
    ph_reactor.Store.Admit.group_members ph_reactor.Store.Admit.insert_new
    ph_reactor.Store.Admit.list_of ph_reactor.Store.Admit.quorum_problem
    ph_reactor.Store.Admit.signers ph_reactor.Store.Admit.strings_of
    ph_reactor.Store.Apply.apply_admitted ph_reactor.Store.Apply.commit
    ph_reactor.Store.Apply.emit_change ph_reactor.Store.Apply.entry_or_new
    ph_reactor.Store.Apply.finish ph_reactor.Store.Apply.index_name
    ph_reactor.Store.Apply.log_action ph_reactor.Store.Apply.log_is_long
    ph_reactor.Store.Apply.out_of_order ph_reactor.Store.Apply.persist_action
    ph_reactor.Store.Apply.publish ph_reactor.Store.Apply.reorder ph_reactor.Store.Apply.snapshot
    ph_reactor.Store.Apply.snapshot_entry ph_reactor.Store.Fold.apply_each
    ph_reactor.Store.Fold.apply_ops_to_entry ph_reactor.Store.Fold.canon_lt
    ph_reactor.Store.Fold.canon_sort ph_reactor.Store.Fold.fold_action
    ph_reactor.Store.Fold.fold_log ph_reactor.Store.Fold.fold_ops ph_reactor.Store.Fold.or_first
    ph_reactor.Store.Fold.refold ph_reactor.Store.Fold.refold_entry ph_reactor.Store.Fold.resolve
    ph_reactor.Store.Fold.stamp ph_reactor.Store.State.base_entry ph_reactor.Store.State.lift_name
    ph_reactor.Store.State.new_entry ph_reactor.Store.State.quarantine
    ph_reactor.Store.State.state_of ph_reactor.Tests.Encoding.json_bytes
    ph_reactor.Tests.Encoding.value_then
admits = refl

agreed : quorum_problem team_node both endorsed ≡ ok tt
unfolding ph_reactor.Action.action_hash ph_reactor.Action.clock_iter ph_reactor.Action.message_bytes
    ph_reactor.Action.sign ph_reactor.Action.verify ph_reactor.Action.verify_cosig
    ph_reactor.Base.Bytes.as_bytes ph_reactor.Base.Bytes.be_bytes ph_reactor.Base.Bytes.bytes_eq
    ph_reactor.Base.Bytes.from_be_bytes ph_reactor.Base.Map.insert ph_reactor.Base.Map.lookup
    ph_reactor.Base.Map.remove ph_reactor.Base.Text.str_lt ph_reactor.Doc.Apply.apply_live
    ph_reactor.Doc.Apply.apply_op ph_reactor.Doc.Apply.changes ph_reactor.Doc.Apply.newer
    ph_reactor.Doc.Apply.write_field ph_reactor.Doc.Clock.clock_get ph_reactor.Doc.Clock.covers
    ph_reactor.Doc.Clock.merge ph_reactor.Doc.Clock.merge_entry ph_reactor.Doc.Data.field_from_op
    ph_reactor.Doc.Data.live ph_reactor.Json.Data.insert_member ph_reactor.Json.Data.object
    ph_reactor.Model.Open.open_model ph_reactor.Model.Open.reduce
    ph_reactor.Model.Open.validate_payload ph_reactor.Model.Registry.find
    ph_reactor.Model.Registry.hash_is ph_reactor.Store.Admit.admit
    ph_reactor.Store.Admit.check_binding ph_reactor.Store.Admit.check_cosigs
    ph_reactor.Store.Admit.check_origin ph_reactor.Store.Admit.endorsers
    ph_reactor.Store.Admit.group_members ph_reactor.Store.Admit.insert_new
    ph_reactor.Store.Admit.list_of ph_reactor.Store.Admit.quorum_problem
    ph_reactor.Store.Admit.signers ph_reactor.Store.Admit.strings_of
    ph_reactor.Store.Apply.apply_admitted ph_reactor.Store.Apply.commit
    ph_reactor.Store.Apply.emit_change ph_reactor.Store.Apply.entry_or_new
    ph_reactor.Store.Apply.finish ph_reactor.Store.Apply.index_name
    ph_reactor.Store.Apply.log_action ph_reactor.Store.Apply.log_is_long
    ph_reactor.Store.Apply.out_of_order ph_reactor.Store.Apply.persist_action
    ph_reactor.Store.Apply.publish ph_reactor.Store.Apply.reorder ph_reactor.Store.Apply.snapshot
    ph_reactor.Store.Apply.snapshot_entry ph_reactor.Store.Fold.apply_each
    ph_reactor.Store.Fold.apply_ops_to_entry ph_reactor.Store.Fold.canon_lt
    ph_reactor.Store.Fold.canon_sort ph_reactor.Store.Fold.fold_action
    ph_reactor.Store.Fold.fold_log ph_reactor.Store.Fold.fold_ops ph_reactor.Store.Fold.or_first
    ph_reactor.Store.Fold.refold ph_reactor.Store.Fold.refold_entry ph_reactor.Store.Fold.resolve
    ph_reactor.Store.Fold.stamp ph_reactor.Store.State.base_entry ph_reactor.Store.State.lift_name
    ph_reactor.Store.State.new_entry ph_reactor.Store.State.quarantine
    ph_reactor.Store.State.state_of ph_reactor.Tests.Encoding.json_bytes
    ph_reactor.Tests.Encoding.value_then
agreed = refl

quorum_problem-QuorumMet_example : QuorumMet team_node both endorsed
quorum_problem-QuorumMet_example = quorum_problem-QuorumMet team_node both endorsed agreed

build_action-Built_example :
    Built crypto node
      (build_action crypto node 10 (entry_of []) note (model_ref "open" "1") "set" null).1
      (entry_of [])
      10
      (build_action crypto node 10 (entry_of []) note (model_ref "open" "1") "set" null).0
unfolding lookup ph_reactor.Doc.Clock.clock_get
build_action-Built_example =
    build_action-Built crypto node 10 (entry_of []) note (model_ref "open" "1") "set" null
      crypto-Lawful refl (omega arith) (omega arith)

may_peer_read_iff_example : may_peer_read team_node "bob" 8 ≡ true ↔ MayRead team_node "bob" 8
may_peer_read_iff_example = may_peer_read_iff team_node "bob" 8

-- The team as a space that only its members may read, and a document in it.
abbrev gated_team : Entry
gated_team = record team {
  doc = record (team.doc) {
    fields = ("visibility", live_field (str "protected")) ∷ team.doc.fields;
  };
  space = some 8;
}

abbrev gated_node : Inner
gated_node = record node {
  entries =
      (8, gated_team)
      ∷ (9, record (entry_of []) { clock = ("alice", 4) ∷ []; space = some 8 })
      ∷ [];
}

run_summary_for :
    (lookup 9 (summary_for gated_node "bob") ≡ some (("alice", 4) ∷ []))
    × (lookup 9 (summary_for gated_node "eve") ≡ none)
unfolding summary_for summary may_peer_read gate_of gate_opens visibility_of list_of lookup
run_summary_for = (refl, refl)

summary_for_iff_example :
    lookup 9 (summary_for gated_node "bob") ≡ some (("alice", 4) ∷ [])
    ↔ (r : MayRead gated_node "bob" 9) × (r.entry.clock ≡ ("alice", 4) ∷ [])
summary_for_iff_example = summary_for_iff gated_node "bob" 9 (("alice", 4) ∷ [])

catch_up_completes_example :
    All
      (λ (a : Action). covers (("alice", 1) ∷ []) a.clock ≡ false)
      (catch_up crypto (holding one_way) note (("alice", 1) ∷ [])).1
    × All
        (λ (a : Action).
          covers
            (absorb
              (("alice", 1) ∷ [])
              (catch_up crypto (holding one_way) note (("alice", 1) ∷ [])).1)
            a.clock
          ≡ true)
        (entry_of one_way).log
unfolding lookup one_way ph_reactor.Action.sign
catch_up_completes_example =
    catch_up_completes crypto (holding one_way) note (("alice", 1) ∷ []) (entry_of one_way) refl
      ((refl, tt), ((refl, tt), tt)) (refl, tt)

register_peer_key_pins_example :
    (lookup "alice" node.known_keys ≡ some alice_key
      → lookup "alice" (register_peer_key node "carol" (5 ∷ [])).1.known_keys ≡ some alice_key)
    × (lookup "alice" node.known_keys ≡ none
        → lookup "alice" (register_peer_key node "carol" (5 ∷ [])).1.known_keys
          ≡ (if ◌==◌ {A = String} "carol" "alice" then some (5 ∷ []) else none))
    × ((register_peer_key node "carol" (5 ∷ [])).0 ≡ ok tt
        ↔ lookup "carol" (register_peer_key node "carol" (5 ∷ [])).1.known_keys ≡ some (5 ∷ []))
register_peer_key_pins_example = register_peer_key_pins node "carol" "alice" (5 ∷ []) alice_key

-- A document of `space@1`, whose rules are not asked.
abbrev governed : Inner
governed = record node {
  entries = (note, record (entry_of (from_bob ∷ [])) { model = model_ref "space" "1" }) ∷ [];
}

admit_open_iff_example :
    admit crypto governed from_alice ≡ ok open_model
    ↔ Signs crypto governed from_alice.origin (verify crypto from_alice)
      × CoSigned crypto governed from_alice 0 from_alice.cosig
      × OpenPayload from_alice.kind from_alice.payload
      × BoundTo governed from_alice
unfolding find lookup hash_is ph_reactor.Action.sign
admit_open_iff_example = admit_open_iff crypto governed from_alice refl
