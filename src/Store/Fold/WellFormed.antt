-- ===== src/Store/Fold/WellFormed.antt =====
-- Well-formed entries: the name is never a field, and the log is in canonical order.
use ph_reactor.Base.{
  ◌≡◌, refl, subst, Bool, true, false, Option, none, some, List, [], ◌∷◌, ◌&&◌, if◌then◌else◌, inl,
  inr, Bool-cases, Option-cases,
}
use ph_reactor.Base.Eq.{◌==◌, string_eq, nat_eq}
use ph_reactor.Base.Map.{Map, lookup, insert, lookup-insert, lookup-remove}
use ph_reactor.Base.Result.{ok, >>=-eq-ok, result-cases}
use ph_reactor.Doc.Data.{DocId, Doc}
use ph_reactor.Action.{Action, Extern}
use ph_reactor.Model.Interface.{Model}
use ph_reactor.Store.State.{name_key, DocState, Entry, new_entry, Inner, lift_name, base_entry}
use ph_reactor.Store.Fold.{
  canon_sort, passes, fold_ops, apply_ops_to_entry, resolve, fold_action, fold_log, or_first,
  refold_entry,
}
use ph_reactor.Store.Fold.Sorted.{Sorted, canon_sort-Sorted}

abbrev pub Lifted : Doc → Type 0
Lifted d = lookup name_key d.fields ≡ none

pub record EntryOk (x : Extern) (e : Entry) : Type 0 where
  pub lifted : Lifted e.doc
  pub sorted : Sorted x e.log

-- Every entry of the table is well formed.
abbrev pub AllOk : Extern → Map DocId Entry → Type 0
AllOk x m = (id : DocId) (e : Entry) → lookup id m ≡ some e → EntryOk x e

lift_name-Lifted : (d : Doc) → Lifted (lift_name d)
unfolding lift_name
lift_name-Lifted d = elim (Option-cases (lookup name_key d.fields)) [
  | inl absent ↦ rw (absent, lift_name) absent
  | inr (f, found) ↦ rw (found, lift_name) (rw (lookup-remove name_key name_key d.fields) refl)
]

pub apply_ops-Lifted :
    (e : Entry) (m : Model) (a : Action) → Lifted e.doc → Lifted (apply_ops_to_entry e m a).0.doc
unfolding apply_ops_to_entry fold_ops
apply_ops-Lifted e m a l = elim (result-cases (m.reduce e.doc a)) [
  | inl (ops, reduced) ↦ rw (reduced, apply_ops_to_entry) (lift_name-Lifted _)
  | inr (r, failed) ↦ rw (failed, apply_ops_to_entry) l
]

pub apply_ops-log : (e : Entry) (m : Model) (a : Action) → (apply_ops_to_entry e m a).0.log ≡ e.log
unfolding apply_ops_to_entry fold_ops
apply_ops-log e m a = elim (result-cases (m.reduce e.doc a)) [
  | inl (ops, reduced) ↦ rw (reduced, apply_ops_to_entry) refl
  | inr (r, failed) ↦ rw (failed, apply_ops_to_entry) refl
]

fold_action-Lifted : (e : Entry) (p : Action × Model) → Lifted e.doc → Lifted (fold_action e p).doc
unfolding fold_action
fold_action-Lifted e (a, m) l =
    kept (passes (m.check_precondition e.doc a) && passes (m.authorize e.doc a))
  where
    kept :
        (test : Bool)
        → Lifted (if test then record (apply_ops_to_entry e m a).0 { model = a.model } else e).doc
    kept true = apply_ops-Lifted e m a l
    kept false = l

fold_log-Lifted :
    (e : Entry) (ps : List (Action × Model)) → Lifted e.doc → Lifted (fold_log e ps).doc
unfolding fold_log
fold_log-Lifted e [] l = l
fold_log-Lifted e (p ∷ ps) l = fold_log-Lifted (fold_action e p) ps (fold_action-Lifted e p l)

base-Lifted : (id : DocId) (b : Option DocState) → Lifted (base_entry id b).doc
unfolding base_entry
base-Lifted id none = lift_name-Lifted _
base-Lifted id (some b) = lift_name-Lifted b.doc

-- A re-fold leaves a well-formed entry, whatever the log was.
pub refold_entry-EntryOk :
    (x : Extern) (s : Inner) (id : DocId) (e f : Entry) → refold_entry x s id e ≡ ok f → EntryOk x f
unfolding refold_entry
refold_entry-EntryOk x s id e f h =
    let base = base_entry id (lookup id s.disk.snaps) in
    let log = canon_sort x e.log in
    let (pairs, _, built) = >>=-eq-ok (resolve s.models log) _ h in
    let start = record base { space = or_first base.space log } in
    let same : record (fold_log start pairs) { clock = e.clock; log = log } ≡ f = cc built in
    subst (EntryOk x) same (record {
      lifted = fold_log-Lifted start pairs (base-Lifted id (lookup id s.disk.snaps));
      sorted = canon_sort-Sorted x e.log;
    })

pub new_entry-EntryOk : (x : Extern) (id : DocId) → EntryOk x (new_entry id)
unfolding new_entry lookup
new_entry-EntryOk x id = record { lifted = refl; sorted = tt }

pub insert-AllOk :
    (x : Extern) (m : Map DocId Entry) (id : DocId) (e : Entry)
    → AllOk x m
    → EntryOk x e
    → AllOk x (insert id e m)
insert-AllOk x m id e w k j f h = elim (Bool-cases (id == j)) [
  | inl here ↦ let same : e ≡ f = cc (rw (lookup-insert, here) at h) in subst (EntryOk x) same k
  | inr other ↦ w j f (rw (lookup-insert, other) at h)
]
