-- ===== src/Store/Apply/Invariant.antt =====
-- `apply_action` keeps the entries well formed.
use ph_reactor.Base.{
  ℕ, ◌≡◌, refl, sym, ◌∙◌, ap, subst, Bool, true, false, Option, none, some, [], ◌∷◌, ◌++◌, ◌||◌,
  last?, arith, if◌then◌else◌, inl, inr, Bool-cases, Option-cases, is_empty,
}
use ph_reactor.Base.Eq.{◌==◌, string_eq, nat_eq}
use ph_reactor.Base.Map.{Map, lookup, insert, lookup-insert, lookup-insert_self}
use ph_reactor.Base.Result.{ok, err, result-cases}
use ph_reactor.Doc.Data.{DocId}
use ph_reactor.Doc.Apply.{ApplyResult}
use ph_reactor.Action.{Action, Extern}
use ph_reactor.Model.Interface.{Model}
use ph_reactor.Store.State.{Entry, new_entry, Inner, write_failed}
use ph_reactor.Store.Fold.{canon_lt, refold_entry, refold}
use ph_reactor.Store.Fold.Sorted.{Sorted, Follows, append-Sorted}
use ph_reactor.Store.Admit.{admit}
use ph_reactor.Store.Apply.{
  persist_action, snapshot_entry, snapshot, emit_change, publish, name_entry, index_name,
  entry_or_new, log_action, out_of_order, log_is_long, reorder, finish, commit, apply_admitted,
  apply_action,
}
use ph_reactor.Store.Apply.Keeps.{then_with-keeps, if-keeps, then-keeps, then_with-eq-ok}
use ph_reactor.Store.Fold.WellFormed.{
  Lifted, EntryOk, AllOk, apply_ops-Lifted, apply_ops-log, refold_entry-EntryOk, new_entry-EntryOk,
  insert-AllOk,
}

entry_or_new-EntryOk :
    (x : Extern) (s : Inner) (id : DocId) → AllOk x s.entries → EntryOk x (entry_or_new s id)
unfolding entry_or_new
entry_or_new-EntryOk x s id w = elim (Option-cases (lookup id s.entries)) [
  | inl absent ↦ rw (absent, entry_or_new) (new_entry-EntryOk x id)
  | inr (e, found) ↦ rw (found, entry_or_new) (w id e found)
]

log_action-Lifted :
    (e : Entry) (m : Model) (a : Action) → Lifted e.doc → Lifted (log_action e m a).0.doc
unfolding log_action
log_action-Lifted e m a l = elim (Bool-cases (is_empty e.log)) [
  | inl first ↦ rw (first, log_action) (apply_ops-Lifted (record e { space = a.space }) m a l)
  | inr later ↦ rw (later, log_action) (apply_ops-Lifted e m a l)
]

log_action-log : (e : Entry) (m : Model) (a : Action) → (log_action e m a).0.log ≡ e.log ++ a ∷ []
unfolding log_action
log_action-log e m a = elim (Bool-cases (is_empty e.log)) [
  | inl first ↦
      rw (first, log_action)
        (ap (λ log. log ++ a ∷ []) (apply_ops-log (record e { space = a.space }) m a))
  | inr later ↦ rw (later, log_action) (ap (λ log. log ++ a ∷ []) (apply_ops-log e m a))
]

follows :
    (x : Extern) (o : Option Action) (a : Action)
    → elim o [ none ↦ false | some last ↦ canon_lt x a last ] ≡ false
    → Follows x o a
follows x none a h = tt
follows x (some last) a h = h

in_order-Follows :
    (x : Extern) (s : Inner) (a : Action)
    → out_of_order x s a ≡ false
    → Follows x (last? (entry_or_new s a.doc_id).log) a
unfolding out_of_order entry_or_new new_entry
in_order-Follows x s a h = elim (Option-cases (lookup a.doc_id s.entries)) [
  | inl absent ↦ rw (absent, entry_or_new) tt
  | inr (e, found) ↦
      rw (found, entry_or_new) (follows x (last? e.log) a (rw (found, out_of_order) at h))
]

name_entry-entries : (s : Inner) (id : DocId) (e : Entry) → (name_entry s id e).entries ≡ s.entries
unfolding name_entry
name_entry-entries s id e = ground arith

index-entries : (s : Inner) (id : DocId) → (index_name s id).entries ≡ s.entries
unfolding index_name
index-entries s id = elim (Option-cases (lookup id s.entries)) [
  | inl absent ↦ rw (absent, index_name) refl
  | inr (e, found) ↦ rw (found, index_name) (name_entry-entries s id e)
]

emit-entries :
    (x : Extern) (s : Inner) (id : DocId) (ts : ℕ) (a : Option Action)
    → (emit_change x s id ts a).entries ≡ s.entries
unfolding emit_change
emit-entries x s id ts a = elim (Option-cases (lookup id s.entries)) [
  | inl absent ↦ rw (absent, emit_change) refl
  | inr (e, found) ↦ rw (found, emit_change) refl
]

publish-entries : (s : Inner) (a : Action) (b : Bool) → (publish s a b).entries ≡ s.entries
unfolding publish
publish-entries s a b = ground arith

persist-entries : (s : Inner) (a : Action) → (persist_action s a).entries ≡ s.entries
unfolding persist_action
persist-entries s a = ground arith

snapshot-AllOk :
    (x : Extern) (s : Inner) (id : DocId) → AllOk x s.entries → AllOk x (snapshot x s id).1.entries
unfolding snapshot snapshot_entry
snapshot-AllOk x s id w = elim (Option-cases (lookup id s.entries)) [
  | inl absent ↦ rw (absent, snapshot) w
  | inr (e, found) ↦
      rw (found, snapshot)
        (then-keeps (λ t. AllOk x t.entries) s.disk.writable _ (err write_failed, s)
          (insert-AllOk x s.entries id (record e { log = [] }) w
            (record { lifted = (w id e found).lifted; sorted = tt }))
          w)
]

finish-AllOk :
    (x : Extern) (s : Inner) (a : Action) (applied deleted : Bool)
    → AllOk x s.entries
    → AllOk x (finish x s a applied deleted).1.entries
unfolding finish
finish-AllOk x s a applied deleted w =
    let R : Inner → Type 0 = λ t. AllOk x t.entries in
    let id = a.doc_id in
    then_with-keeps R (if log_is_long s id then snapshot x s id else (ok tt, s)) _
      (then-keeps R (log_is_long s id) (snapshot x s id) (ok tt, s) (snapshot-AllOk x s id w) w)
      (λ _ s1 w1.
        let named : R (index_name s1 id) = subst (AllOk x) (sym (index-entries s1 id)) w1 in
        if-keeps R (applied || deleted) _ _
          (subst (AllOk x) (sym (emit-entries x (index_name s1 id) id a.ts (some a))) named) named)

-- A re-fold replaces the entry, so what was there does not matter.
twice-AllOk :
    (x : Extern) (m : Map DocId Entry) (id : DocId) (e f : Entry)
    → AllOk x m
    → EntryOk x f
    → AllOk x (insert id f (insert id e m))
twice-AllOk x m id e f w k j g h = elim (Bool-cases (id == j)) [
  | inl here ↦ let same : f ≡ g = cc (rw (lookup-insert, here) at h) in subst (EntryOk x) same k
  | inr other ↦ w j g (rw (lookup-insert, other, lookup-insert, other) at h)
]

-- The table after the merge and a re-fold where one is due.
reorder-AllOk :
    (x : Extern) (s t : Inner) (a : Action) (e : Entry) (late : Bool) {u : Unit {0}}
    → AllOk x s.entries
    → (late ≡ false → EntryOk x e)
    → reorder x (record s { entries = insert a.doc_id e s.entries }) a.doc_id late ≡ (ok u, t)
    → AllOk x t.entries
unfolding reorder refold
reorder-AllOk x s t a e false w k h =
    subst (λ (u : Inner). AllOk x u.entries) (ap (λ o. o.1) h)
      (insert-AllOk x s.entries a.doc_id e w (k refl))
reorder-AllOk x s t a e true w k h =
    let id = a.doc_id in
    let s1 = record s { entries = insert id e s.entries } in
    let found : lookup id s1.entries ≡ some e = lookup-insert_self id e s.entries in
    let folded = rw (found, refold) at h in
    elim (result-cases (refold_entry x s1 id e)) [
      | inl (f, same) ↦
          subst (λ (u : Inner). AllOk x u.entries) (ap (λ o. o.1) (rw same at folded))
            (twice-AllOk x s.entries id e f w (refold_entry-EntryOk x s1 id e f same))
      | inr (q, failed) ↦ absurd (cc (ap (λ o. o.0) (rw failed at folded)))
    ]

commit-AllOk :
    (x : Extern) (s t : Inner) (m : Model) (a : Action) (r : ApplyResult)
    → AllOk x s.entries
    → commit x s m a ≡ (ok r, t)
    → AllOk x t.entries
unfolding commit
commit-AllOk x s t m a r w h =
    let id = a.doc_id in
    let e = entry_or_new s id in
    let (f, applied) = log_action e m a in
    let late = out_of_order x s a in
    let s1 = record s { entries = insert id f s.entries } in
    let k = entry_or_new-EntryOk x s id w in
    let fresh : late ≡ false → EntryOk x f = λ q. record {
      lifted = log_action-Lifted e m a k.lifted;
      sorted =
          subst (Sorted x) (sym (log_action-log e m a))
            (append-Sorted x e.log a k.sorted (in_order-Follows x s a q));
    } in
    let (u, s2, ordered, done) = then_with-eq-ok (reorder x s1 id late) _ h in
    let kept = persist_action s2 a in
    let sent = publish kept a applied in
    let w2 : AllOk x sent.entries =
      subst (AllOk x) (sym (publish-entries kept a applied ∙ persist-entries s2 a))
        (reorder-AllOk x s s2 a f late w fresh ordered) in
    subst (λ (v : Inner). AllOk x v.entries) (ap (λ o. o.1) done)
      (finish-AllOk x sent a applied f.deleted w2)

-- An action that is accepted leaves every entry well formed: the name stays out of the fields, and
-- each log stays in canonical order, whether the action came in order or late.
pub apply_action-AllOk :
    (x : Extern) (s t : Inner) (a : Action) (r : ApplyResult)
    → AllOk x s.entries
    → apply_action x s a ≡ (ok r, t)
    → AllOk x t.entries
unfolding apply_action apply_admitted
apply_action-AllOk x s t a r w h = elim (result-cases (admit x s a)) [
  | inr (e, refused) ↦ absurd (cc (ap (λ o. o.0) (rw (refused, apply_action) at h)))
  | inl (m, admitted) ↦
      let go = rw (admitted, apply_action) at h in
      elim (result-cases (m.check_precondition (entry_or_new s a.doc_id).doc a)) [
        | inr (q, failed) ↦ absurd (cc (ap (λ o. o.0) (rw (failed, apply_admitted) at go)))
        | inl (v, passed) ↦ commit-AllOk x s t m a r w (rw (passed, apply_admitted) at go)
      ]
]
