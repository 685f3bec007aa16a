-- ===== src/Store/Apply/Quiet.antt =====
-- The steps of `apply_action` that send nothing.
use ph_reactor.Base.{
  ℕ, ◌≡◌, refl, ◌∙◌, String, Bool, true, false, Option, some, ◌||◌, if◌then◌else◌, inl, inr,
  Option-cases,
}
use ph_reactor.Base.Eq.{◌==◌, string_eq, nat_eq}
use ph_reactor.Base.Map.{Map, lookup, insert}
use ph_reactor.Base.Result.{Result, ok, err, ◌>>=◌}
use ph_reactor.Doc.Data.{DocId}
use ph_reactor.Action.{Action, Extern}
use ph_reactor.Model.Interface.{Model}
use ph_reactor.Store.State.{Entry, Inner, StoreError, write_failed, quarantine}
use ph_reactor.Store.Fold.{refold_entry, refold}
use ph_reactor.Store.Apply.{
  persist_action, snapshot_entry, snapshot, emit_change, name_entry, index_name, entry_or_new,
  log_action, out_of_order, or_as_it_was, log_is_long, reorder, finish,
}
use ph_reactor.Store.Apply.Keeps.{then_with-keeps, if-keeps, then-keeps}

-- Both channels, the node's identity, the disk's health and the high-water mark of timestamps.
pub record Quiet (s t : Inner) : Type 0 where
  pub outbound : t.outbound ≡ s.outbound
  pub feed : t.outbound_feed ≡ s.outbound_feed
  pub ts_hint : t.ts_hint ≡ s.ts_hint
  pub origin : t.origin ≡ s.origin
  pub writable : t.disk.writable ≡ s.disk.writable

pub Quiet-trans : (s t u : Inner) → Quiet s t → Quiet t u → Quiet s u
Quiet-trans s t u p q = record {
  outbound = q.outbound ∙ p.outbound;
  feed = q.feed ∙ p.feed;
  ts_hint = q.ts_hint ∙ p.ts_hint;
  origin = q.origin ∙ p.origin;
  writable = q.writable ∙ p.writable;
}

Quiet-refl : (s : Inner) → Quiet s s
Quiet-refl s = record {
  outbound = refl;
  feed = refl;
  ts_hint = refl;
  origin = refl;
  writable = refl;
}

insert-Quiet : (s : Inner) (m : Map DocId Entry) → Quiet s (record s { entries = m })
insert-Quiet s m = record {
  outbound = refl;
  feed = refl;
  ts_hint = refl;
  origin = refl;
  writable = refl;
}

pub quarantine-Quiet :
    (s : Inner) (m : Map DocId Entry) → Quiet s (quarantine (record s { entries = m }))
unfolding quarantine
quarantine-Quiet s m = record {
  outbound = refl;
  feed = refl;
  ts_hint = refl;
  origin = refl;
  writable = refl;
}

pub persist-Quiet : (s : Inner) (a : Action) → Quiet s (persist_action s a)
unfolding persist_action
persist-Quiet s a =
    if-keeps (Quiet s) s.disk.writable _ s
      (record { outbound = refl; feed = refl; ts_hint = refl; origin = refl; writable = refl })
      (Quiet-refl s)

reorder-Quiet :
    (x : Extern) (s : Inner) (id : DocId) (late : Bool) → Quiet s (reorder x s id late).1
unfolding reorder refold
reorder-Quiet x s id false = Quiet-refl s
reorder-Quiet x s id true = elim (Option-cases (lookup id s.entries)) [
  | inl absent ↦ rw (absent, refold) (Quiet-refl s)
  | inr (e, found) ↦ rw (found, refold) (refolded (refold_entry x s id e))
]
  where
    refolded :
        (r : Result StoreError Entry)
        → Quiet s (or_as_it_was s (r >>= λ f. ok (record s { entries = insert id f s.entries }))).1
    refolded (ok f) = insert-Quiet s _
    refolded (err e) = Quiet-refl s

snapshot-Quiet : (x : Extern) (s : Inner) (id : DocId) → Quiet s (snapshot x s id).1
unfolding snapshot snapshot_entry
snapshot-Quiet x s id = elim (Option-cases (lookup id s.entries)) [
  | inl absent ↦ rw (absent, snapshot) (Quiet-refl s)
  | inr (e, found) ↦
      rw (found, snapshot)
        (then-keeps (Quiet s) s.disk.writable _ (err write_failed, s)
          (record { outbound = refl; feed = refl; ts_hint = refl; origin = refl; writable = refl })
          (Quiet-refl s))
]

renamed-Quiet : (s : Inner) (m : Map String DocId) → Quiet s (record s { names = m })
renamed-Quiet s m = record {
  outbound = refl;
  feed = refl;
  ts_hint = refl;
  origin = refl;
  writable = refl;
}

name_entry-Quiet : (s : Inner) (id : DocId) (e : Entry) → Quiet s (name_entry s id e)
unfolding name_entry
name_entry-Quiet s id e =
    if-keeps (Quiet s) e.deleted _ _ (if-keeps (Quiet s) _ _ s (renamed-Quiet s _) (Quiet-refl s))
      (if-keeps (Quiet s) (e.doc.name == "") s _ (Quiet-refl s) (renamed-Quiet s _))

index-Quiet : (s : Inner) (id : DocId) → Quiet s (index_name s id)
unfolding index_name
index-Quiet s id = elim (Option-cases (lookup id s.entries)) [
  | inl absent ↦ rw (absent, index_name) (Quiet-refl s)
  | inr (e, found) ↦ rw (found, index_name) (name_entry-Quiet s id e)
]

emit-Quiet :
    (x : Extern) (s : Inner) (id : DocId) (ts : ℕ) (a : Option Action)
    → Quiet s (emit_change x s id ts a)
unfolding emit_change
emit-Quiet x s id ts a = elim (Option-cases (lookup id s.entries)) [
  | inl absent ↦ rw (absent, emit_change) (Quiet-refl s)
  | inr (e, found) ↦
      rw (found, emit_change)
        (record { outbound = refl; feed = refl; ts_hint = refl; origin = refl; writable = refl })
]

pub finish-Quiet :
    (x : Extern) (s : Inner) (a : Action) (applied deleted : Bool)
    → Quiet s (finish x s a applied deleted).1
unfolding finish
finish-Quiet x s a applied deleted =
    let id = a.doc_id in
    then_with-keeps (Quiet s) (if log_is_long s id then snapshot x s id else (ok tt, s)) _
      (then-keeps (Quiet s) (log_is_long s id) (snapshot x s id) (ok tt, s) (snapshot-Quiet x s id)
        (Quiet-refl s))
      (λ _ s1 r.
        let named = Quiet-trans s s1 _ r (index-Quiet s1 id) in
        if-keeps (Quiet s) (applied || deleted) _ _
          (Quiet-trans s _ _ named (emit-Quiet x _ id a.ts (some a))) named)

-- The states of a commit before it publishes.
pub logged-Quiet :
    (x : Extern) (s : Inner) (m : Model) (a : Action)
    → let (e, applied) = log_action (entry_or_new s a.doc_id) m a in
      let s1 = record s { entries = insert a.doc_id e s.entries } in
      Quiet s (reorder x s1 a.doc_id (out_of_order x s a)).1
logged-Quiet x s m a =
    let (e, applied) = log_action (entry_or_new s a.doc_id) m a in
    let s1 = record s { entries = insert a.doc_id e s.entries } in
    Quiet-trans s s1 _ (insert-Quiet s _) (reorder-Quiet x s1 a.doc_id (out_of_order x s a))
