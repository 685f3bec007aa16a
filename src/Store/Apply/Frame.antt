-- ===== src/Store/Apply/Frame.antt =====
-- What an action leaves alone: every other document, the keys, the models and the node's identity.
use ph_reactor.Base.{
  ℕ, ◌≡◌, refl, ◌∙◌, Bool, true, false, Option, some, ◌||◌, if◌then◌else◌, inl, inr, Option-cases,
}
use ph_reactor.Base.Eq.{◌==◌, string_eq, nat_eq}
use ph_reactor.Base.Map.{Map, lookup, insert, lookup-insert}
use ph_reactor.Base.Result.{Result, ok, err, ◌>>=◌, result-cases}
use ph_reactor.Doc.Data.{DocId}
use ph_reactor.Action.{Action, Extern}
use ph_reactor.Model.Interface.{Model}
use ph_reactor.Store.State.{Entry, Inner, StoreError, write_failed, quarantine}
use ph_reactor.Store.Fold.{refold, refold_entry}
use ph_reactor.Store.Admit.{admit}
use ph_reactor.Store.Apply.{
  persist_action, snapshot_entry, snapshot, emit_change, publish, name_entry, index_name,
  entry_or_new, log_action, out_of_order, or_as_it_was, log_is_long, reorder, finish, commit,
  apply_admitted, apply_action,
}
use ph_reactor.Store.Apply.Keeps.{then_with-keeps, if-keeps, then-keeps}

-- The state `t` differs from `s` in document `id` at most.
pub record Frame (id : DocId) (s t : Inner) : Type 0 where
  pub others : (j : DocId) → (id == j) ≡ false → lookup j t.entries ≡ lookup j s.entries
  pub snaps : (j : DocId) → (id == j) ≡ false → lookup j t.disk.snaps ≡ lookup j s.disk.snaps
  pub alogs : (j : DocId) → (id == j) ≡ false → lookup j t.disk.alogs ≡ lookup j s.disk.alogs
  pub keys : t.known_keys ≡ s.known_keys
  pub models : t.models ≡ s.models
  pub origin : t.origin ≡ s.origin
  pub key : t.key ≡ s.key

pub Frame-refl : (id : DocId) (s : Inner) → Frame id s s
Frame-refl id s = record {
  others = λ j h. refl;
  snaps = λ j h. refl;
  alogs = λ j h. refl;
  keys = refl;
  models = refl;
  origin = refl;
  key = refl;
}

pub Frame-trans : (id : DocId) (s t u : Inner) → Frame id s t → Frame id t u → Frame id s u
Frame-trans id s t u f g = record {
  others = λ j h. g.others j h ∙ f.others j h;
  snaps = λ j h. g.snaps j h ∙ f.snaps j h;
  alogs = λ j h. g.alogs j h ∙ f.alogs j h;
  keys = g.keys ∙ f.keys;
  models = g.models ∙ f.models;
  origin = g.origin ∙ f.origin;
  key = g.key ∙ f.key;
}

elsewhere :
    {V : Type 0} (id j : DocId) (v : V) (m : Map DocId V)
    → (id == j) ≡ false
    → lookup j (insert id v m) ≡ lookup j m
elsewhere id j v m h = rw (lookup-insert, h) refl

pub insert-Frame :
    (id : DocId) (s : Inner) (e : Entry) → Frame id s (record s { entries = insert id e s.entries })
insert-Frame id s e = record {
  others = λ j h. elsewhere id j e s.entries h;
  snaps = λ j h. refl;
  alogs = λ j h. refl;
  keys = refl;
  models = refl;
  origin = refl;
  key = refl;
}

-- Frame looks at none of the other parts of a state.
pub unseen :
    (id : DocId) (s t : Inner)
    → t.disk ≡ s.disk
    → t.entries ≡ s.entries
    → t.known_keys ≡ s.known_keys
    → t.models ≡ s.models
    → t.origin ≡ s.origin
    → t.key ≡ s.key
    → Frame id s t
unseen id s t disk entries keys models origin key = record {
  others = λ j h. rw entries refl;
  snaps = λ j h. rw disk refl;
  alogs = λ j h. rw disk refl;
  keys = keys;
  models = models;
  origin = origin;
  key = key;
}

persist-Frame : (s : Inner) (a : Action) → Frame a.doc_id s (persist_action s a)
unfolding persist_action
persist-Frame s a =
    if-keeps (Frame a.doc_id s) s.disk.writable _ s
      (record {
        others = λ j h. refl;
        snaps = λ j h. refl;
        alogs = λ j h. elsewhere a.doc_id j _ s.disk.alogs h;
        keys = refl;
        models = refl;
        origin = refl;
        key = refl;
      })
      (Frame-refl a.doc_id s)

snapshot_entry-Frame :
    (x : Extern) (s : Inner) (id : DocId) (e : Entry) → Frame id s (snapshot_entry x s id e).1
unfolding snapshot_entry
snapshot_entry-Frame x s id e =
    then-keeps (Frame id s) s.disk.writable _ (err write_failed, s)
      (record {
        others = λ j h. elsewhere id j _ s.entries h;
        snaps = λ j h. elsewhere id j _ s.disk.snaps h;
        alogs = λ j h. elsewhere id j _ s.disk.alogs h;
        keys = refl;
        models = refl;
        origin = refl;
        key = refl;
      })
      (Frame-refl id s)

snapshot-Frame : (x : Extern) (s : Inner) (id : DocId) → Frame id s (snapshot x s id).1
unfolding snapshot
snapshot-Frame x s id = elim (Option-cases (lookup id s.entries)) [
  | inl absent ↦ rw (absent, snapshot) (Frame-refl id s)
  | inr (e, found) ↦ rw (found, snapshot) (snapshot_entry-Frame x s id e)
]

publish-Frame :
    (id : DocId) (s : Inner) (a : Action) (applied : Bool) → Frame id s (publish s a applied)
unfolding publish
publish-Frame id s a true =
    if-keeps (Frame id s) (a.origin == s.origin) _ _ (unseen id s _ refl refl refl refl refl refl)
      (unseen id s _ refl refl refl refl refl refl)
publish-Frame id s a false = unseen id s _ refl refl refl refl refl refl

name_entry-Frame : (id : DocId) (s : Inner) (e : Entry) → Frame id s (name_entry s id e)
unfolding name_entry
name_entry-Frame id s e =
    let same : (m : _) → Frame id s (record s { names = m }) =
      λ m. unseen id s _ refl refl refl refl refl refl in
    if-keeps (Frame id s) e.deleted _ _ (if-keeps (Frame id s) _ _ s (same _) (Frame-refl id s))
      (if-keeps (Frame id s) (e.doc.name == "") s _ (Frame-refl id s) (same _))

index-Frame : (s : Inner) (id : DocId) → Frame id s (index_name s id)
unfolding index_name
index-Frame s id = elim (Option-cases (lookup id s.entries)) [
  | inl absent ↦ rw (absent, index_name) (Frame-refl id s)
  | inr (e, found) ↦ rw (found, index_name) (name_entry-Frame id s e)
]

emit-Frame :
    (x : Extern) (id : DocId) (s : Inner) (ts : ℕ) (a : Option Action)
    → Frame id s (emit_change x s id ts a)
unfolding emit_change
emit-Frame x id s ts a = elim (Option-cases (lookup id s.entries)) [
  | inl absent ↦ rw (absent, emit_change) (Frame-refl id s)
  | inr (e, found) ↦ rw (found, emit_change) (unseen id s _ refl refl refl refl refl refl)
]

refolded-Frame :
    (id : DocId) (s : Inner) (r : Result StoreError Entry)
    → Frame id s
        (or_as_it_was s (r >>= λ fresh. ok (record s { entries = insert id fresh s.entries }))).1
refolded-Frame id s (ok fresh) = insert-Frame id s fresh
refolded-Frame id s (err e) = Frame-refl id s

reorder-Frame :
    (x : Extern) (s : Inner) (id : DocId) (late : Bool) → Frame id s (reorder x s id late).1
unfolding reorder refold
reorder-Frame x s id false = Frame-refl id s
reorder-Frame x s id true = elim (Option-cases (lookup id s.entries)) [
  | inl absent ↦ rw (absent, refold) (Frame-refl id s)
  | inr (e, found) ↦ rw (found, refold) (refolded-Frame id s (refold_entry x s id e))
]

finish-Frame :
    (x : Extern) (s : Inner) (a : Action) (applied deleted : Bool)
    → Frame a.doc_id s (finish x s a applied deleted).1
unfolding finish
finish-Frame x s a applied deleted =
    let id = a.doc_id in
    then_with-keeps (Frame id s) (if log_is_long s id then snapshot x s id else (ok tt, s)) _
      (then-keeps (Frame id s) (log_is_long s id) (snapshot x s id) (ok tt, s)
        (snapshot-Frame x s id) (Frame-refl id s))
      (λ _ s1 r.
        let named = Frame-trans id s s1 _ r (index-Frame s1 id) in
        if-keeps (Frame id s) (applied || deleted) _ _
          (Frame-trans id s _ _ named (emit-Frame x id _ a.ts (some a))) named)

commit-Frame :
    (x : Extern) (s : Inner) (m : Model) (a : Action) → Frame a.doc_id s (commit x s m a).1
unfolding commit
commit-Frame x s m a =
    let id = a.doc_id in
    let (e, applied) = log_action (entry_or_new s id) m a in
    let s1 = record s { entries = insert id e s.entries } in
    let late = out_of_order x s a in
    then_with-keeps (Frame id s) (reorder x s1 id late) _
      (Frame-trans id s s1 _ (insert-Frame id s e) (reorder-Frame x s1 id late))
      (λ _ s2 r.
        let kept = persist_action s2 a in
        let sent = publish kept a applied in
        Frame-trans id s s2 _ r (
          Frame-trans id s2 kept _ (persist-Frame s2 a) (
            Frame-trans id kept sent _ (publish-Frame id kept a applied)
              (finish-Frame x sent a applied e.deleted))))

quarantine-Frame : (id : DocId) (s : Inner) → Frame id s (quarantine s)
unfolding quarantine
quarantine-Frame id s = unseen id s _ refl refl refl refl refl refl

apply_admitted-Frame :
    (x : Extern) (s : Inner) (m : Model) (a : Action) → Frame a.doc_id s (apply_admitted x s m a).1
unfolding apply_admitted
apply_admitted-Frame x s m a =
    let e = entry_or_new s a.doc_id in
    elim (result-cases (m.check_precondition e.doc a)) [
      | inl (u, passed) ↦ rw (passed, apply_admitted) (commit-Frame x s m a)
      | inr (r, failed) ↦
          rw (failed, apply_admitted)
            (Frame-trans a.doc_id s _ _ (insert-Frame a.doc_id s e) (quarantine-Frame a.doc_id _))
    ]

-- Whatever comes of an action, accepted or refused, it changes at most the document that it names:
-- the entry, the snapshot and the log file of every other document stay, and so do the pinned keys,
-- the models and the node's own identity and key.
pub apply_action-Frame :
    (x : Extern) (s : Inner) (a : Action) → Frame a.doc_id s (apply_action x s a).1
unfolding apply_action
apply_action-Frame x s a = elim (result-cases (admit x s a)) [
  | inl (m, admitted) ↦ rw (admitted, apply_action) (apply_admitted-Frame x s m a)
  | inr (e, refused) ↦ rw (refused, apply_action) (quarantine-Frame a.doc_id s)
]
