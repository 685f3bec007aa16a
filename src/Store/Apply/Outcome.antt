-- ===== src/Store/Apply/Outcome.antt =====
-- What an accepted action has passed, what it sends, and what a refused one leaves.
use ph_reactor.Base.{
  ◌≡◌, refl, ◌∙◌, ap, subst, Bool, true, false, [], ◌∷◌, ◌++◌, ◌&&◌, max, arith, some, ◌▷◌,
  if◌then◌else◌, inl, inr, Bool-cases, Option-cases,
}
use ph_reactor.Base.Eq.{◌==◌, string_eq, nat_eq}
use ph_reactor.Base.Map.{lookup, insert}
use ph_reactor.Base.Result.{ok, err, result-cases}
use ph_reactor.Doc.Apply.{ApplyResult}
use ph_reactor.Action.{Action, Extern}
use ph_reactor.Model.Interface.{Model}
use ph_reactor.Store.State.{Entry, Inner, StoreError, quarantine}
use ph_reactor.Store.Admit.{admit}
use ph_reactor.Store.Admit.Sound.{Admitted, admit-Admitted}
use ph_reactor.Store.Apply.{
  Outcome, then_with, persist_action, snapshot_entry, snapshot, publish, entry_or_new, log_action,
  out_of_order, log_is_long, reorder, finish, commit, apply_admitted, apply_action,
}
use ph_reactor.Store.Apply.Keeps.{if-keeps, then_with-eq-ok}
use ph_reactor.Store.Apply.Quiet.{
  Quiet, quarantine-Quiet, persist-Quiet, Quiet-trans, finish-Quiet, logged-Quiet,
}

-- An accepted action has passed every check of `Admitted` with some model, and that model's
-- precondition on the document as it stood before.
pub accepted :
    (x : Extern) (s t : Inner) (a : Action) (r : ApplyResult)
    → apply_action x s a ≡ (ok r, t)
    → (m : Model) × Admitted x s a m
      × (m.check_precondition (entry_or_new s a.doc_id).doc a ≡ ok tt)
unfolding apply_action apply_admitted
accepted x s t a r h = elim (result-cases (admit x s a)) [
  | inr (e, refused) ↦ absurd (cc (ap (λ o. o.0) (rw (refused, apply_action) at h)))
  | inl (m, admitted) ↦
      let go = rw (admitted, apply_action) at h in
      elim (result-cases (m.check_precondition (entry_or_new s a.doc_id).doc a)) [
        | inr (q, failed) ↦ absurd (cc (ap (λ o. o.0) (rw (failed, apply_admitted) at go)))
        | inl (v, passed) ↦ (m, admit-Admitted x s a m admitted, passed)
      ]
]

finish-applied :
    (x : Extern) (s t : Inner) (a : Action) (applied deleted : Bool) (r : ApplyResult)
    → finish x s a applied deleted ≡ (ok r, t)
    → r.applied ≡ applied
unfolding finish
finish-applied x s t a applied deleted r h =
    let id = a.doc_id in
    let (u, s1, _, done) =
      then_with-eq-ok (if log_is_long s id then snapshot x s id else (ok tt, s)) _ h in
    let same : ok (record { applied = applied; doc_deleted = deleted }) ≡ ok r =
      ap (λ o. o.0) done in
    cc same

-- What the sync layer is handed by an action, on the queue and on the feed that publishes at once, and
-- the new high-water mark.
pub record Sent (s t : Inner) (a : Action) (r : ApplyResult) : Type 0 where
  pub outbound :
      t.outbound
      ≡ (if r.applied && (a.origin == s.origin) then s.outbound ++ a ∷ [] else s.outbound)
  pub feed : t.outbound_feed ≡ (
      if r.applied && (a.origin == s.origin)
      then s.outbound_feed ▷ (λ sent. some (sent ++ a ∷ []))
      else s.outbound_feed)
  pub ts_hint : t.ts_hint ≡ (if r.applied then max s.ts_hint a.ts else s.ts_hint)

publish-outbound :
    (s : Inner) (a : Action) (b : Bool)
    → (publish s a b).outbound
      ≡ (if b && (a.origin == s.origin) then s.outbound ++ a ∷ [] else s.outbound)
unfolding publish
publish-outbound s a b = ground arith

publish-feed :
    (s : Inner) (a : Action) (b : Bool)
    → (publish s a b).outbound_feed ≡ (
        if b && (a.origin == s.origin)
        then s.outbound_feed ▷ (λ sent. some (sent ++ a ∷ []))
        else s.outbound_feed)
unfolding publish
publish-feed s a b = ground arith

publish-ts_hint :
    (s : Inner) (a : Action) (b : Bool)
    → (publish s a b).ts_hint ≡ (if b then max s.ts_hint a.ts else s.ts_hint)
unfolding publish
publish-ts_hint s a true =
    if-keeps (λ t. t.ts_hint ≡ max s.ts_hint a.ts) (a.origin == s.origin) _ _ refl refl
publish-ts_hint s a false = refl

publish-writable :
    (s : Inner) (a : Action) (b : Bool) → (publish s a b).disk.writable ≡ s.disk.writable
unfolding publish
publish-writable s a true =
    if-keeps (λ t. t.disk.writable ≡ s.disk.writable) (a.origin == s.origin) _ _ refl refl
publish-writable s a false = refl

commit-Sent :
    (x : Extern) (s t : Inner) (m : Model) (a : Action) (r : ApplyResult)
    → commit x s m a ≡ (ok r, t)
    → Sent s t a r
unfolding commit
commit-Sent x s t m a r h =
    let (e, applied) = log_action (entry_or_new s a.doc_id) m a in
    let s1 = record s { entries = insert a.doc_id e s.entries } in
    let (u, s2, ordered, done) = then_with-eq-ok (reorder x s1 a.doc_id (out_of_order x s a)) _ h in
    let q2 : Quiet s s2 = subst (λ o. Quiet s o.1) ordered (logged-Quiet x s m a) in
    let kept = persist_action s2 a in
    let q3 : Quiet s kept = Quiet-trans s s2 kept q2 (persist-Quiet s2 a) in
    let sent = publish kept a applied in
    let q : Quiet sent t =
      subst (λ o. Quiet sent o.1) done (finish-Quiet x sent a applied e.deleted) in
    record {
      outbound =
          q.outbound
          ∙ publish-outbound kept a applied
          ∙ rw (finish-applied x sent t a applied e.deleted r done, q3.outbound, q3.origin) refl;
      feed =
          q.feed
          ∙ publish-feed kept a applied
          ∙ rw (finish-applied x sent t a applied e.deleted r done, q3.feed, q3.origin) refl;
      ts_hint =
          q.ts_hint
          ∙ publish-ts_hint kept a applied
          ∙ rw (finish-applied x sent t a applied e.deleted r done, q3.ts_hint) refl;
    }

finish-ok :
    (x : Extern) (s t : Inner) (a : Action) (applied deleted : Bool) (e : StoreError)
    → s.disk.writable ≡ true
    → finish x s a applied deleted ≡ (err e, t)
    → ⊥
unfolding finish snapshot snapshot_entry
finish-ok x s t a applied deleted e w h = elim (Bool-cases (log_is_long s a.doc_id)) [
  | inr short ↦ cc (ap (λ o. o.0) (rw (short, finish) at h))
  | inl long ↦
      let long_h = rw (long, finish) at h in
      elim (Option-cases (lookup a.doc_id s.entries)) [
        | inl absent ↦ cc (ap (λ o. o.0) (rw (absent, snapshot) at long_h))
        | inr (f, found) ↦ cc (ap (λ o. o.0) (rw (found, snapshot, w) at long_h))
      ]
]

commit_unsent :
    (x : Extern) (s t : Inner) (m : Model) (a : Action) (e : StoreError)
    → s.disk.writable ≡ true
    → commit x s m a ≡ (err e, t)
    → Quiet s t
unfolding commit
commit_unsent x s t m a e w h =
    let (f, applied) = log_action (entry_or_new s a.doc_id) m a in
    let s1 = record s { entries = insert a.doc_id f s.entries } in
    let late = out_of_order x s a in
    after f applied (reorder x s1 a.doc_id late) (logged-Quiet x s m a) h
  where
    after :
        (f : Entry) (applied : Bool) (o : Outcome (Unit {0}))
        → Quiet s o.1
        → then_with o
            (λ _ s2. finish x (publish (persist_action s2 a) a applied) a applied f.deleted)
          ≡ (err e, t)
        → Quiet s t
    after f applied (err q, s2) quiet g = subst (Quiet s) (ap (λ o. o.1) g) quiet
    after f applied (ok u, s2) quiet g =
        let kept = persist_action s2 a in
        let healthy : (publish kept a applied).disk.writable ≡ true =
          publish-writable kept a applied ∙ (persist-Quiet s2 a).writable ∙ quiet.writable ∙ w in
        absurd (finish-ok x (publish kept a applied) t a applied f.deleted e healthy g)

-- An accepted action is put on the outbound queue, and on the outbound feed where one is connected,
-- exactly when it changed something and is this node's own, so that what others sent is put on
-- neither; the high-water mark of timestamps rises to its timestamp when it changed something.
pub accepted-Sent :
    (x : Extern) (s t : Inner) (a : Action) (r : ApplyResult)
    → apply_action x s a ≡ (ok r, t)
    → Sent s t a r
unfolding apply_action apply_admitted
accepted-Sent x s t a r h = elim (result-cases (admit x s a)) [
  | inr (e, refused) ↦ absurd (cc (ap (λ o. o.0) (rw (refused, apply_action) at h)))
  | inl (m, admitted) ↦
      let go = rw (admitted, apply_action) at h in
      elim (result-cases (m.check_precondition (entry_or_new s a.doc_id).doc a)) [
        | inr (q, failed) ↦ absurd (cc (ap (λ o. o.0) (rw (failed, apply_admitted) at go)))
        | inl (v, passed) ↦ commit-Sent x s t m a r (rw (passed, apply_admitted) at go)
      ]
]

-- On a disk that can be written, an action that ends in an error sends nothing and leaves the
-- high-water mark where it was.
pub refused_unsent :
    (x : Extern) (s t : Inner) (a : Action) (e : StoreError)
    → s.disk.writable ≡ true
    → apply_action x s a ≡ (err e, t)
    → Quiet s t
unfolding apply_action apply_admitted quarantine
refused_unsent x s t a e w h = elim (result-cases (admit x s a)) [
  | inr (q, refused) ↦
      subst (Quiet s) (ap (λ o. o.1) (rw (refused, apply_action) at h))
        (quarantine-Quiet s s.entries)
  | inl (m, admitted) ↦
      let go = rw (admitted, apply_action) at h in
      elim (result-cases (m.check_precondition (entry_or_new s a.doc_id).doc a)) [
        | inr (q, failed) ↦
            subst (Quiet s) (ap (λ o. o.1) (rw (failed, apply_admitted) at go))
              (quarantine-Quiet s _)
        | inl (v, passed) ↦ commit_unsent x s t m a e w (rw (passed, apply_admitted) at go)
      ]
]
