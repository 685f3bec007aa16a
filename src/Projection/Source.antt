-- ===== src/Projection/Source.antt =====
-- What the projections of src/projection.rs leave alone: the documents that they read.
use ph_reactor.Base.{
  ℕ, not, if◌then◌else◌, ◌+◌, ◌≡◌, refl, ◌∙◌, String, false, Option, some, List, [], ◌∷◌, inl, inr,
  Option-cases,
}
use ph_reactor.Base.Eq.{◌==◌, string_eq, nat_eq}
use ph_reactor.Base.Map.{lookup, insert, contains_key}
use ph_reactor.Base.Result.{ok}
use ph_reactor.Json.{Value}
use ph_reactor.Doc.Data.{DocId, ModelRef, model_ref}
use ph_reactor.Action.{Extern, sign}
use ph_reactor.Store.State.{Inner, new_entry, DocChange}
use ph_reactor.Store.Apply.{apply_action, Outcome, entry_or_new, then_with}
use ph_reactor.Store.Apply.Keeps.{then_with-keeps, then-keeps, if-keeps}
use ph_reactor.Store.Apply.Frame.{
  Frame, Frame-refl, Frame-trans, insert-Frame, unseen, apply_action-Frame,
}
use ph_reactor.Store.Local.{
  next_ts, draft, build_action, build_and_apply, create_doc_in_space, valid_name, with_free_name,
}
use ph_reactor.Store.Read.{get_doc}
use ph_reactor.Package.{Projection}
use ph_reactor.Projection.{matches, target_name, payload, publish_one, run_one}

next_ts-Frame : (id : DocId) (s : Inner) (now : ℕ) → Frame id s (next_ts s now).0
unfolding next_ts
next_ts-Frame id s now = unseen id s (next_ts s now).0 refl refl refl refl refl refl

build_and_apply-Frame :
    (x : Extern) (s : Inner) (now : ℕ) (id : DocId) (model : ModelRef) (kind : String)
    (payload : Value)
    → Frame id s (build_and_apply x s now id model kind payload).1
unfolding build_and_apply build_action draft sign
build_and_apply-Frame x s now id model kind payload =
    let (a, s') = build_action x s now (entry_or_new s id) id model kind payload in
    then_with-keeps (Frame id s) (apply_action x s' a) (λ r s2. (ok a, s2))
      (Frame-trans id s s' (apply_action x s' a).1 (next_ts-Frame id s now)
        (apply_action-Frame x s' a))
      (λ r t kept. kept)

with_free_name-Frame :
    {A : Type 0} (id : DocId) (s : Inner) (name : String) (rest : Outcome A)
    → Frame id s rest.1
    → Frame id s (with_free_name s name rest).1
unfolding with_free_name
with_free_name-Frame id s name rest kept =
    then-keeps (Frame id s) (not (valid_name name)) _ _ (Frame-refl id s)
      (then-keeps (Frame id s) (contains_key name s.names) _ rest (Frame-refl id s) kept)

create_doc_in_space-Frame :
    (x : Extern) (s : Inner) (now : ℕ) (id : DocId) (name : String) (model : ModelRef)
    (payload : Value) (space : Option DocId)
    → Frame id s (create_doc_in_space x s now id name model payload space).1
unfolding create_doc_in_space
create_doc_in_space-Frame x s now id name model payload space =
    let e = record (new_entry id) { space = space } in
    let s1 = record s { entries = insert id e s.entries } in
    let built = build_and_apply x s1 now id model "init" payload in
    with_free_name-Frame id s name (then_with built λ a s2. (ok id, s2)) (
      then_with-keeps (Frame id s) built (λ a s2. (ok id, s2))
        (Frame-trans id s s1 built.1 (insert-Frame id s e)
          (build_and_apply-Frame x s1 now id model "init" payload))
        (λ a t kept. kept))

publish_one-Frame :
    (x : Extern) (s : Inner) (now : ℕ) (id : DocId) (p : Projection) (c : DocChange)
    → Frame id s (publish_one x s now id p c)
unfolding publish_one
publish_one-Frame x s now id p c = elim (Option-cases (get_doc s (target_name p c.name))) [
  | inr (d, published) ↦ rw (published, publish_one) (Frame-refl id s)
  | inl fresh ↦ elim (Option-cases (get_doc s p.into_)) [
    | inl absent ↦ rw (fresh, absent, publish_one) (Frame-refl id s)
    | inr (space, found) ↦
        rw (fresh, found, publish_one)
          (create_doc_in_space-Frame x s now id (target_name p c.name) (model_ref p.target "1")
            (payload p c (target_name p c.name)) (some space.id))
  ]
]

-- Whatever the projections of a package publish or fail to publish, a document whose id none of the
-- published ones is given keeps its entry, its snapshot and its log file, the document that changed
-- among them, and the pinned keys and the models stay.
pub run_one_keeps :
    (x : Extern) (fresh : ℕ → ℕ × DocId) (s : Inner) (projections : List Projection) (c : DocChange)
    (j : DocId)
    → ((n : ℕ) → ((fresh n).1 == j) ≡ false)
    → let t = run_one x fresh s projections c in
      (lookup j t.entries ≡ lookup j s.entries)
      × (lookup j t.disk.snaps ≡ lookup j s.disk.snaps)
      × (lookup j t.disk.alogs ≡ lookup j s.disk.alogs)
      × (t.known_keys ≡ s.known_keys)
      × (t.models ≡ s.models)
unfolding run_one
run_one_keeps x fresh s [] c j new = (refl, refl, refl, refl, refl)
run_one_keeps x fresh s (p ∷ projections) c j new =
    let id = (fresh 0).1 in
    let s1 = if matches p c then publish_one x s (fresh 0).0 id p c else s in
    let framed =
      if-keeps (Frame id s) (matches p c) _ s (publish_one-Frame x s (fresh 0).0 id p c)
        (Frame-refl id s) in
    let (entries, snaps, alogs, keys, models) =
      run_one_keeps x (λ n. fresh (n + 1)) s1 projections c j (λ n. new (n + 1)) in
    (
      entries ∙ framed.others j (new 0),
      snaps ∙ framed.snaps j (new 0),
      alogs ∙ framed.alogs j (new 0),
      keys ∙ framed.keys,
      models ∙ framed.models,
    )
