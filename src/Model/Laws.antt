-- ===== src/Model/Laws.antt =====
-- What the models promise: which operations they reduce to, who passes, and what the registry finds.
use ph_reactor.Base.{
  ◌≡◌, refl, sym, ◌∙◌, ap, subst, ◌↔◌, inl, inr, String, true, Option, none, some, List, [], ◌∷◌,
  is_some, unwrap_or, All, arith, if◌then◌else◌, Bool-cases, Option-cases,
}
use ph_reactor.Base.Eq.{◌==◌, ==_iff, string_eq, nat_eq, pair_eq}
use ph_reactor.Base.Map.{lookup, lookup-insert}
use ph_reactor.Base.Result.{ok, >>=-eq-ok}
use ph_reactor.Json.{Value, get, as_object, object}
use ph_reactor.Doc.Data.{Doc, ModelRef, Op, Hash32}
use ph_reactor.Action.{Action, Extern}
use ph_reactor.Model.Interface.{Model}
use ph_reactor.Model.L1.State.{in_list, is_quorum, is_space_member, string_arg}
use ph_reactor.Model.L1.Eval.{write_value, eval_precond, precond_form}
use ph_reactor.Model.L1.Interpreter.{
  L1, from_def, get_or_null, reduce, reduce_writes, write_op, check_precondition,
}
use ph_reactor.Model.Builtin.Space.{space_def}
use ph_reactor.Model.Registry.{ModelRegistry, find, hash_is, insert_model}

-- The operation sets a field, under the action's own identity.
pub record Writes (a : Action) (op : Op) : Type 0 where
  pub key : is_some op.key ≡ true
  pub value : is_some op.value ≡ true
  pub doc_id : op.doc_id ≡ a.doc_id
  pub ts : op.ts ≡ a.ts
  pub clock : op.clock ≡ a.clock
  pub origin : op.origin ≡ a.origin
  pub sig : op.sig ≡ a.sig

writes_lem :
    (state : Doc) (a : Action) (ws : List (String × Value)) (ops : List Op)
    → reduce_writes state a ws ≡ ok ops
    → All (Writes a) ops
unfolding reduce_writes
writes_lem state a [] ops h = let same : [] ≡ ops = cc h in subst (All (Writes a)) same tt
writes_lem state a ((field, w) ∷ ws) ops h =
    let (value, _, r1) = >>=-eq-ok (write_value state a field w) _ h in
    let (rest, later, r2) = >>=-eq-ok (reduce_writes state a ws) _ r1 in
    let same : write_op a field value ∷ rest ≡ ops = cc r2 in
    let first : Writes a (write_op a field value) = record {
      key = refl;
      value = refl;
      doc_id = refl;
      ts = refl;
      clock = refl;
      origin = refl;
      sig = refl;
    } in
    subst (All (Writes a)) same (first, writes_lem state a ws rest later)

-- Whatever its definition says, an interpreted model reduces an action only to writes of field
-- values under the action's own timestamp, clock, origin and signature: it never deletes a field and
-- never deletes a document.
pub reduce-Writes :
    (m : L1) (state : Doc) (a : Action) (ops : List Op)
    → reduce m state a ≡ ok ops
    → All (Writes a) ops
unfolding reduce
reduce-Writes m state a ops h = elim (Option-cases (get m.reducers a.kind)) [
  | inl absent ↦ absurd (cc (rw (absent, reduce) at h))
  | inr (r, found) ↦
      writes_lem state a (unwrap_or [] (as_object (get_or_null r "writes"))) ops
        (rw (found, reduce) at h)
]

-- A model that was inserted under its own name and version.
abbrev pub Keyed : ModelRegistry → Type 0
Keyed r =
    (name version : String) (m : Model)
    → lookup (name, version) r ≡ some m
    → (m.ref_.name ≡ name) × (m.ref_.version ≡ version)

pub insert_model-Keyed : (r : ModelRegistry) (m : Model) → Keyed r → Keyed (insert_model m r)
unfolding insert_model
insert_model-Keyed r m k name version n h =
    let own : String × String = (m.ref_.name, m.ref_.version) in
    let asked : String × String = (name, version) in
    let found : (if own == asked then some m else lookup asked r) ≡ some n =
      sym (lookup-insert own asked m r) ∙ h in
    elim (Bool-cases (own == asked)) [
      | inl here ↦
          let same : m ≡ n = cc (rw here at found) in
          let pairs : own ≡ asked = (==_iff own asked).0 here in
          (
            ap (λ (q : Model). q.ref_.name) (sym same) ∙ ap (λ p. p.0) pairs,
            ap (λ (q : Model). q.ref_.version) (sym same) ∙ ap (λ p. p.1) pairs,
          )
      | inr other ↦ k name version n (rw other at found)
    ]

pinned :
    (o : Option Hash32) (n m : Model)
    → elim o [ none ↦ some n | some want ↦ if hash_is want n.ref_.hash then some n else none ]
      ≡ some m
    → (n ≡ m) × ((h : Hash32) → o ≡ some h → n.ref_.hash ≡ some h)
unfolding hash_is
pinned none n m h = (cc h, λ k e. absurd (cc e))
pinned (some want) n m h = elim (Bool-cases (hash_is want n.ref_.hash)) [
  | inr differs ↦ absurd (cc (rw differs at h))
  | inl same ↦ (
    cc (rw same at h),
    λ k e. hashed n.ref_.hash k (subst (λ w. hash_is w n.ref_.hash ≡ true) (cc e) same),
  )
]
  where
    hashed : (o : Option Hash32) (k : Hash32) → hash_is k o ≡ true → o ≡ some k
    hashed none k e = absurd (cc e)
    hashed (some g) k e = ap some ((==_iff g k).0 e)

-- In a registry whose models stand under their own names, a reference finds a model of the name and
-- version it asks for, and one that pins a hash finds only the model of that hash.
pub find_pinned :
    (r : ModelRegistry) (ref_ : ModelRef) (m : Model)
    → Keyed r
    → find r ref_ ≡ some m
    → (m.ref_.name ≡ ref_.name)
      × (m.ref_.version ≡ ref_.version)
      × ((h : Hash32) → ref_.hash ≡ some h → m.ref_.hash ≡ some h)
unfolding find hash_is
find_pinned r ref_ m k h = elim (Option-cases (lookup (ref_.name, ref_.version) r)) [
  | inl absent ↦ absurd (cc (rw absent at h))
  | inr (n, found) ↦
      let (same, hashed) = pinned ref_.hash n m (rw found at h) in
      let (named, versioned) = k ref_.name ref_.version n found in
      subst
        (λ (q : Model).
          (q.ref_.name ≡ ref_.name)
          × (q.ref_.version ≡ ref_.version)
          × ((g : Hash32) → ref_.hash ≡ some g → q.ref_.hash ≡ some g))
        same (named, versioned, hashed)
]

from_def-reducers :
    (x : Extern) (def : Value) (m : L1)
    → from_def x def ≡ ok m
    → m.reducers ≡ get_or_null def "reducers"
unfolding from_def
from_def-reducers x def m h = ground arith

-- In a space, exactly the managers pass the precondition of `add-member`.
pub add_member_iff :
    (x : Extern) (m : L1) (d : Doc) (a : Action)
    → from_def x space_def ≡ ok m
    → a.kind ≡ "add-member"
    → check_precondition m d a ≡ ok tt ↔ in_list d "managers" a.origin ≡ true
unfolding check_precondition space_def eval_precond precond_form is_quorum is_space_member
    string_arg object
add_member_iff x m d a loaded kind =
    rw (check_precondition, from_def-reducers x space_def m loaded, kind) (ground arith)
