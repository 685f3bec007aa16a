-- ===== src/Doc/Merge/View.antt =====
-- What a document shows: a field for each name, a counter for each origin, and the deletion flag.
-- `apply_op` is a step on views.
use ph_reactor.Base.{
  ℕ, ◌≡◌, refl, max, String, Bool, true, false, Option, none, some, List, [], ◌∷◌, ◌||◌, arith,
  if◌then◌else◌, All, ◌∙◌, ap, Bool-cases, inl, inr,
}
use ph_reactor.Base.Eq.{◌==◌, ==_iff, string_eq}
use ph_reactor.Base.Map.{lookup, lookup-insert, lookup-insert_self, lookup-nil, Distinct}
use ph_reactor.Doc.Clock.{Origin, clock_get, merge}
use ph_reactor.Doc.Clock.Laws.{get-merge}
use ph_reactor.Doc.Data.{Field, Op, field_from_op}
use ph_reactor.Doc.Apply.{Target, apply_op, apply_live, write_field}
use ph_reactor.Doc.Merge.Order.{cell}

pub record View : Type 0 where
  pub field : String → Option Field
  pub count : Origin → ℕ
  pub deleted : Bool

unfoldable pub view : Target → View
view t = record {
  field = λ k. lookup k t.doc.fields;
  count = clock_get t.clock;
  deleted = t.deleted;
}

abbrev pub is_none : Option String → Bool
is_none none = true
is_none (some k) = false

-- A field of a live document after an operation on key `key`.
abbrev pub field_live : Option String → (String → Option Field) → Op → String → Option Field
field_live none fields op j = none
field_live (some k) fields op j = if k == j then cell (fields j) op else fields j

abbrev pub field_at : Option String → View → Op → String → Option Field
field_at key v op j = if v.deleted then v.field j else field_live key v.field op j

abbrev pub step : View → Op → View
step v op = record {
  field = field_at op.key v op;
  count = λ o. max (v.count o) (clock_get op.clock o);
  deleted = v.deleted || is_none op.key;
}

abbrev pub run : View → List Op → View
run v [] = v
run v (op ∷ ops) = run (step v op) ops

pub View-path :
    (v w : View)
    → ((k : String) → v.field k ≡ w.field k)
    → ((o : Origin) → v.count o ≡ w.count o)
    → v.deleted ≡ w.deleted
    → v ≡ w
View-path v w f c d = λ i. record { field = λ k. f k i; count = λ o. c o i; deleted = d i }

field-write :
    (t : Target) (k : String) (op : Op) (j : String)
    → lookup j (write_field t k op).0.doc.fields
      ≡ (if k == j then cell (lookup j t.doc.fields) op else lookup j t.doc.fields)
unfolding write_field cell
field-write t k op j = elim (Bool-cases (k == j)) [
  | inl same ↦ rw same (
      rw (← (==_iff k j).0 same)
        (ground (arith, lookup-insert_self k (field_from_op op) t.doc.fields)))
  | inr other ↦
      rw other (ground (arith, ==_iff k j, lookup-insert k j (field_from_op op) t.doc.fields))
]

field-apply_live :
    (t : Target) (key : Option String) (op : Op) (j : String)
    → lookup j (apply_live t key op).0.doc.fields ≡ field_live key (λ k. lookup k t.doc.fields) op j
unfolding apply_live
field-apply_live t none op j = lookup-nil j
field-apply_live t (some k) op j = field-write t k op j

field-apply_op :
    (t : Target) (op : Op) (j : String)
    → lookup j (apply_op t op).0.doc.fields ≡ field_at op.key (view t) op j
unfolding apply_op view
field-apply_op t op j = elim (Bool-cases t.deleted) [
  | inl dead ↦ rw dead
  | inr alive ↦ rw alive (
      field-apply_live (record { doc = t.doc; clock = merge t.clock op.clock; deleted = false })
        op.key op j)
]

clock-apply_op : (t : Target) (op : Op) → (apply_op t op).0.clock ≡ merge t.clock op.clock
unfolding apply_op apply_live write_field
clock-apply_op t op = ground arith

deleted-apply_op :
    (t : Target) (op : Op) → (apply_op t op).0.deleted ≡ (t.deleted || is_none op.key)
unfolding apply_op apply_live write_field
deleted-apply_op t op = ground arith

-- `apply_op` shows what `step` says.
pub view-apply_op :
    (t : Target) (op : Op) → Distinct op.clock → view (apply_op t op).0 ≡ step (view t) op
unfolding view
view-apply_op t op d =
    View-path _ _ (field-apply_op t op)
      (λ o. rw (clock-apply_op t op) (get-merge t.clock op.clock o d)) (deleted-apply_op t op)

-- The loop over the operations of an action, or of a log.
unfoldable pub apply_ops : Target → List Op → Target
apply_ops t [] = t
apply_ops t (op ∷ ops) = apply_ops (apply_op t op).0 ops

-- Applying operations one after another shows what the steps on views show: for each field the last
-- write that was taken, for each origin the highest counter, and whether a delete of the document was
-- among them. The operations' clocks name no origin twice.
pub view-run :
    (t : Target) (ops : List Op)
    → All (λ op. Distinct op.clock) ops
    → view (apply_ops t ops) ≡ run (view t) ops
unfolding apply_ops
view-run t [] d = refl
view-run t (op ∷ ops) d =
    view-run (apply_op t op).0 ops d.1 ∙ ap (λ v. run v ops) (view-apply_op t op d.0)
