-- ===== src/Tests/Docs.antt =====
-- Concurrent writes in two orders, and clocks.
use mathlib.Core.List.Perm
use ph_reactor.Base.{
  ℕ, ◌≡◌, ◌↔◌, ◌∙◌, refl, sym, subst, ◌⊎◌, inl, inr, String, true, false, some, [], ◌∷◌,
}
use ph_reactor.Base.Eq.{string_eq}
use ph_reactor.Base.Map.{lookup}
use ph_reactor.Json.{str, value_eq, value_eq_iff}
use ph_reactor.Doc.Clock.{VecClock, clock_get, merge, covers}
use ph_reactor.Doc.Clock.Laws.{merge_least}
use ph_reactor.Doc.Data.{Field, Op, field_from_op}
use ph_reactor.Doc.Apply.{Target, newer}
use ph_reactor.Doc.Merge.Order.{Compat}
use ph_reactor.Doc.Merge.View.{view, run, apply_ops, view-run}
use ph_reactor.Doc.Merge.Converge.{converge}
use ph_reactor.Tests.Fixture.{empty_doc, note}

-- The writes of a field that may meet: one of each of two nodes.
set : String → ℕ → VecClock → String → Op
set origin ts clock title = record {
  doc_id = note;
  key = some "title";
  value = some (str title);
  ts = ts;
  clock = clock;
  origin = origin;
  sig = [];
}

ours : Op
ours = set "alice" 5 (("alice", 1) ∷ []) "draft"

theirs : Op
theirs = set "bob" 6 (("bob", 1) ∷ []) "final"

Write : String → Field → Type 0
Write k f = (f ≡ field_from_op ours) ⊎ (f ≡ field_from_op theirs)

Present : String → Type 0
Present k = ⊥

start : Target
start = record { doc = empty_doc; clock = []; deleted = false }

later : Compat (field_from_op ours) (field_from_op theirs)
unfolding field_from_op ours theirs set newer covers clock_get lookup
later = inr (inr (refl, refl))

sooner : Compat (field_from_op theirs) (field_from_op ours)
unfolding field_from_op ours theirs set newer covers clock_get lookup
sooner = inr (inl (refl, refl))

compat : (k : String) (f g : Field) → Write k f → Write k g → Compat f g
unfolding Write
compat k f g (inl p) (inl q) = inl (p ∙ sym q)
compat k f g (inr p) (inr q) = inl (p ∙ sym q)
compat k f g (inl p) (inr q) =
    subst (λ w. Compat w g) (sym p) (subst (Compat (field_from_op ours)) (sym q) later)
compat k f g (inr p) (inl q) =
    subst (λ w. Compat w g) (sym p) (subst (Compat (field_from_op theirs)) (sym q) sooner)

converge_example :
    view (apply_ops start (ours ∷ theirs ∷ [])) ≡ view (apply_ops start (theirs ∷ ours ∷ []))
unfolding Write Present start ours theirs set view lookup
converge_example =
    converge Write Present compat start (ours ∷ theirs ∷ []) (theirs ∷ ours ∷ [])
      (Perm.swap theirs ours [])
      (record { written = λ k f h. absurd (cc h); kept = λ k h. absurd h })
      (((inl refl, inl refl), (refl, tt)), (((inr refl, inl refl), (refl, tt)), tt))
      ((refl, tt), ((refl, tt), tt))

view-run_example :
    view (apply_ops start (ours ∷ theirs ∷ [])) ≡ run (view start) (ours ∷ theirs ∷ [])
unfolding start ours theirs set lookup
view-run_example = view-run start (ours ∷ theirs ∷ []) ((refl, tt), ((refl, tt), tt))

one : VecClock
one = ("alice", 2) ∷ ("bob", 1) ∷ []

two : VecClock
two = ("bob", 3) ∷ []

merge_least_example :
    (covers (merge one two) one ≡ true)
    × (covers (merge one two) two ≡ true)
    × ((c : VecClock) → covers c one ≡ true → covers c two ≡ true → covers c (merge one two) ≡ true)
unfolding one two lookup
merge_least_example = merge_least one two (refl, (refl, tt)) (refl, tt)

value_eq_iff_example : (value_eq (str "a") (str "b") ≡ true) ↔ (str "a" ≡ str "b")
value_eq_iff_example = value_eq_iff (str "a") (str "b")
