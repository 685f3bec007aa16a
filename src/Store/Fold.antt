-- ===== src/Store/Fold.antt =====
-- Folding a log: the canonical order, `apply_ops_to_entry` and `refold`.
pub mod Canonical
pub mod Sorted
pub mod WellFormed
use ph_reactor.Base.{
  ℕ, ◌≡◌, String, Bool, true, false, Option, none, some, List, [], ◌∷◌, ◌++◌, ◌&&◌, ◌||◌, ltb, eqb,
  map, head?, unwrap_or, ◌▷◌, if◌then◌else◌,
}
use ph_reactor.Base.Eq.{Eq, ◌==◌, string_eq, nat_eq}
use ph_reactor.Base.Map.{Map, lookup, insert}
use ph_reactor.Base.Text.{str_lt}
use ph_reactor.Base.Result.{Result, ok, err, ◌>>=◌}
use ph_reactor.Doc.Data.{DocId, Doc, Op}
use ph_reactor.Doc.Clock.{VecClock}
use ph_reactor.Doc.Apply.{Target, ApplyResult, apply_op}
use ph_reactor.Action.{Action, Extern, action_hash}
use ph_reactor.Model.Interface.{Model}
use ph_reactor.Model.Registry.{find, ModelRegistry}
use ph_reactor.Store.State.{
  DocState, Entry, Inner, StoreError, model_unavailable, lift_name, base_entry,
}

-- `canon_key(a) < canon_key(b)`
unfoldable pub canon_lt : Extern → Action → Action → Bool
canon_lt x a b =
    ltb a.ts b.ts
    || (eqb a.ts b.ts
        && (str_lt a.origin b.origin
            || (a.origin == b.origin && ltb (action_hash x a) (action_hash x b))))

insert_sorted : Extern → Action → List Action → List Action
insert_sorted x a [] = a ∷ []
insert_sorted x a (b ∷ bs) =
    let later = b ∷ insert_sorted x a bs in if canon_lt x b a then later else a ∷ b ∷ bs

-- `log.sort_by_key(canon_key)`, a stable sort.
unfoldable pub canon_sort : Extern → List Action → List Action
unfolding insert_sorted
canon_sort x [] = []
canon_sort x (a ∷ rest) = insert_sorted x a (canon_sort x rest)

-- The operation with the action's identity.
unfoldable pub stamp : Action → Op → Op
stamp a op = record op {
  doc_id = a.doc_id;
  ts = a.ts;
  clock = a.clock;
  origin = a.origin;
  sig = a.sig;
}

-- The loop over the operations: the target, and whether any was applied.
unfoldable pub apply_each : Target → Bool → List Op → Target × Bool
apply_each t any [] = (t, any)
apply_each t any (op ∷ ops) = let (t', r) = apply_op t op in apply_each t' (any || r.applied) ops

abbrev pub target_of : Entry → Target
target_of e = record { doc = e.doc; clock = e.clock; deleted = e.deleted }

-- What a reduced action does to an entry.
unfoldable pub fold_ops : Entry → Action → List Op → Entry × Bool
unfolding stamp apply_each
fold_ops e a ops =
    let (t, any) = apply_each (target_of e) false (map (stamp a) ops) in
    (record e { doc = lift_name t.doc; clock = t.clock; deleted = t.deleted }, any)

-- The entry after the action, and whether anything was applied.
unfoldable pub apply_ops_to_entry : Entry → Model → Action → Entry × Bool
unfolding fold_ops
apply_ops_to_entry e model a = elim (model.reduce e.doc a) [
  | err r ↦ (e, false)
  | ok ops ↦ fold_ops e a ops
]

-- Every model, before the fold.
unfoldable pub resolve : ModelRegistry → List Action → Result StoreError (List (Action × Model))
resolve models [] = ok []
resolve models (a ∷ rest) =
    let later = resolve models rest in
    elim (find models a.model) [
      | none ↦ err (model_unavailable a.model.name)
      | some m ↦ later >>= λ pairs. ok ((a, m) ∷ pairs)
    ]

abbrev pub passes {ℓ} : {E A : Type ℓ} → Result E A → Bool
passes (ok v) = true
passes (err e) = false

-- One action at its canonical position: its precondition and authorization are checked there.
unfoldable pub fold_action : Entry → Action × Model → Entry
unfolding apply_ops_to_entry
fold_action e (a, m) =
    if passes (m.check_precondition e.doc a) && passes (m.authorize e.doc a)
    then record (apply_ops_to_entry e m a).0 { model = a.model }
    else e

unfoldable pub fold_log : Entry → List (Action × Model) → Entry
unfolding fold_action
fold_log e [] = e
fold_log e (p ∷ ps) = fold_log (fold_action e p) ps

unfoldable pub or_first : Option DocId → List Action → Option DocId
or_first (some s) log = some s
or_first none log = head? log ▷ λ a. a.space

-- The entry that a re-fold of `log` leaves, from the snapshot on disk.
unfoldable pub refold_entry : Extern → Inner → DocId → Entry → Result StoreError Entry
unfolding resolve fold_log or_first
refold_entry x s id e =
    let log = canon_sort x e.log in
    let base = base_entry id (lookup id s.disk.snaps) in
    do
      pairs ← resolve s.models log
      let folded = fold_log (record base { space = or_first base.space log }) pairs
      ok (record folded { clock = e.clock; log = log })

unfoldable pub refold : Extern → Inner → DocId → Result StoreError Inner
unfolding refold_entry
refold x s id = elim (lookup id s.entries) [
  | none ↦ ok s
  | some e ↦
      refold_entry x s id e >>= λ fresh. ok (record s { entries = insert id fresh s.entries })
]
