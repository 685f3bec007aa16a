-- ===== src/Store/Fold/Canonical.antt =====
-- The canonical order makes the fold a function of the set of actions: two nodes with the same
-- actions, in whatever order they arrived, fold them to the same entry.
use mathlib.Core.Logic.{∥∥₁_elim}
use mathlib.Core.List.{Perm, Permᴰ}
use text.Mathlib.TextEquality.{IsScalar-prop}
use ph_reactor.Base.{
  ◌≡◌, refl, sym, ◌∙◌, ap₂, subst, inl, inr, true, false, List, [], ◌∷◌, arith, All, Bool-cases,
}
use ph_reactor.Base.Eq.{==_iff, string_eq, nat_eq}
use ph_reactor.Base.Text.{str_lt_irrefl, str_lt_trans, str_lt_total}
use ph_reactor.Base.Map.{lookup}
use ph_reactor.Doc.Data.{DocId}
use ph_reactor.Action.{Action, Extern, action_hash}
use ph_reactor.Store.State.{Entry, Inner}
use ph_reactor.Store.Fold.{canon_lt, insert_sorted, canon_sort, refold_entry}

pub canon_lt_irrefl : (x : Extern) (a : Action) → canon_lt x a a ≡ false
unfolding canon_lt
canon_lt_irrefl x a = ground (arith, str_lt_irrefl a.origin)

pub canon_lt_trans :
    (x : Extern) (a b c : Action)
    → canon_lt x a b ≡ true
    → canon_lt x b c ≡ true
    → canon_lt x a c ≡ true
unfolding canon_lt
canon_lt_trans x a b c h k = ground (
  arith,
  str_lt_trans a.origin b.origin c.origin,
  ==_iff a.origin b.origin,
  ==_iff b.origin c.origin,
  ==_iff a.origin c.origin,
)

-- What is not below either way has one hash.
canon_lt_total :
    (x : Extern) (a b : Action)
    → canon_lt x a b ≡ false
    → canon_lt x b a ≡ false
    → action_hash x a ≡ action_hash x b
unfolding canon_lt
canon_lt_total x a b h k =
    ground
      (arith, str_lt_total a.origin b.origin, ==_iff a.origin b.origin, ==_iff b.origin a.origin)

module _ (x : Extern) (Logged : Action → Type 0)
    (apart : (a b : Action) → Logged a → Logged b → action_hash x a ≡ action_hash x b → a ≡ b) where
  le_lt :
      (a b c : Action)
      → Logged a
      → Logged b
      → canon_lt x a b ≡ false
      → canon_lt x a c ≡ true
      → canon_lt x b c ≡ true
  le_lt a b c la lb h k = elim (Bool-cases (canon_lt x b a)) [
    | inl below ↦ canon_lt_trans x b a c below k
    | inr even ↦
        subst (λ d. canon_lt x d c ≡ true) (apart a b la lb (canon_lt_total x a b h even)) k
  ]

  insert_comm_lt :
      (a b : Action) (log : List Action)
      → Logged a
      → Logged b
      → All Logged log
      → canon_lt x a b ≡ true
      → insert_sorted x a (insert_sorted x b log) ≡ insert_sorted x b (insert_sorted x a log)
  unfolding insert_sorted
  insert_comm_lt a b [] la lb l h = ground (arith, h, canon_lt_irrefl x a, canon_lt_trans x a b a h)
  insert_comm_lt a b (c ∷ log) la lb l h = ground (
    arith,
    h,
    insert_comm_lt a b log la lb l.1 h,
    canon_lt_irrefl x a,
    canon_lt_trans x a b a h,
    canon_lt_trans x c a b,
    le_lt c a b l.0 la,
  )

  insert_comm :
      (a b : Action) (log : List Action)
      → Logged a
      → Logged b
      → All Logged log
      → insert_sorted x a (insert_sorted x b log) ≡ insert_sorted x b (insert_sorted x a log)
  insert_comm a b log la lb l = elim (Bool-cases (canon_lt x a b)) [
    | inl below ↦ insert_comm_lt a b log la lb l below
    | inr not_below ↦ elim (Bool-cases (canon_lt x b a)) [
      | inl above ↦ sym (insert_comm_lt b a log lb la l above)
      | inr even ↦
          let same : a ≡ b = apart a b la lb (canon_lt_total x a b not_below even) in
          ap₂ (λ p q. insert_sorted x p (insert_sorted x q log)) same (sym same)
    ]
  ]

  insert-All :
      (a : Action) (log : List Action)
      → Logged a
      → All Logged log
      → All Logged (insert_sorted x a log)
  unfolding insert_sorted
  insert-All a [] la l = (la, tt)
  insert-All a (b ∷ log) la l = elim (Bool-cases (canon_lt x b a)) [
    | inl later ↦ rw later (l.0, insert-All a log la l.1)
    | inr here ↦ rw here (la, l)
  ]

  sort-All : (log : List Action) → All Logged log → All Logged (canon_sort x log)
  unfolding canon_sort
  sort-All [] l = tt
  sort-All (a ∷ log) l = insert-All a (canon_sort x log) l.0 (sort-All log l.1)

  sort_permᴰ :
      {l₁ l₂ : List Action}
      → Permᴰ l₁ l₂
      → All Logged l₁
      → (canon_sort x l₁ ≡ canon_sort x l₂) × All Logged l₂
  unfolding canon_sort
  sort_permᴰ Permᴰ.nil l = (refl, tt)
  sort_permᴰ (Permᴰ.cons e p) l =
      let (same, rest) = sort_permᴰ p l.1 in
      (ap₂ (insert_sorted x) e same, (subst Logged e l.0, rest))
  sort_permᴰ (Permᴰ.swap {a} {b} {l = log} e f) l = (
    insert_comm a b (canon_sort x log) l.0 l.1.0 (sort-All log l.1.1)
        ∙ ap₂ (λ p q. insert_sorted x p (insert_sorted x q (canon_sort x log))) f e,
    (subst Logged f l.1.0, (subst Logged e l.0, l.1.1)),
  )
  sort_permᴰ (Permᴰ.trans p q) l =
      let (first, lm) = sort_permᴰ p l in let (second, lz) = sort_permᴰ q lm in (first ∙ second, lz)

Action-set : IsSet (List Action)
Action-set = hlevel IsScalar-prop

-- Two nodes that hold the same actions of a document, in whatever order they arrived, with the same
-- snapshot, the same models and the same clock, re-fold to the same entry or to the same error. The
-- hashes of the actions that may be logged are taken to be without collision.
pub refold_same :
    (x : Extern) (s t : Inner) (id : DocId) (e f : Entry) (Logged : Action → Type 0)
    → ((a b : Action) → Logged a → Logged b → action_hash x a ≡ action_hash x b → a ≡ b)
    → All Logged e.log
    → Perm e.log f.log
    → s.models ≡ t.models
    → lookup id s.disk.snaps ≡ lookup id t.disk.snaps
    → e.clock ≡ f.clock
    → refold_entry x s id e ≡ refold_entry x t id f
unfolding refold_entry
refold_same x s t id e f Logged apart l p models snaps clock =
    let sorted : canon_sort x e.log ≡ canon_sort x f.log =
      ∥∥₁_elim p (Action-set _ _) (λ q. (sort_permᴰ x Logged apart q l).0) in
    rw (sorted, snaps, clock, models)
