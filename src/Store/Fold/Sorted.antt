-- ===== src/Store/Fold/Sorted.antt =====
-- Logs in canonical order.
use ph_reactor.Base.{
  ◌≡◌, false, Option, none, some, List, [], ◌∷◌, ◌++◌, last?, arith, Bool-cases, inl, inr,
}
use ph_reactor.Action.{Action, Extern}
use ph_reactor.Store.Fold.{canon_lt, insert_sorted, canon_sort}
use ph_reactor.Store.Fold.Canonical.{canon_lt_irrefl, canon_lt_trans}

-- `b` is not below the head of the log.
abbrev pub Leads : Extern → Action → List Action → Type 0
Leads x a [] = Unit
Leads x a (b ∷ log) = canon_lt x b a ≡ false

-- No action of the log is below the one before it.
abbrev pub Sorted : Extern → List Action → Type 0
Sorted x [] = Unit
Sorted x (a ∷ log) = Leads x a log × Sorted x log

insert-Leads :
    (x : Extern) (b a : Action) (log : List Action)
    → canon_lt x a b ≡ false
    → Leads x b log
    → Leads x b (insert_sorted x a log)
unfolding insert_sorted
insert-Leads x b a [] h l = h
insert-Leads x b a (c ∷ log) h l = elim (Bool-cases (canon_lt x c a)) [
  | inl later ↦ rw later l
  | inr here ↦ rw here h
]

insert-Sorted :
    (x : Extern) (a : Action) (log : List Action) → Sorted x log → Sorted x (insert_sorted x a log)
unfolding insert_sorted
insert-Sorted x a [] l = (tt, tt)
insert-Sorted x a (b ∷ log) l = elim (Bool-cases (canon_lt x b a)) [
  | inl later ↦ rw later (
    insert-Leads x b a log (ground (arith, canon_lt_irrefl x a, canon_lt_trans x a b a)) l.0,
    insert-Sorted x a log l.1,
  )
  | inr here ↦ rw here (here, l)
]

-- The sorted log is in canonical order, whatever order the actions arrived in.
pub canon_sort-Sorted : (x : Extern) (log : List Action) → Sorted x (canon_sort x log)
unfolding canon_sort
canon_sort-Sorted x [] = tt
canon_sort-Sorted x (a ∷ log) = insert-Sorted x a (canon_sort x log) (canon_sort-Sorted x log)

-- The last action, if any, is not above `a`.
abbrev pub Follows : Extern → Option Action → Action → Type 0
Follows x none a = Unit
Follows x (some b) a = canon_lt x a b ≡ false

append-Leads :
    (x : Extern) (b : Action) (log : List Action) (a : Action)
    → Leads x b log
    → Follows x (last? (b ∷ log)) a
    → Leads x b (log ++ a ∷ [])
append-Leads x b [] a l f = f
append-Leads x b (c ∷ log) a l f = l

pub append-Sorted :
    (x : Extern) (log : List Action) (a : Action)
    → Sorted x log
    → Follows x (last? log) a
    → Sorted x (log ++ a ∷ [])
append-Sorted x [] a l f = (tt, tt)
append-Sorted x (b ∷ []) a l f = (f, (tt, tt))
append-Sorted x (b ∷ c ∷ log) a l f = (l.0, append-Sorted x (c ∷ log) a l.1 f)
