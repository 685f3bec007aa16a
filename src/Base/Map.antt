-- ===== src/Base/Map.antt =====
-- `BTreeMap` as an association list. `insert` writes in place, so the keys stay distinct; the
-- program reads a map by key, and in the places where it iterates the order does not matter.
use mathlib.Core.Path.{◌≡◌, refl}
use mathlib.Core.Bool.{Bool}
use mathlib.Core.Logic.{◌≢◌, inl, inr}
use mathlib.Core.List.{List, [], ◌∷◌}
use mathlib.Core.Option.{Option, none, some}
use native.Mathlib.Omega.{arith}
use ph_reactor.Base.Tests.{if◌then◌else◌, is_some, Bool-cases}
use ph_reactor.Base.Eq.{Eq, ◌==◌, ==_iff, ==_self}

abbrev pub Map {ℓ κ} : Type ℓ → Type κ → Type (ℓ ⊔ κ)
Map K V = List (K × V)

module _ {ℓ κ} {K : Type ℓ} {V : Type κ} ⦃e : Eq K⦄ where
  unfoldable pub lookup : K → Map K V → Option V
  lookup k [] = none
  lookup k ((j, v) ∷ m) = if j == k then some v else lookup k m

  unfoldable pub insert : K → V → Map K V → Map K V
  insert key v ((first, w) ∷ table) =
      let rest = insert key v table in if first == key then (key, v) ∷ table else (first, w) ∷ rest
  insert key v [] = (key, v) ∷ []

  unfoldable pub remove : K → Map K V → Map K V
  remove k [] = []
  remove k ((j, w) ∷ m) = let rest = remove k m in if j == k then rest else (j, w) ∷ rest

  abbrev pub contains_key : K → Map K V → Bool
  contains_key k m = is_some (lookup k m)

  pub lookup-nil : (j : K) → lookup j [] ≡ none
  unfolding lookup
  lookup-nil j = refl

  pub lookup-insert :
      (key asked : K) (v : V) (table : Map K V)
      → lookup asked (insert key v table) ≡ (if key == asked then some v else lookup asked table)
  unfolding insert lookup
  lookup-insert key asked v ((first, w) ∷ table) =
      let ih = lookup-insert key asked v table in
      ground (arith, ih, ==_iff first asked, ==_iff first key, ==_iff key asked)
  lookup-insert key asked v [] = refl

  pub lookup-remove :
      (k j : K) (m : Map K V) → lookup j (remove k m) ≡ (if k == j then none else lookup j m)
  unfolding lookup remove
  lookup-remove k j [] = ground arith
  lookup-remove k j ((i, w) ∷ m) =
      ground (arith, ==_iff k j, ==_iff i k, ==_iff i j, lookup-remove k j m)

  pub lookup-insert_self : (k : K) (v : V) (m : Map K V) → lookup k (insert k v m) ≡ some v
  lookup-insert_self k v m = rw lookup-insert (rw (==_self k) refl)

  pub lookup-insert_ne :
      (k j : K) (v : V) (m : Map K V) → k ≢ j → lookup j (insert k v m) ≡ lookup j m
  lookup-insert_ne k j v m h = rw lookup-insert (ground (arith, ==_iff k j))

  -- The keys of a `BTreeMap` are distinct.
  abbrev pub Distinct : Map K V → Type κ
  Distinct [] = Unit
  Distinct ((k, v) ∷ m) = (lookup k m ≡ none) × Distinct m

  pub insert-Distinct : (k : K) (v : V) (m : Map K V) → Distinct m → Distinct (insert k v m)
  unfolding insert lookup
  insert-Distinct k v [] d = (refl, tt)
  insert-Distinct k v ((j, w) ∷ m) d = elim (Bool-cases (j == k)) [
    | inl same ↦ rw same (rw (← (==_iff j k).0 same) d)
    | inr other ↦
        rw other
          (rw (lookup-insert k j v m) (ground (arith, ==_iff k j)), insert-Distinct k v m d.1)
  ]

pub ruleset map_laws = (lookup-nil, lookup-insert, lookup-remove)
