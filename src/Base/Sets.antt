-- ===== src/Base/Sets.antt =====
-- `HashSet` as a list without repetitions.
use mathlib.Core.Path.{◌≡◌, refl, ap}
use mathlib.Core.Logic.{inl, inr}
use mathlib.Core.Bool.{Bool, false, ◌||◌, not}
use mathlib.Core.List.{List, [], ◌∷◌}
use native.Mathlib.Omega.{arith}
use ph_reactor.Base.Tests.{if◌then◌else◌, Bool-cases}
use ph_reactor.Base.Lists.{any, keep}
use ph_reactor.Base.Eq.{Eq, ◌==◌, ==_iff}

module _ {ℓ} {A : Type ℓ} ⦃e : Eq A⦄ where
  unfoldable pub contains : A → List A → Bool
  contains a xs = any (λ x. x == a) xs

  unfoldable pub set_insert : A → List A → List A
  unfolding contains
  set_insert a xs = if contains a xs then xs else a ∷ xs

  unfoldable pub set_remove : A → List A → List A
  set_remove a xs = keep (λ x. not (x == a)) xs

  pub contains-set_insert :
      (a b : A) (xs : List A) → contains b (set_insert a xs) ≡ (a == b || contains b xs)
  unfolding contains set_insert
  contains-set_insert a b xs = elim (Bool-cases (any (λ x. x == a) xs)) [
    | inl old ↦
        rw old (ground (arith, ==_iff a b, (λ (q : a ≡ b). ap (λ z. any (λ x. x == z) xs) q)))
    | inr new ↦ rw new refl
  ]

  pub contains-set_remove :
      (a b : A) (xs : List A)
      → contains b (set_remove a xs) ≡ (if a == b then false else contains b xs)
  unfolding contains set_remove
  contains-set_remove a b [] = ground arith
  contains-set_remove a b (x ∷ xs) =
      ground (arith, contains-set_remove a b xs, ==_iff a b, ==_iff x a, ==_iff x b)
