-- ===== src/Base/Text.antt =====
-- The order of Rust's `str`: by code points, which is the order of the UTF-8 bytes.
use Prim.Native.Nat.{Ordering}
use Prim.Native.String.compare
use Prim.Native.String.{String, [], ◌∷◌, compare}
use mathlib.Core.Path.{◌≡◌, refl, subst}
use mathlib.Core.Logic.{inl, inr}
use mathlib.Core.Bool.{Bool, true, false}
use native.Mathlib.Omega.{arith}
use text.Mathlib.TextEquality.{path_by_compare}
use text.Mathlib.TextPositions.{compare_refl}
use ph_reactor.Base.Tests.{Bool-cases}

-- `s < t`
unfoldable pub str_lt : String → String → Bool
str_lt s t = elim (compare s t) [ Ordering.lt ↦ true | _ ↦ false ]

compare-lt_trans :
    (s t u : String)
    → compare s t ≡ Ordering.lt
    → compare t u ≡ Ordering.lt
    → compare s u ≡ Ordering.lt
compare-lt_trans [] [] u h k = k
compare-lt_trans [] (d ∷ t) [] h k = cc (k, compare.cons-nil d t)
compare-lt_trans [] (d ∷ t) (x ∷ u) h k = compare.nil-cons x u
compare-lt_trans (c ∷ s) [] u h k = cc (h, compare.cons-nil c s)
compare-lt_trans (c ∷ s) (d ∷ t) [] h k = cc (k, compare.cons-nil d t)
compare-lt_trans (c ∷ s) (d ∷ t) (x ∷ u) h k = ground (
  arith,
  compare.cons-cons c d s t,
  compare.cons-cons d x t u,
  compare.cons-cons c x s u,
  compare-lt_trans s t u,
)

compare-gt : (s t : String) → compare s t ≡ Ordering.gt → compare t s ≡ Ordering.lt
compare-gt [] [] h = cc (h, compare_refl [])
compare-gt [] (d ∷ t) h = cc (h, compare.nil-cons d t)
compare-gt (c ∷ s) [] h = compare.nil-cons c s
compare-gt (c ∷ s) (d ∷ t) h =
    ground (arith, compare.cons-cons c d s t, compare.cons-cons d c t s, compare-gt s t)

pub str_lt_irrefl : (s : String) → str_lt s s ≡ false
unfolding str_lt
str_lt_irrefl s = ground (arith, compare_refl s)

pub str_lt_trans : (s t u : String) → str_lt s t ≡ true → str_lt t u ≡ true → str_lt s u ≡ true
unfolding str_lt
str_lt_trans s t u h k = ground (arith, compare-lt_trans s t u)

pub str_lt_total : (s t : String) → str_lt s t ≡ false → str_lt t s ≡ false → s ≡ t
unfolding str_lt
str_lt_total s t h k = ground (arith, path_by_compare s t, compare-gt s t)

str_lt_runs : str_lt "ab" "b" ≡ true
unfolding str_lt
str_lt_runs = refl

-- `t ≤ s` and `s < u` give `t < u`, where `t ≤ s` says that `s < t` fails.
pub str_lt_of_le_lt : (s t u : String) → str_lt s t ≡ false → str_lt s u ≡ true → str_lt t u ≡ true
str_lt_of_le_lt s t u h k = elim (Bool-cases (str_lt t s)) [
  | inl below ↦ str_lt_trans t s u below k
  | inr even ↦ subst (λ v. str_lt v u ≡ true) (str_lt_total s t h even) k
]
