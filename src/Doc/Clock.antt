-- ===== src/Doc/Clock.antt =====
-- `VecClock` of src/doc.rs. A counter is a `u64`, whose increment wraps.
pub mod Laws
use ph_reactor.Base.{
  ℕ, ◌+◌, ◌%◌, ◌^◌, ◌≡◌, refl, String, Bool, Option, none, some, List, [], ◌∷◌, max, leb, ltb, all,
  keep, length, is_empty, unwrap_or, map, if◌then◌else◌, arith,
}
use ph_reactor.Base.Eq.{Eq, string_eq}
use ph_reactor.Base.Map.{Map, lookup, insert}

abbrev pub Origin : Type 0
Origin = String

abbrev pub VecClock : Type 0
VecClock = Map Origin ℕ

abbrev pub u64 : ℕ → ℕ
u64 n = n % 2 ^ 64

unfoldable pub clock_get : VecClock → Origin → ℕ
clock_get c origin = unwrap_or 0 (lookup origin c)

-- The clock after `tick`, and the new sequence number.
unfoldable pub tick : VecClock → Origin → VecClock × ℕ
unfolding clock_get
tick c origin = let n = u64 (clock_get c origin + 1) in (insert origin n c, n)

unfoldable pub merge_entry : VecClock → Origin → ℕ → VecClock
merge_entry c k v = elim (lookup k c) [ some n ↦ insert k (max n v) c | none ↦ insert k v c ]

unfoldable pub merge : VecClock → VecClock → VecClock
merge c [] = c
merge c ((k, v) ∷ other) = merge (merge_entry c k v) other

unfoldable pub covers : VecClock → VecClock → Bool
unfolding clock_get
covers c other = all (λ entry. leb entry.1 (clock_get c entry.0)) other

-- Entries of `other` that exceed `c`.
pub gaps : VecClock → VecClock → List (Origin × ℕ)
unfolding clock_get
gaps c other = keep (λ entry. ltb (clock_get c entry.0) entry.1) other

-- Zero counts are dropped.
pub from_pairs : List (Origin × ℕ) → VecClock
from_pairs pairs = go [] pairs
  where
    go : VecClock → List (Origin × ℕ) → VecClock
    go c [] = c
    go c ((o, n) ∷ rest) = go (if ltb 0 n then insert o n c else c) rest
