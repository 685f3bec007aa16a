-- ===== src/Doc/Clock/Laws.antt =====
-- Vector clocks as functions from origins to counters: `merge` is the pointwise maximum and
-- `covers` the pointwise order.
use ph_reactor.Base.{
  ℕ, ◌+◌, ◌<◌, ◌≤◌, ◌^◌, ◌≡◌, refl, ◌↔◌, true, [], ◌∷◌, max, leb, leb→le, le→leb, Option-cases,
  &&-eq-true, if◌then◌else◌, arith, inl, inr,
}
use ph_reactor.Base.Eq.{◌==◌, ==_iff, ==_self, string_eq}
use ph_reactor.Base.Map.{lookup, insert, lookup-insert, Distinct, insert-Distinct}
use ph_reactor.Doc.Clock.{Origin, VecClock, u64, clock_get, tick, merge, merge_entry, covers, gaps}

get-insert :
    (c : VecClock) (k o : Origin) (n : ℕ)
    → clock_get (insert k n c) o ≡ (if k == o then n else clock_get c o)
unfolding clock_get
get-insert c k o n = rw lookup-insert (ground arith)

get-cons :
    (c : VecClock) (k o : Origin) (n : ℕ)
    → clock_get ((k, n) ∷ c) o ≡ (if k == o then n else clock_get c o)
unfolding clock_get lookup
get-cons c k o n = ground arith

get-merge_entry :
    (c : VecClock) (k o : Origin) (v : ℕ)
    → clock_get (merge_entry c k v) o ≡ (if k == o then max (clock_get c k) v else clock_get c o)
unfolding merge_entry clock_get
get-merge_entry c k o v = elim (Option-cases (lookup k c)) [
  | inl unseen ↦ rw (unseen, merge_entry) (rw lookup-insert (ground arith))
  | inr (n, seen) ↦ rw (seen, merge_entry) (rw lookup-insert (ground arith))
]

-- With distinct origins in `other`, each counter of the merged clock is the larger of the two.
pub get-merge :
    (c other : VecClock) (o : Origin)
    → Distinct other
    → clock_get (merge c other) o ≡ max (clock_get c o) (clock_get other o)
unfolding merge
get-merge c [] o d = unfold clock_get lookup in omega arith
get-merge c ((k, v) ∷ other) o d =
    rw (get-merge (merge_entry c k v) other o d.1, get-merge_entry c k o v, get-cons other k o v)
      (unfold clock_get in ground (arith, ==_iff k o, d.0))

merge_entry-Distinct :
    (c : VecClock) (k : Origin) (v : ℕ) → Distinct c → Distinct (merge_entry c k v)
unfolding merge_entry
merge_entry-Distinct c k v d = elim (Option-cases (lookup k c)) [
  | inl e ↦ rw (e, merge_entry) (insert-Distinct k v c d)
  | inr (n, e) ↦ rw (e, merge_entry) (insert-Distinct k (max n v) c d)
]

pub merge-Distinct : (c other : VecClock) → Distinct c → Distinct (merge c other)
unfolding merge
merge-Distinct c [] d = d
merge-Distinct c ((k, v) ∷ other) d =
    merge-Distinct (merge_entry c k v) other (merge_entry-Distinct c k v d)

-- A clock that covers another is at or above it at every origin.
pub get-le_of_covers :
    (c other : VecClock) (o : Origin) → covers c other ≡ true → clock_get other o ≤ clock_get c o
unfolding covers
get-le_of_covers c [] o h = unfold clock_get lookup in omega arith
get-le_of_covers c ((k, v) ∷ other) o h =
    let (first, rest) = &&-eq-true (leb v (clock_get c k)) (covers c other) h in
    rw get-cons
      (ground (arith, leb→le v (clock_get c k) first, get-le_of_covers c other o rest, ==_iff k o))

pub covers_of_le :
    (c other : VecClock)
    → Distinct other
    → ((o : Origin) → clock_get other o ≤ clock_get c o)
    → covers c other ≡ true
unfolding covers
covers_of_le c [] d h = refl
covers_of_le c ((k, v) ∷ other) d h =
    rw (le→leb v (clock_get c k) first) (covers_of_le c other d.1 rest)
  where
    first : v ≤ clock_get c k
    first = ground (arith, h k, get-cons other k k v, ==_self k)

    rest : (o : Origin) → clock_get other o ≤ clock_get c o
    rest o = unfold clock_get in ground (arith, h o, get-cons other k o v, ==_iff k o, d.0)

pub covers_self : (c : VecClock) → Distinct c → covers c c ≡ true
covers_self c d = covers_of_le c c d (λ o. omega arith)

pub covers_trans :
    (a b c : VecClock) → Distinct c → covers a b ≡ true → covers b c ≡ true → covers a c ≡ true
covers_trans a b c d h k =
    covers_of_le a c d λ o. omega (arith, get-le_of_covers a b o h, get-le_of_covers b c o k)

-- The merged clock is the least clock that covers both.
pub merge_least :
    (a b : VecClock)
    → Distinct a
    → Distinct b
    → (covers (merge a b) a ≡ true)
      × (covers (merge a b) b ≡ true)
      × ((c : VecClock) → covers c a ≡ true → covers c b ≡ true → covers c (merge a b) ≡ true)
merge_least a b da db = (
  covers_of_le (merge a b) a da λ o. omega (arith, get-merge a b o db),
  covers_of_le (merge a b) b db λ o. omega (arith, get-merge a b o db),
  λ c ha hb.
      covers_of_le c (merge a b) (merge-Distinct a b da) λ o.
        omega (arith, get-merge a b o db, get-le_of_covers c a o ha, get-le_of_covers c b o hb),
)

-- `gaps` reports nothing exactly when the clock covers the other one.
gaps-covers : (c other : VecClock) → (gaps c other ≡ []) ↔ (covers c other ≡ true)
unfolding gaps covers
gaps-covers c [] = (λ h. refl, λ h. refl)
gaps-covers c ((k, v) ∷ other) = ground (arith, gaps-covers c other)

-- A tick adds one to its own counter, up to the wrap, returns it, and leaves the others.
pub tick_lem :
    (c : VecClock) (me o : Origin)
    → clock_get c me + 1 < 2 ^ 64
    → ((tick c me).1 ≡ clock_get c me + 1)
      × (clock_get (tick c me).0 o ≡ (if me == o then clock_get c me + 1 else clock_get c o))
unfolding tick
tick_lem c me o h =
    let small : u64 (clock_get c me + 1) ≡ clock_get c me + 1 = omega arith in
    (small, rw get-insert (unfold clock_get in rw small refl))
