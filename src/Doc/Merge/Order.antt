-- ===== src/Doc/Merge/Order.antt =====
-- Writes of one field are ordered by timestamp and origin; the later of two wins, whichever comes
-- first.
use ph_reactor.Base.{
  ℕ, ◌≡◌, ◌⊎◌, inl, inr, Bool, true, false, Bool-cases, Option, none, some, arith, if◌then◌else◌,
  is_some,
}
use ph_reactor.Base.Text.{str_lt_irrefl, str_lt_trans}
use ph_reactor.Doc.Clock.{Origin, covers}
use ph_reactor.Doc.Data.{Field, Op, field_from_op}
use ph_reactor.Doc.Apply.{newer, changes}

newer_irrefl : (t : ℕ) (o : Origin) → newer t o t o ≡ false
unfolding newer
newer_irrefl t o = ground (arith, str_lt_irrefl o)

newer_trans :
    (t u v : ℕ) (o p q : Origin)
    → newer t o u p ≡ true
    → newer u p v q ≡ true
    → newer t o v q ≡ true
unfolding newer
newer_trans t u v o p q h k = ground (arith, str_lt_trans q p o)

newer_asym : (t u : ℕ) (o p : Origin) → newer t o u p ≡ true → newer u p t o ≡ false
unfolding newer
newer_asym t u o p h = ground (arith, str_lt_trans p o p, str_lt_irrefl p)

abbrev pub beats : Field → Field → Bool
beats f g = newer f.ts f.origin g.ts g.origin

-- `f` is the later write of the two, and `g`'s writer had not seen it.
abbrev pub Above : Field → Field → Type 0
Above f g = (beats f g ≡ true) × (covers g.version f.version ≡ false)

-- What timestamps and clocks promise of two writes of one field: they are the same write, or one
-- is later and unseen by the other. So a writer that has seen a write uses a larger timestamp.
abbrev pub Compat : Field → Field → Type 0
Compat f g = (f ≡ g) ⊎ (Above f g ⊎ Above g f)

abbrev pub top : Field → Field → Field
top c f = if beats f c then f else c

-- The field after one operation on it.
unfoldable pub cell : Option Field → Op → Option Field
cell c op = if changes c op then some (field_from_op op) else c

stamp_lem :
    (op : Op)
    → ((field_from_op op).version ≡ op.clock)
      × ((field_from_op op).ts ≡ op.ts)
      × ((field_from_op op).origin ≡ op.origin)
unfolding field_from_op
stamp_lem op = ground arith

pub cell-absent : (op : Op) → is_some op.value ≡ true → cell none op ≡ some (field_from_op op)
unfolding cell changes
cell-absent op h = ground arith

pub cell-present :
    (c : Field) (op : Op)
    → Compat c (field_from_op op)
    → cell (some c) op ≡ some (top c (field_from_op op))
unfolding cell changes
cell-present c op (inl same) = ground (arith, stamp_lem op, same)
cell-present c op (inr (inl above)) =
    ground (
      arith,
      stamp_lem op,
      newer_asym c.ts (field_from_op op).ts c.origin (field_from_op op).origin,
    )
cell-present c op (inr (inr above)) = ground (arith, stamp_lem op)

pub top-Compat : (c f g : Field) → Compat c g → Compat f g → Compat (top c f) g
top-Compat c f g hc hf = elim (Bool-cases (beats f c)) [
  | inl later ↦ rw later hf
  | inr earlier ↦ rw earlier hc
]

beats_trans : (f g h : Field) → beats f g ≡ true → beats g h ≡ true → beats f h ≡ true
beats_trans f g h = newer_trans f.ts g.ts h.ts f.origin g.origin h.origin

beats_asym : (f g : Field) → beats f g ≡ true → beats g f ≡ false
beats_asym f g = newer_asym f.ts g.ts f.origin g.origin

-- Without the versions: equal, later or earlier.
split : (f g : Field) → Compat f g → (f ≡ g) ⊎ ((beats f g ≡ true) ⊎ (beats g f ≡ true))
split f g (inl e) = inl e
split f g (inr (inl a)) = inr (inl a.0)
split f g (inr (inr a)) = inr (inr a.0)

abbrev Trio : Field → Field → Type 0
Trio f g = (f ≡ g) ⊎ ((beats f g ≡ true) ⊎ (beats g f ≡ true))

-- `top` of two writes where the first is already in: by cases on who beats whom.
top_comm_ranked :
    (c f g : Field) → Trio c f → Trio c g → Trio f g → top (top c f) g ≡ top (top c g) f
top_comm_ranked c f g (inl e) b d =
    rw e (ground (arith, newer_irrefl f.ts f.origin, beats_asym g f))
top_comm_ranked c f g (inr a) (inl e) d =
    rw e (ground (arith, newer_irrefl g.ts g.origin, beats_asym f g))
top_comm_ranked c f g (inr a) (inr b) (inl e) = rw e
top_comm_ranked c f g (inr (inl a)) (inr (inl b)) (inr d) =
    rw (beats_asym c f a, beats_asym c g b) (rw (beats_asym c f a))
top_comm_ranked c f g (inr (inl a)) (inr (inr b)) (inr d) =
    rw (beats_asym c f a, b) (rw (beats_asym g f (beats_trans g c f b a)))
top_comm_ranked c f g (inr (inr a)) (inr (inl b)) (inr d) =
    rw (beats_asym c g b, a) (rw (beats_asym f g (beats_trans f c g a b)))
top_comm_ranked c f g (inr (inr a)) (inr (inr b)) (inr (inl d)) =
    rw (a, b) (rw (d, beats_asym f g d))
top_comm_ranked c f g (inr (inr a)) (inr (inr b)) (inr (inr d)) =
    rw (a, b) (rw (d, beats_asym g f d))

-- The order of two writes does not matter.
pub top_comm :
    (c f g : Field) → Compat c f → Compat c g → Compat f g → top (top c f) g ≡ top (top c g) f
top_comm c f g cf cg fg = top_comm_ranked c f g (split c f cf) (split c g cg) (split f g fg)

top_swap_ranked : (f g : Field) → Trio f g → top f g ≡ top g f
top_swap_ranked f g (inl e) = rw e
top_swap_ranked f g (inr (inl a)) = rw (a, beats_asym f g a)
top_swap_ranked f g (inr (inr a)) = rw (a, beats_asym g f a)

pub top_swap : (f g : Field) → Compat f g → top f g ≡ top g f
top_swap f g c = top_swap_ranked f g (split f g c)
