-- ===== src/Doc/Apply.antt =====
-- `apply_op` of src/doc.rs: one operation into a document, its clock and its deletion flag.
use ph_reactor.Base.{
  ℕ, String, Bool, true, false, Option, none, some, [], ◌&&◌, ◌||◌, ltb, eqb, is_some,
  if◌then◌else◌,
}
use ph_reactor.Base.Eq.{string_eq, nat_eq}
use ph_reactor.Base.Map.{lookup, insert}
use ph_reactor.Base.Text.{str_lt}
use ph_reactor.Doc.Clock.{Origin, VecClock, merge, covers}
use ph_reactor.Doc.Data.{Field, Doc, Op, field_from_op}

-- `(t, o) > (u, p)` on pairs of a timestamp and an origin.
unfoldable pub newer : ℕ → Origin → ℕ → Origin → Bool
newer t o u p = ltb u t || (eqb t u && str_lt p o)

-- Whether a field is written: the three cases of a present field, and an absent one.
unfoldable pub changes : Option Field → Op → Bool
unfolding newer
changes none op = is_some op.value
changes (some current) op =
    if covers current.version op.clock
    then false
    else if covers op.clock current.version
    then true
    else newer op.ts op.origin current.ts current.origin

pub record ApplyResult : Type 0 where
  pub applied : Bool
  pub doc_deleted : Bool

-- What `apply_op` is handed by mutable reference.
pub record Target : Type 0 where
  pub doc : Doc
  pub clock : VecClock
  pub deleted : Bool

unfoldable pub write_field : Target → String → Op → Target × ApplyResult
write_field t key op =
    if changes (lookup key t.doc.fields) op
    then (
      record t { doc = record (t.doc) { fields = insert key (field_from_op op) t.doc.fields } },
      record { applied = true; doc_deleted = false },
    )
    else (t, record { applied = false; doc_deleted = false })

-- The match on the operation's key.
unfoldable pub apply_live : Target → Option String → Op → Target × ApplyResult
unfolding write_field
apply_live t none op = (
  record t { doc = record (t.doc) { fields = [] }; deleted = true },
  record { applied = true; doc_deleted = true },
)
apply_live t (some key) op = write_field t key op

unfoldable pub apply_op : Target → Op → Target × ApplyResult
unfolding apply_live
apply_op t op =
    let seen = record t { clock = merge t.clock op.clock } in
    if t.deleted
    then (seen, record { applied = false; doc_deleted = true })
    else apply_live seen op.key op
