-- ===== src/Doc/Data.antt =====
-- `DocId`, `Hash32`, `ModelRef`, `Field`, `Doc` and `Op` of src/doc.rs.
use ph_reactor.Base.{ℕ, String, Bool, true, false, Option, none, some, List, not, keep, unwrap_or}
use ph_reactor.Base.Eq.{string_eq, nat_eq}
use ph_reactor.Base.Map.{Map}
use ph_reactor.Json.{Value, null}
use ph_reactor.Doc.Clock.{Origin, VecClock}

-- A UUID, as the number that its 16 bytes write in base 256.
abbrev pub DocId : Type 0
DocId = ℕ

-- A SHA-256 digest, as the number that its 32 bytes write.
abbrev pub Hash32 : Type 0
Hash32 = ℕ

-- The bytes of an ed25519 signature.
abbrev pub Sig : Type 0
Sig = List ℕ

pub record ModelRef : Type 0 where
  pub name : String
  pub version : String
  pub hash : Option Hash32

-- `ModelRef::new`
abbrev pub model_ref : String → String → ModelRef
model_ref name version = record { name = name; version = version; hash = none }

pub record Field : Type 0 where
  pub value : Value
  pub version : VecClock
  pub ts : ℕ
  pub origin : Origin
  pub deleted : Bool

abbrev pub Fields : Type 0
Fields = Map String Field

pub record Doc : Type 0 where
  pub id : DocId
  pub name : String
  pub fields : Fields

-- A copy with the delete tombstones removed.
unfoldable pub live : Doc → Doc
live d = record d { fields = keep (λ entry. not entry.1.deleted) d.fields }

pub record Op : Type 0 where
  pub doc_id : DocId
  pub key : Option String
  pub value : Option Value
  pub ts : ℕ
  pub clock : VecClock
  pub origin : Origin
  pub sig : Sig

-- `Field::from_op`
from_op : Op → Field
from_op op = record {
  value = unwrap_or null op.value;
  version = op.clock;
  ts = op.ts;
  origin = op.origin;
  deleted = false;
}

-- `Field::tombstone_from_op`
tombstone_from_op : Op → Field
tombstone_from_op op = record {
  value = null;
  version = op.clock;
  ts = op.ts;
  origin = op.origin;
  deleted = true;
}

unfoldable pub field_from_op : Op → Field
unfolding from_op tombstone_from_op
field_from_op op = elim op.value [ none ↦ tombstone_from_op op | some v ↦ from_op op ]
