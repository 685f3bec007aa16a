-- ===== src/Store/Admit.antt =====
-- The checks of `apply_action` that come before the entry is touched: signatures, model, payload,
-- quorum, authorization, space membership and space binding.
pub mod Quorum
pub mod Sound
pub mod Unguarded
use ph_reactor.Base.{
  ℕ, suc, ◌≡◌, ◌-◌, String, Bool, true, false, Option, none, some, List, [], ◌∷◌, ◌++◌, ◌&&◌, ◌||◌,
  not, ltb, any, map, filter_map, is_empty, length, unwrap_or, ◌▷◌, if◌then◌else◌,
}
use ph_reactor.Base.Eq.{Eq, ◌==◌, string_eq, nat_eq}
use ph_reactor.Base.Map.{Map, lookup}
use ph_reactor.Base.Result.{Result, ok, err, ◌>>=◌, ◌>>◌}
use ph_reactor.Json.{Value, null, as_str, as_array}
use ph_reactor.Doc.Clock.{Origin}
use ph_reactor.Doc.Data.{DocId, Doc, live}
use ph_reactor.Action.{Action, CoSig, Extern, verify, verify_cosig}
use ph_reactor.Model.Interface.{Model, Reject, QuorumSpec}
use ph_reactor.Model.Registry.{find}
use ph_reactor.Store.State.{
  Entry, Inner, StoreError, unknown_origin, bad_origin_key, bad_signature, unknown_cosigner,
  bad_cosigner_key, bad_cosignature, model_unavailable, rejected, no_group_name, group_not_found,
  quorum_not_met, no_space, space_not_here, not_in_space, space_mismatch,
}

abbrev pub Admission : Type 0
Admission = Result StoreError (Unit {0})

abbrev pub refuse_unless : Bool → StoreError → Admission
refuse_unless test e = if test then ok tt else err e

unfoldable pub check_origin : Extern → Inner → Action → Admission
check_origin x s a = elim (lookup a.origin s.known_keys) [
  | none ↦ err unknown_origin
  | some k ↦
      if x.valid_key k then refuse_unless (verify x a k) bad_signature else err bad_origin_key
]

check_cosig : Extern → Inner → Action → ℕ → CoSig → Admission
check_cosig x s a i cs = elim (lookup cs.origin s.known_keys) [
  | none ↦ err (unknown_cosigner cs.origin)
  | some k ↦
      if x.valid_key k
      then refuse_unless (verify_cosig x a i k) (bad_cosignature cs.origin)
      else err (bad_cosigner_key cs.origin)
]

-- The loop over the co-signatures, from index `i`.
unfoldable pub check_cosigs : Extern → Inner → Action → ℕ → List CoSig → Admission
unfolding check_cosig
check_cosigs x s a i [] = ok tt
check_cosigs x s a i (cs ∷ rest) =
    let later = check_cosigs x s a (suc i) rest in check_cosig x s a i cs >> later

abbrev pub from_reject : {A : Type 0} → Result Reject A → Result StoreError A
from_reject (ok v) = ok v
from_reject (err r) = err (rejected r)

-- `HashSet::insert`
unfoldable pub insert_new : Origin → List Origin → List Origin
insert_new o seen = if any (λ p. p == o) seen then seen else o ∷ seen

-- The distinct members among the signers.
unfoldable pub endorsers : List Origin → List Origin → List Origin
unfolding insert_new
endorsers members [] = []
endorsers members (o ∷ rest) =
    let seen = endorsers members rest in
    if any (λ p. p == o) members then insert_new o seen else seen

-- The strings of an array value.
unfoldable pub strings_of : Value → List String
strings_of v = filter_map as_str (unwrap_or [] (as_array v))

unfoldable pub group_members : Doc → String → List String
unfolding strings_of
group_members group field = elim (lookup field (live group).fields) [
  | none ↦ []
  | some f ↦ strings_of f.value
]

unfoldable pub signers : Action → List Origin
signers a = a.origin ∷ map (λ (cs : CoSig). cs.origin) a.cosig

pub group_name_of : Inner → QuorumSpec → Action → Result StoreError String
group_name_of s spec a =
    if spec.group == "$self"
    then elim (lookup a.doc_id s.entries) [
      | none ↦ err no_group_name
      | some e ↦ if e.doc.name == "" then err no_group_name else ok e.doc.name
    ]
    else ok spec.group

-- `quorum_problem`: an error where the quorum is not met.
unfoldable pub quorum_problem : Inner → QuorumSpec → Action → Admission
unfolding group_name_of group_members signers
quorum_problem s spec a = do
  name ← group_name_of s spec a
  elim (lookup name s.names ▷ λ id. lookup id s.entries) [
    | none ↦ err (group_not_found name)
    | some group ↦
        let n = length (endorsers (group_members group.doc spec.field) (signers a)) in
        refuse_unless (not (ltb n spec.min)) (quorum_not_met n spec.min)
  ]

check_quorum : Inner → Option QuorumSpec → Action → Admission
check_quorum s none a = ok tt
check_quorum s (some spec) a = quorum_problem s spec a

check_authorize : Inner → Model → Action → Admission
check_authorize s m a = elim (lookup a.doc_id s.entries) [
  | none ↦ ok tt
  | some e ↦ from_reject (m.authorize e.doc a)
]

-- `list_of` of src/model/space.rs.
unfoldable pub list_of : Doc → String → List String
unfolding strings_of
list_of d field = elim (lookup field d.fields) [ none ↦ [] | some f ↦ strings_of f.value ]

-- `action.space.or_else(..)`
pub space_for : Inner → Action → Option DocId
space_for s a = elim a.space [ some id ↦ some id | none ↦ lookup a.doc_id s.entries ▷ λ e. e.space ]

check_member : Inner → Action → String → DocId → Admission
check_member s a list id = elim (lookup id s.entries) [
  | none ↦ err space_not_here
  | some e ↦
      refuse_unless (any (λ m. m == a.origin) (list_of e.doc list)) (not_in_space a.origin list)
]

check_space_member : Inner → Option String → Action → Admission
unfolding space_for check_member
check_space_member s none a = ok tt
check_space_member s (some list) a = elim (space_for s a) [
  | none ↦ err no_space
  | some id ↦ check_member s a list id
]

-- `entry.space != action.space`
abbrev pub same_space : Option DocId → Option DocId → Bool
same_space none none = true
same_space (some s) (some t) = s == t
same_space _ _ = false

unfoldable pub check_binding : Inner → Action → Admission
check_binding s a = elim (lookup a.doc_id s.entries) [
  | none ↦ ok tt
  | some e ↦ refuse_unless (is_empty e.log || same_space e.space a.space) space_mismatch
]

find_model : Inner → Action → Result StoreError Model
find_model s a = elim (find s.models a.model) [
  | none ↦ err (model_unavailable a.model.name)
  | some m ↦ ok m
]

-- Steps 1 to 3d.
unfoldable pub admit : Extern → Inner → Action → Result StoreError Model
unfolding find_model check_quorum check_authorize check_space_member
admit x s a = do
  check_origin x s a
  check_cosigs x s a 0 a.cosig
  m ← find_model s a
  from_reject (m.validate_payload a.kind a.payload)
  check_quorum s (m.quorum a.kind) a
  check_authorize s m a
  check_space_member s (m.requires_space_member a.kind) a
  check_binding s a
  ok m
