-- ===== src/Model/Persist.antt =====
-- src/model/persist.rs: the file of model definitions that were registered at runtime. The file is
-- what it parses to, if it is there and can be read.
use ph_reactor.Base.{
  String, Bool, true, false, Option, none, some, List, [], ◌∷◌, ◌++◌, not, keep, unwrap_or, ◌▷◌,
  ◌≡◌, refl, ◌∙◌, inl, inr, arith, Bool-cases, if◌then◌else◌,
}
use ph_reactor.Base.Eq.{◌==◌, ==_iff, string_eq, pair_eq}
use ph_reactor.Base.Result.{Result, ok, err}
use ph_reactor.Json.{Value, get, as_str}

pub data PersistError : Type 0 where
  no_name write_failed : PersistError

-- Nothing where the file is missing or cannot be read.
unfoldable pub load_all : Option (List Value) → List Value
load_all file = unwrap_or [] file

-- Name and version, empty where there is none.
unfoldable pub def_key : Value → String × String
def_key v =
    (unwrap_or "" (get v "name" ▷ λ n. as_str n), unwrap_or "" (get v "version" ▷ λ n. as_str n))

-- The new content of the file.
unfoldable pub save : Bool → Option (List Value) → Value → Result PersistError (List Value)
unfolding load_all def_key
save writable file def_ =
    if (def_key def_).0 == ""
    then err no_name
    else if writable
    then ok (keep (λ v. not (def_key v == def_key def_)) (load_all file) ++ def_ ∷ [])
    else err write_failed

-- The last definition of a key, which is the one that counts when they are loaded in their order.
unfoldable pub last_of : String × String → List Value → Option Value
last_of key [] = none
last_of key (v ∷ vs) =
    let later = last_of key vs in
    elim later [ some w ↦ some w | none ↦ if def_key v == key then some v else none ]

last_of-append :
    (key : String × String) (vs : List Value) (v : Value)
    → last_of key (vs ++ v ∷ []) ≡ (if def_key v == key then some v else last_of key vs)
unfolding last_of
last_of-append key [] v = refl
last_of-append key (w ∷ vs) v = rw (last_of-append key vs v) (ground arith)

last_of-keep :
    (key other : String × String) (vs : List Value)
    → last_of key (keep (λ v. not (def_key v == other)) vs)
      ≡ (if other == key then none else last_of key vs)
unfolding last_of
last_of-keep key other [] = ground arith
last_of-keep key other (v ∷ vs) = ground (
  arith,
  last_of-keep key other vs,
  ==_iff (def_key v) other,
  ==_iff (def_key v) key,
  ==_iff other key,
)

twice :
    (b : Bool) (u v : Option Value)
    → (if b then u else if b then none else v) ≡ (if b then u else v)
twice true u v = refl
twice false u v = refl

-- After a save, the definition of each key is the saved one for its own key, and as it was for every
-- other.
pub save_lem :
    (writable : Bool) (file : Option (List Value)) (def_ : Value) (all_ : List Value)
    (key : String × String)
    → save writable file def_ ≡ ok all_
    → last_of key all_ ≡ (if def_key def_ == key then some def_ else last_of key (load_all file))
unfolding save
save_lem writable file def_ all_ key e = elim (Bool-cases ((def_key def_).0 == "")) [
  | inl unnamed ↦ absurd (let e1 = rw (unnamed, save) at e in cc)
  | inr named ↦ elim (Bool-cases writable) [
    | inr stuck ↦ absurd (let e1 = rw (named, stuck, save) at e in cc)
    | inl free ↦
        let e1 = rw (named, free, save) at e in
        let kept = keep (λ v. not (def_key v == def_key def_)) (load_all file) in
        let same : kept ++ def_ ∷ [] ≡ all_ = cc in
        rw (← same) (
          last_of-append key kept def_
          ∙ rw (last_of-keep key (def_key def_) (load_all file)) (twice (def_key def_ == key) _ _))
  ]
]
