-- ===== src/Processor/ByName.antt =====
-- What setting and removing a processor's spec does to the others: `set_spec` and `remove_spec` of
-- src/processor.rs.
use ph_reactor.Base.{
  ◌≡◌, refl, ◌∙◌, String, true, false, Option, none, some, List, [], ◌∷◌, if◌then◌else◌, inl, inr,
  Bool-cases, arith,
}
use ph_reactor.Base.Eq.{◌==◌, ==_iff, string_eq}
use ph_reactor.Processor.{
  ProcessorSpec, spec_lt, insert_spec, sort_specs, replace_spec, Specs, save_specs, set_spec,
}

-- The first spec of a name.
abbrev pub find_spec : String → List ProcessorSpec → Option ProcessorSpec
find_spec name [] = none
find_spec name (p ∷ specs) = if p.name == name then some p else find_spec name specs

-- No two specs have one name.
abbrev pub NamesDiffer : List ProcessorSpec → Type 0
NamesDiffer [] = Unit
NamesDiffer (p ∷ specs) = (find_spec p.name specs ≡ none) × NamesDiffer specs

find-insert_spec :
    (name : String) (a : ProcessorSpec) (specs : List ProcessorSpec)
    → find_spec a.name specs ≡ none
    → find_spec name (insert_spec a specs)
      ≡ (if a.name == name then some a else find_spec name specs)
unfolding insert_spec
find-insert_spec name a [] new = refl
find-insert_spec name a (b ∷ specs) new = elim (Bool-cases (spec_lt b a)) [
  | inr after ↦ rw after refl
  | inl before ↦ rw before (
      ground (
        arith,
        new,
        ==_iff b.name name,
        ==_iff b.name a.name,
        ==_iff a.name name,
        find-insert_spec name a specs,
      ))
]

sort_specs_lem :
    (specs : List ProcessorSpec)
    → NamesDiffer specs
    → (name : String) → find_spec name (sort_specs specs) ≡ find_spec name specs
unfolding sort_specs
sort_specs_lem [] differ name = refl
sort_specs_lem (a ∷ specs) differ name =
    rw
      (find-insert_spec name a (sort_specs specs) (sort_specs_lem specs differ.1 a.name ∙ differ.0))
      (rw (sort_specs_lem specs differ.1 name) refl)

-- The spec as it is kept: with the time of creation of the one that it replaces.
abbrev pub kept_as : ProcessorSpec → Option ProcessorSpec → ProcessorSpec
kept_as spec none = spec
kept_as spec (some old) = record spec { created = old.created }

find-replace_spec :
    (name : String) (spec : ProcessorSpec) (specs : List ProcessorSpec)
    → find_spec name (replace_spec spec specs) ≡ (
        if spec.name == name
        then some (kept_as spec (find_spec spec.name specs))
        else find_spec name specs)
unfolding replace_spec
find-replace_spec name spec [] = refl
find-replace_spec name spec (p ∷ specs) = elim (Bool-cases (p.name == spec.name)) [
  | inl same ↦
      rw same
        (ground (arith, same, ==_iff p.name spec.name, ==_iff spec.name name, ==_iff p.name name))
  | inr other ↦ rw other (
      ground (
        arith,
        other,
        ==_iff p.name spec.name,
        ==_iff spec.name name,
        ==_iff p.name name,
        find-replace_spec name spec specs,
      ))
]

replace_spec-NamesDiffer :
    (spec : ProcessorSpec) (specs : List ProcessorSpec)
    → NamesDiffer specs
    → NamesDiffer (replace_spec spec specs)
unfolding replace_spec
replace_spec-NamesDiffer spec [] differ = (refl, tt)
replace_spec-NamesDiffer spec (p ∷ specs) differ = elim (Bool-cases (p.name == spec.name)) [
  | inl same ↦ rw same (rw (← (==_iff p.name spec.name).0 same) differ)
  | inr other ↦ rw other (
    rw (find-replace_spec p.name spec specs)
        (ground (arith, other, ==_iff p.name spec.name, ==_iff spec.name p.name, differ.0)),
    replace_spec-NamesDiffer spec specs differ.1,
  )
]

insert_spec-NamesDiffer :
    (a : ProcessorSpec) (specs : List ProcessorSpec)
    → find_spec a.name specs ≡ none
    → NamesDiffer specs
    → NamesDiffer (insert_spec a specs)
unfolding insert_spec
insert_spec-NamesDiffer a [] new differ = (refl, tt)
insert_spec-NamesDiffer a (b ∷ specs) new differ = elim (Bool-cases (spec_lt b a)) [
  | inr after ↦ rw after (new, differ)
  | inl before ↦
      let apart : (b.name == a.name) ≡ false = ground (arith, new) in
      let later : find_spec a.name specs ≡ none = rw apart at new in
      rw before (
        rw (find-insert_spec b.name a specs later)
            (ground (arith, apart, ==_iff a.name b.name, ==_iff b.name a.name, differ.0)),
        insert_spec-NamesDiffer a specs later differ.1,
      )
]

sort_specs-NamesDiffer :
    (specs : List ProcessorSpec) → NamesDiffer specs → NamesDiffer (sort_specs specs)
unfolding sort_specs
sort_specs-NamesDiffer [] differ = tt
sort_specs-NamesDiffer (a ∷ specs) differ =
    insert_spec-NamesDiffer a (sort_specs specs) (sort_specs_lem specs differ.1 a.name ∙ differ.0)
      (sort_specs-NamesDiffer specs differ.1)

specs-save_specs : (s : Specs) → (save_specs s).specs ≡ s.specs
unfolding save_specs
specs-save_specs s = elim (Bool-cases s.writable) [
  | inl yes_ ↦ rw yes_ refl
  | inr no_ ↦ rw no_ refl
]

file-save_specs : (s : Specs) → s.writable ≡ true → (save_specs s).file ≡ some (save_specs s).specs
unfolding save_specs
file-save_specs s yes_ = rw yes_ refl

-- Where no two specs have one name, setting a spec leaves it so, changes what is found under its own
-- name alone, keeps the time of creation of the spec that it replaces, and writes the file where it
-- can be written.
pub set_spec_lem :
    (s : Specs) (spec : ProcessorSpec)
    → NamesDiffer s.specs
    → NamesDiffer (set_spec s spec).specs
      × ((name : String)
          → find_spec name (set_spec s spec).specs ≡ (
              if spec.name == name
              then some (kept_as spec (find_spec spec.name s.specs))
              else find_spec name s.specs))
      × (s.writable ≡ true → (set_spec s spec).file ≡ some (set_spec s spec).specs)
unfolding set_spec
set_spec_lem s spec differ =
    let replaced = replace_spec spec s.specs in
    let apart = replace_spec-NamesDiffer spec s.specs differ in
    let saved = specs-save_specs (record s { specs = sort_specs replaced }) in
    (
      rw saved (sort_specs-NamesDiffer replaced apart),
      λ name. rw saved (sort_specs_lem replaced apart name ∙ find-replace_spec name spec s.specs),
      λ yes_. file-save_specs (record s { specs = sort_specs replaced }) yes_,
    )
