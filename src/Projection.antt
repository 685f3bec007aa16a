-- ===== src/Projection.antt =====
-- src/projection.rs: publishing a narrower record of a document into another space, by the rules of
-- an installed manifest.
pub mod Source
use Prim.Native.String.{◌++◌}
use ph_reactor.Base.{
  ℕ, ◌+◌, String, Bool, false, Option, none, some, List, [], ◌∷◌, ◌&&◌, if◌then◌else◌, ◌▷◌,
}
use ph_reactor.Base.Eq.{◌==◌, string_eq, nat_eq}
use ph_reactor.Base.Map.{Map, lookup, insert}
use ph_reactor.Json.{Value, str, object}
use ph_reactor.Doc.Data.{DocId, model_ref}
use ph_reactor.Action.{Extern}
use ph_reactor.Store.State.{Inner, DocChange}
use ph_reactor.Store.Local.{create_doc_in_space}
use ph_reactor.Store.Read.{get_doc}
use ph_reactor.Package.{Projection}

-- Both the model and the reducer.
unfoldable pub matches : Projection → DocChange → Bool
matches p c =
    (c.model.name == p.source)
    && (elim c.action_kind [ none ↦ false | some kind ↦ kind == p.trigger ])

unfoldable pub target_name : Projection → String → String
target_name p source_name = source_name ++ ("-" ++ p.target)

-- The value of a field that the change left standing.
unfoldable pub standing : DocChange → String → Option Value
standing c f = lookup f c.state.doc.fields ▷ λ v. if v.deleted then none else some v.value

unfoldable pub copy_fields : DocChange → List String → Map String Value → Map String Value
unfolding standing
copy_fields c [] out = out
copy_fields c (f ∷ fields) out =
    copy_fields c fields (elim (standing c f) [ none ↦ out | some v ↦ insert f v out ])

unfoldable pub payload_members : Projection → DocChange → String → Map String Value
unfolding copy_fields
payload_members p c name = copy_fields c p.fields (("name", str name) ∷ [])

unfoldable pub payload : Projection → DocChange → String → Value
unfolding payload_members
payload p c name = object (payload_members p c name)

-- One projection that matches. A creation that fails keeps what it changed, and is only logged.
unfoldable pub publish_one : Extern → Inner → ℕ → DocId → Projection → DocChange → Inner
unfolding target_name payload
publish_one x s now id p c =
    let name = target_name p c.name in
    elim (get_doc s name) [
      | some published ↦ s
      | none ↦ elim (get_doc s p.into_) [
        | none ↦ s
        | some space ↦
            (create_doc_in_space x s now id name (model_ref p.target "1") (payload p c name)
              (some space.id)).1
      ]
    ]

-- The times and the fresh ids that the documents would get are an argument.
unfoldable pub run_one : Extern → (ℕ → ℕ × DocId) → Inner → List Projection → DocChange → Inner
unfolding matches publish_one
run_one x fresh s [] c = s
run_one x fresh s (p ∷ projections) c =
    let (now, id) = fresh 0 in
    run_one x (λ n. fresh (n + 1)) (if matches p c then publish_one x s now id p c else s)
      projections c
