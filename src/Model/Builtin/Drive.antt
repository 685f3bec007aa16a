-- ===== src/Model/Builtin/Drive.antt =====
-- The built-in model `drive@1`: the JSON definition of src/model/drive.rs.
use ph_reactor.Base.{[], ◌∷◌, true}
use ph_reactor.Json.{Value, str, bool, array, object}

unfoldable pub drive_def : Value
unfolding object
drive_def = object (
    ("name", str "drive")
    ∷ ("version", str "1")
    ∷ (
      "$comment",
      str
          "A folder tree. `kind` is 'folder' (a container, no separate document) or 'doc' (a real document of `model`). Removal recomputes the whole array and sets it, which converges under the canonical fold.",
    )
    ∷ ("fields", object (("items", str "array") ∷ []))
    ∷ (
      "reducers",
      object (
          (
            "init",
            object (
                ("payload", object (("name", str "string") ∷ []))
                ∷ (
                  "writes",
                  object (
                      ("__name__", object (("set", str "$payload.name") ∷ []))
                      ∷ ("items", object (("set", array []) ∷ []))
                      ∷ []),
                )
                ∷ ("pre", array (object (("space-member", bool true) ∷ []) ∷ []))
                ∷ []),
          )
          ∷ (
            "add-item",
            object (
                ("payload", object (("item", str "object") ∷ []))
                ∷ ("writes", object (("items", object (("append", str "$payload.item") ∷ [])) ∷ []))
                ∷ ("pre", array (object (("space-member", bool true) ∷ []) ∷ []))
                ∷ []),
          )
          ∷ (
            "remove-item",
            object (
                ("payload", object (("items", str "array") ∷ []))
                ∷ ("writes", object (("items", object (("set", str "$payload.items") ∷ [])) ∷ []))
                ∷ ("pre", array (object (("space-member", str "managers") ∷ []) ∷ []))
                ∷ []),
          )
          ∷ []),
    )
    ∷ [])
