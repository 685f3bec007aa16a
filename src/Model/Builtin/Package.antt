-- ===== src/Model/Builtin/Package.antt =====
-- The built-in model `package@1`: the JSON definition of src/model/package.rs.
use ph_reactor.Base.{[], ◌∷◌}
use ph_reactor.Json.{Value, str, array, object}

unfoldable pub package_def : Value
unfolding object
package_def = object (
    ("name", str "package")
    ∷ ("version", str "1")
    ∷ (
      "$comment",
      str
          "A plugin package offered on the mesh. Publishing is open; installing is the operator's decision.",
    )
    ∷ (
      "fields",
      object (
          ("publishers", str "string[]")
          ∷ ("publisher_key", str "string")
          ∷ ("publisher_name", str "string")
          ∷ ("package_name", str "string")
          ∷ ("package_version", str "string")
          ∷ ("description", str "string")
          ∷ ("manifest", str "string")
          ∷ ("status", str "string")
          ∷ []),
    )
    ∷ (
      "reducers",
      object (
          (
            "init",
            object (
                (
                  "payload",
                  object (
                      ("name", str "string")
                      ∷ ("publisher_key", str "string")
                      ∷ ("package_name", str "string")
                      ∷ ("package_version", str "string")
                      ∷ ("manifest", str "string")
                      ∷ []),
                )
                ∷ (
                  "writes",
                  object (
                      ("__name__", object (("set", str "$payload.name") ∷ []))
                      ∷ ("publishers", object (("append", str "$actor") ∷ []))
                      ∷ ("publisher_key", object (("set", str "$payload.publisher_key") ∷ []))
                      ∷ ("publisher_name", object (("set", str "$payload.publisher_name") ∷ []))
                      ∷ ("package_name", object (("set", str "$payload.package_name") ∷ []))
                      ∷ ("package_version", object (("set", str "$payload.package_version") ∷ []))
                      ∷ ("description", object (("set", str "$payload.description") ∷ []))
                      ∷ ("manifest", object (("set", str "$payload.manifest") ∷ []))
                      ∷ ("status", object (("set", str "published") ∷ []))
                      ∷ []),
                )
                ∷ []),
          )
          ∷ (
            "withdraw",
            object (
                ("payload", object (("reason", str "string") ∷ []))
                ∷ (
                  "pre",
                  array (
                      object (("actor-in", str "publishers") ∷ [])
                      ∷ object (
                          (
                            "field-is",
                            object (("field", str "status") ∷ ("value", str "published") ∷ []),
                          )
                          ∷ [])
                      ∷ []),
                )
                ∷ (
                  "writes",
                  object (
                      ("status", object (("set", str "withdrawn") ∷ []))
                      ∷ ("description", object (("set", str "$payload.reason") ∷ []))
                      ∷ []),
                )
                ∷ []),
          )
          ∷ []),
    )
    ∷ [])
