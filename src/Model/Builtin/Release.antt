-- ===== src/Model/Builtin/Release.antt =====
-- The built-in model `release@1`: the JSON definition of src/model/release.rs.
use ph_reactor.Base.{[], ◌∷◌}
use ph_reactor.Json.{Value, str, array, object}

unfoldable pub release_def : Value
unfolding object
release_def = object (
    ("name", str "release")
    ∷ ("version", str "1")
    ∷ (
      "$comment",
      str
          "A published daemon build. `manifest` holds the signed release JSON; the fields beside it are duplicated out so a node can filter without parsing every one.",
    )
    ∷ (
      "fields",
      object (
          ("publishers", str "string[]")
          ∷ ("publisher_key", str "string")
          ∷ ("release_version", str "string")
          ∷ ("platform", str "string")
          ∷ ("notes", str "string")
          ∷ ("manifest", str "string")
          ∷ ("status", str "string")
          ∷ []),
    )
    ∷ (
      "reducers",
      object (
          (
            "init",
            object (
                (
                  "payload",
                  object (
                      ("name", str "string")
                      ∷ ("publisher_key", str "string")
                      ∷ ("release_version", str "string")
                      ∷ ("platform", str "string")
                      ∷ ("manifest", str "string")
                      ∷ []),
                )
                ∷ (
                  "writes",
                  object (
                      ("__name__", object (("set", str "$payload.name") ∷ []))
                      ∷ ("publishers", object (("append", str "$actor") ∷ []))
                      ∷ ("publisher_key", object (("set", str "$payload.publisher_key") ∷ []))
                      ∷ ("release_version", object (("set", str "$payload.release_version") ∷ []))
                      ∷ ("platform", object (("set", str "$payload.platform") ∷ []))
                      ∷ ("notes", object (("set", str "$payload.notes") ∷ []))
                      ∷ ("manifest", object (("set", str "$payload.manifest") ∷ []))
                      ∷ ("status", object (("set", str "published") ∷ []))
                      ∷ []),
                )
                ∷ []),
          )
          ∷ (
            "withdraw",
            object (
                ("payload", object (("reason", str "string") ∷ []))
                ∷ (
                  "pre",
                  array (
                      object (("actor-in", str "publishers") ∷ [])
                      ∷ object (
                          (
                            "field-is",
                            object (("field", str "status") ∷ ("value", str "published") ∷ []),
                          )
                          ∷ [])
                      ∷ []),
                )
                ∷ (
                  "writes",
                  object (
                      ("status", object (("set", str "withdrawn") ∷ []))
                      ∷ ("notes", object (("set", str "$payload.reason") ∷ []))
                      ∷ []),
                )
                ∷ []),
          )
          ∷ []),
    )
    ∷ [])
