-- ===== src/Model/Builtin/Space.antt =====
-- The built-in model `space@1`: the JSON definition of src/model/space.rs.
use ph_reactor.Base.{[], ◌∷◌}
use ph_reactor.Json.{Value, str, num, array, object}

unfoldable pub space_def : Value
unfolding object
space_def = object (
    ("name", str "space")
    ∷ ("version", str "1")
    ∷ (
      "$comment",
      str
          "The unit of access. `visibility` is fixed at init -- there is no reducer that changes it, deliberately. `apps` holds the packages enabled here; installing a package is a node-level trust decision, enabling it here is a separate one about data.",
    )
    ∷ (
      "fields",
      object (
          ("visibility", str "string")
          ∷ ("members", str "string[]")
          ∷ ("managers", str "string[]")
          ∷ ("apps", str "array")
          ∷ []),
    )
    ∷ (
      "reducers",
      object (
          (
            "init",
            object (
                (
                  "payload",
                  object (
                      ("name", str "string")
                      ∷ ("visibility", str "string")
                      ∷ ("members", str "string[]")
                      ∷ ("managers", str "string[]")
                      ∷ []),
                )
                ∷ (
                  "writes",
                  object (
                      ("__name__", object (("set", str "$payload.name") ∷ []))
                      ∷ ("visibility", object (("set", str "$payload.visibility") ∷ []))
                      ∷ ("members", object (("set", str "$payload.members") ∷ []))
                      ∷ ("managers", object (("set", str "$payload.managers") ∷ []))
                      ∷ ("apps", object (("set", array []) ∷ []))
                      ∷ []),
                )
                ∷ ("pre", array [])
                ∷ []),
          )
          ∷ (
            "add-member",
            object (
                ("payload", object (("member", str "string") ∷ []))
                ∷ (
                  "writes",
                  object (("members", object (("append", str "$payload.member") ∷ [])) ∷ []),
                )
                ∷ ("pre", array (object (("actor-in", str "managers") ∷ []) ∷ []))
                ∷ []),
          )
          ∷ (
            "remove-member",
            object (
                ("payload", object (("member", str "string") ∷ []))
                ∷ (
                  "writes",
                  object (("members", object (("remove", str "$payload.member") ∷ [])) ∷ []),
                )
                ∷ ("pre", array (object (("actor-in", str "managers") ∷ []) ∷ []))
                ∷ []),
          )
          ∷ (
            "add-manager",
            object (
                ("payload", object (("member", str "string") ∷ []))
                ∷ (
                  "writes",
                  object (
                      ("members", object (("append", str "$payload.member") ∷ []))
                      ∷ ("managers", object (("append", str "$payload.member") ∷ []))
                      ∷ []),
                )
                ∷ (
                  "pre",
                  array (
                      object (
                        (
                          "quorum",
                          object (
                              ("group", str "$self")
                              ∷ ("min", num 2)
                              ∷ ("field", str "members")
                              ∷ []),
                        )
                        ∷ [])
                      ∷ []),
                )
                ∷ []),
          )
          ∷ (
            "enable-app",
            object (
                ("payload", object (("item", str "object") ∷ []))
                ∷ ("writes", object (("apps", object (("append", str "$payload.item") ∷ [])) ∷ []))
                ∷ ("pre", array (object (("actor-in", str "managers") ∷ []) ∷ []))
                ∷ []),
          )
          ∷ (
            "disable-app",
            object (
                ("payload", object (("apps", str "array") ∷ []))
                ∷ ("writes", object (("apps", object (("set", str "$payload.apps") ∷ [])) ∷ []))
                ∷ ("pre", array (object (("actor-in", str "managers") ∷ []) ∷ []))
                ∷ []),
          )
          ∷ []),
    )
    ∷ [])
