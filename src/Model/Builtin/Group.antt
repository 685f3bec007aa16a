-- ===== src/Model/Builtin/Group.antt =====
-- The built-in model `group@1`: the JSON definition of src/model/group.rs.
use ph_reactor.Base.{[], ◌∷◌}
use ph_reactor.Json.{Value, str, num, array, object}

unfoldable pub group_def : Value
unfolding object
group_def = object (
    ("name", str "group")
    ∷ ("version", str "1")
    ∷ (
      "fields",
      object (
          ("members", str "string[]")
          ∷ ("managers", str "string[]")
          ∷ ("msg_from", str "string[]")
          ∷ ("msg_text", str "string[]")
          ∷ ("msg_ts", str "number[]")
          ∷ ("msg_channel", str "string[]")
          ∷ ("channels", str "array")
          ∷ ("drive", str "array")
          ∷ []),
    )
    ∷ (
      "auth",
      object (
          (
            "post",
            object (
                ("field", str "channels")
                ∷ ("name", str "name")
                ∷ ("match", str "$payload.channel")
                ∷ ("visibility", str "visibility")
                ∷ ("private", str "private")
                ∷ ("allow", str "members")
                ∷ []),
          )
          ∷ []),
    )
    ∷ (
      "reducers",
      object (
          (
            "init",
            object (
                (
                  "payload",
                  object (
                      ("name", str "string")
                      ∷ ("members", str "string[]")
                      ∷ ("managers", str "string[]")
                      ∷ []),
                )
                ∷ (
                  "writes",
                  object (
                      ("__name__", object (("set", str "$payload.name") ∷ []))
                      ∷ ("members", object (("set", str "$payload.members") ∷ []))
                      ∷ ("managers", object (("set", str "$payload.managers") ∷ []))
                      ∷ ("msg_from", object (("set", array []) ∷ []))
                      ∷ ("msg_text", object (("set", array []) ∷ []))
                      ∷ ("msg_ts", object (("set", array []) ∷ []))
                      ∷ ("msg_channel", object (("set", array []) ∷ []))
                      ∷ (
                        "channels",
                        object (
                            (
                              "set",
                              array (
                                  object (
                                    ("name", str "general")
                                    ∷ ("visibility", str "public")
                                    ∷ ("members", array [])
                                    ∷ [])
                                  ∷ []),
                            )
                            ∷ []),
                      )
                      ∷ ("drive", object (("set", array []) ∷ []))
                      ∷ []),
                )
                ∷ ("pre", array [])
                ∷ []),
          )
          ∷ (
            "add-member",
            object (
                ("payload", object (("member", str "string") ∷ []))
                ∷ (
                  "writes",
                  object (("members", object (("append", str "$payload.member") ∷ [])) ∷ []),
                )
                ∷ ("pre", array (object (("actor-in", str "managers") ∷ []) ∷ []))
                ∷ []),
          )
          ∷ (
            "remove-member",
            object (
                ("payload", object (("member", str "string") ∷ []))
                ∷ (
                  "writes",
                  object (("members", object (("remove", str "$payload.member") ∷ [])) ∷ []),
                )
                ∷ ("pre", array (object (("actor-in", str "managers") ∷ []) ∷ []))
                ∷ []),
          )
          ∷ (
            "add-manager",
            object (
                ("payload", object (("member", str "string") ∷ []))
                ∷ (
                  "writes",
                  object (
                      ("members", object (("append", str "$payload.member") ∷ []))
                      ∷ ("managers", object (("append", str "$payload.member") ∷ []))
                      ∷ []),
                )
                ∷ (
                  "pre",
                  array (
                      object (
                        (
                          "quorum",
                          object (
                              ("group", str "$self")
                              ∷ ("min", num 2)
                              ∷ ("field", str "members")
                              ∷ []),
                        )
                        ∷ [])
                      ∷ []),
                )
                ∷ []),
          )
          ∷ (
            "post",
            object (
                ("payload", object (("text", str "string") ∷ ("channel", str "string") ∷ []))
                ∷ (
                  "writes",
                  object (
                      ("msg_from", object (("append", str "$actor") ∷ []))
                      ∷ ("msg_text", object (("append", str "$payload.text") ∷ []))
                      ∷ ("msg_ts", object (("append", str "$ts") ∷ []))
                      ∷ ("msg_channel", object (("append", str "$payload.channel") ∷ []))
                      ∷ []),
                )
                ∷ ("pre", array (object (("actor-in", str "members") ∷ []) ∷ []))
                ∷ []),
          )
          ∷ (
            "add-channel",
            object (
                ("payload", object (("item", str "object") ∷ []))
                ∷ (
                  "writes",
                  object (("channels", object (("append", str "$payload.item") ∷ [])) ∷ []),
                )
                ∷ ("pre", array (object (("actor-in", str "members") ∷ []) ∷ []))
                ∷ []),
          )
          ∷ (
            "remove-channel",
            object (
                ("payload", object (("channels", str "array") ∷ []))
                ∷ (
                  "writes",
                  object (("channels", object (("set", str "$payload.channels") ∷ [])) ∷ []),
                )
                ∷ ("pre", array (object (("actor-in", str "managers") ∷ []) ∷ []))
                ∷ []),
          )
          ∷ (
            "add-folder",
            object (
                ("payload", object (("item", str "object") ∷ []))
                ∷ ("writes", object (("drive", object (("append", str "$payload.item") ∷ [])) ∷ []))
                ∷ ("pre", array (object (("actor-in", str "members") ∷ []) ∷ []))
                ∷ []),
          )
          ∷ (
            "add-doc",
            object (
                ("payload", object (("item", str "object") ∷ []))
                ∷ ("writes", object (("drive", object (("append", str "$payload.item") ∷ [])) ∷ []))
                ∷ ("pre", array (object (("actor-in", str "members") ∷ []) ∷ []))
                ∷ []),
          )
          ∷ (
            "remove-item",
            object (
                ("payload", object (("drive", str "array") ∷ []))
                ∷ ("writes", object (("drive", object (("set", str "$payload.drive") ∷ [])) ∷ []))
                ∷ ("pre", array (object (("actor-in", str "managers") ∷ []) ∷ []))
                ∷ []),
          )
          ∷ []),
    )
    ∷ [])
