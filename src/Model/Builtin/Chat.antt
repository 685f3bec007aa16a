-- ===== src/Model/Builtin/Chat.antt =====
-- The built-in model `chat@1`: the JSON definition of src/model/chat.rs.
use ph_reactor.Base.{[], ◌∷◌, true}
use ph_reactor.Json.{Value, str, bool, array, object}

unfoldable pub chat_def : Value
unfolding object
chat_def = object (
    ("name", str "chat")
    ∷ ("version", str "1")
    ∷ (
      "$comment",
      str
          "A channel. Messages are parallel arrays appended by one action, so they stay the same length and in order. Who may post comes from the space, not from this document.",
    )
    ∷ (
      "fields",
      object (
          ("channel", str "string")
          ∷ ("msg_from", str "string[]")
          ∷ ("msg_text", str "string[]")
          ∷ ("msg_ts", str "number[]")
          ∷ []),
    )
    ∷ (
      "reducers",
      object (
          (
            "init",
            object (
                ("payload", object (("name", str "string") ∷ ("channel", str "string") ∷ []))
                ∷ (
                  "writes",
                  object (
                      ("__name__", object (("set", str "$payload.name") ∷ []))
                      ∷ ("channel", object (("set", str "$payload.channel") ∷ []))
                      ∷ ("msg_from", object (("set", array []) ∷ []))
                      ∷ ("msg_text", object (("set", array []) ∷ []))
                      ∷ ("msg_ts", object (("set", array []) ∷ []))
                      ∷ []),
                )
                ∷ ("pre", array (object (("space-member", bool true) ∷ []) ∷ []))
                ∷ []),
          )
          ∷ (
            "post",
            object (
                ("payload", object (("text", str "string") ∷ []))
                ∷ (
                  "writes",
                  object (
                      ("msg_from", object (("append", str "$actor") ∷ []))
                      ∷ ("msg_text", object (("append", str "$payload.text") ∷ []))
                      ∷ ("msg_ts", object (("append", str "$ts") ∷ []))
                      ∷ []),
                )
                ∷ ("pre", array (object (("space-member", bool true) ∷ []) ∷ []))
                ∷ []),
          )
          ∷ []),
    )
    ∷ [])
