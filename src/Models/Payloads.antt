-- ===== src/Models/Payloads.antt =====
-- models.py: the payloads of the wire. `now` is the text of `utc_now_iso()`.
use hermes_stagewhisper_plug.Prelude.{String, Option, none, some, List, [], ◌∷◌, ◌++◌}
use hermes_stagewhisper_plug.Json.{Json, Members, null, string, object, dict}

-- the value of a field typed `str | None`
abbrev pub optional : Option String → Json
optional none = null
optional (some s) = string s

unfoldable pub build_completed_payload :
    String → String → Option String → String → Option String → String → Members
build_completed_payload task_id session_id user_message_id reply_text model now = dict (
    ("task_id", string task_id)
    ∷ ("session_id", string session_id)
    ∷ ("user_message_id", optional user_message_id)
    ∷ ("status", string "completed")
    ∷ ("reply_text", string reply_text)
    ∷ ("error_code", null)
    ∷ ("error_message", null)
    ∷ ("model", optional model)
    ∷ ("occurred_at", string now)
    ∷ [])

unfoldable pub build_message_payload :
    String → String → Option String → String → String → String → Members
build_message_payload task_id session_id user_message_id message_id reply_text now = dict (
    ("task_id", string task_id)
    ∷ ("session_id", string session_id)
    ∷ ("message_id", string message_id)
    ∷ ("user_message_id", optional user_message_id)
    ∷ ("status", string "message")
    ∷ ("reply_text", string reply_text)
    ∷ ("error_code", null)
    ∷ ("error_message", null)
    ∷ ("model", null)
    ∷ ("occurred_at", string now)
    ∷ [])

unfoldable pub build_notice_payload :
    String → String → Option String → String → String → String → Members
build_notice_payload task_id session_id user_message_id message_id reply_text now = dict (
    ("task_id", string task_id)
    ∷ ("session_id", string session_id)
    ∷ ("message_id", string message_id)
    ∷ ("user_message_id", optional user_message_id)
    ∷ ("status", string "notice")
    ∷ ("reply_text", string reply_text)
    ∷ ("error_code", null)
    ∷ ("error_message", null)
    ∷ ("model", null)
    ∷ ("occurred_at", string now)
    ∷ [])

unfoldable pub build_stream_payload : String → String → Option String → Members → String → Members
build_stream_payload task_id session_id user_message_id chunk now = dict (
    ("task_id", string task_id)
    ∷ ("session_id", string session_id)
    ∷ ("user_message_id", optional user_message_id)
    ∷ ("status", string "stream")
    ∷ ("chunk", object chunk)
    ∷ ("occurred_at", string now)
    ∷ [])

unfoldable pub build_errored_payload :
    String → String → Option String → String → String → String → Members
build_errored_payload task_id session_id user_message_id error_code error_message now = dict (
    ("task_id", string task_id)
    ∷ ("session_id", string session_id)
    ∷ ("user_message_id", optional user_message_id)
    ∷ ("status", string "errored")
    ∷ ("reply_text", null)
    ∷ ("error_code", string error_code)
    ∷ ("error_message", string error_message)
    ∷ ("model", null)
    ∷ ("occurred_at", string now)
    ∷ [])

abbrev pub given : Option String → List (String × Json)
given none = []
given (some id) = ("user_message_id", string id) ∷ []

-- `user_message_id` is a key only where it is not `None`
unfoldable pub build_status_payload : String → String → String → Option String → String → Members
build_status_payload task_id session_id status user_message_id now = dict (
    (("task_id", string task_id)
      ∷ ("session_id", string session_id)
      ∷ ("status", string status)
      ∷ ("occurred_at", string now)
      ∷ [])
    ++ given user_message_id)
