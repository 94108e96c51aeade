-- ===== src/Llm/Request/Checks.antt =====
-- llm_request.py: the checks of the messages and of the tools.
use Prim.Native.String.{len}
use hermes_stagewhisper_plug.Prelude.{
  ℕ, suc, String, Bool, true, false, not, Option, none, some, List, [], ◌∷◌, ◌==◌, length, all, ltb,
  if◌then◌else◌,
}
use hermes_stagewhisper_plug.Json
use hermes_stagewhisper_plug.Json.{
  Json, Items, Members, null, boolean, int, negative, float, string, array, object, nil, cons, end,
  member, dict, as_object, InSet, found, missing, type_error, in_set, dumps, show_nat,
}
use hermes_stagewhisper_plug.Text.{◌<>◌}
use hermes_stagewhisper_plug.Llm.Request.{
  llm_max_messages, llm_max_tools, llm_max_tool_bytes, llm_max_tools_total_bytes, message_roles,
  LlmRejection,
}

-- the elements of an array
unfoldable pub items_of : Items → List Json
items_of nil = []
items_of (cons x xs) = x ∷ items_of xs

-- `_encoded_size`
unfoldable pub encoded_size : Json → ℕ
encoded_size value = len (dumps value)

-- value == text
abbrev pub equals : Json → String → Bool
equals (string s) t = s == t
equals null t = false
equals (boolean b) t = false
equals (int n) t = false
equals (negative n) t = false
equals (float s) t = false
equals (array xs) t = false
equals (object ms) t = false

-- isinstance(part, dict) and part.get("type") == wanted
unfoldable pub has_type : String → Json → Bool
has_type wanted part = elim (as_object part) [
  | none ↦ false
  | some ms ↦ equals (Json.get ms "type") wanted
]

-- `_is_text_only`
unfoldable pub is_text_only : Json → Bool
unfolding has_type items_of
is_text_only null = true
is_text_only (string s) = true
is_text_only (array xs) = all (has_type "text") (items_of xs)
is_text_only (boolean b) = false
is_text_only (int n) = false
is_text_only (negative n) = false
is_text_only (float s) = false
is_text_only (object ms) = false

-- How a check ends: nothing to refuse, a rejection, or a `TypeError`.
pub data Outcome : Type 0 where
  passes : Outcome
  refused : LlmRejection → Outcome
  raises : Outcome

-- a check, and the next one if it passes
unfoldable pub then_check : Outcome → Outcome → Outcome
then_check passes next = next
then_check (refused r) next = refused r
then_check raises next = raises

-- for index, x in enumerate(xs): the first element that does not pass ends the loop
unfoldable pub check_each : (ℕ → Json → Outcome) → ℕ → List Json → Outcome
unfolding then_check
check_each check index [] = passes
check_each check index (x ∷ xs) =
    let rest = check_each check (suc index) xs in then_check (check index x) rest

abbrev pub refuse : String → String → String → Outcome
refuse code message param =
    refused (record { status = 400; code = code; message = message; param = some param })

abbrev bad_role : ℕ → Outcome
bad_role index =
    refuse "invalid_value" "Each message needs a system, user, assistant or tool role."
      ("messages." <> show_nat index)

abbrev check_content : ℕ → Members → Outcome
check_content index ms =
    if is_text_only (Json.get ms "content")
    then passes
    else refuse "unsupported_content" "Only text content is accepted."
        ("messages." <> show_nat index <> ".content")

-- the body of the loop over the messages
unfoldable pub check_message : ℕ → Json → Outcome
unfolding in_set
check_message index message = elim (as_object message) [
  | none ↦ bad_role index
  | some ms ↦ elim (in_set message_roles (Json.get ms "role")) [
    | found ↦ check_content index ms
    | missing ↦ bad_role index
    | type_error ↦ raises
  ]
]

abbrev pub no_messages : Outcome
no_messages = refuse "invalid_value" "messages must be a non-empty list." "messages"

-- isinstance(x, list), with its items
abbrev pub as_array : Json → Option Items
as_array (array xs) = some xs
as_array null = none
as_array (boolean b) = none
as_array (int n) = none
as_array (negative n) = none
as_array (float s) = none
as_array (string s) = none
as_array (object ms) = none

-- `_messages_rejection`, of a list
unfoldable pub check_messages : List Json → Outcome
unfolding check_each
check_messages [] = no_messages
check_messages (m ∷ ms) =
    if ltb llm_max_messages (length (m ∷ ms))
    then refuse "too_many_messages"
        ("A request is limited to " <> show_nat llm_max_messages <> " messages.") "messages"
    else check_each check_message 0 (m ∷ ms)

-- the body of the loop over the tools
unfoldable pub check_tool : ℕ → Json → Outcome
unfolding has_type encoded_size
check_tool index tool =
    if not (has_type "function" tool)
    then refuse "unsupported_tool" "Only function tools are accepted." ("tools." <> show_nat index)
    else if ltb llm_max_tool_bytes (encoded_size tool)
    then refuse "tool_schema_too_large"
        ("Each tool is limited to " <> show_nat llm_max_tool_bytes <> " bytes.")
        ("tools." <> show_nat index)
    else passes

abbrev check_total : Items → Outcome
check_total tools =
    if ltb llm_max_tools_total_bytes (encoded_size (array tools))
    then refuse "tool_schema_too_large"
        ("All tools together are limited to " <> show_nat llm_max_tools_total_bytes <> " bytes.")
        "tools"
    else passes

-- `_tools_rejection`
unfoldable pub check_tools : Items → Outcome
unfolding items_of then_check
check_tools tools =
    if ltb llm_max_tools (length (items_of tools))
    then refuse "too_many_tools" ("A request is limited to " <> show_nat llm_max_tools <> " tools.")
        "tools"
    else then_check (check_each check_tool 0 (items_of tools)) (check_total tools)
