-- ===== src/Llm/Request/Parse.antt =====
-- llm_request.py: `parse_chat_request`.
use hermes_stagewhisper_plug.Prelude.{
  ℕ, min, String, Bool, true, false, Option, none, some, ltb, eqb, if◌then◌else◌,
}
use hermes_stagewhisper_plug.Json
use hermes_stagewhisper_plug.Json.{
  Json, Items, Members, null, boolean, int, negative, float, string, array, object, nil, cons, end,
  member, dict, as_object, InSet, found, missing, type_error, in_set, dumps, show_nat,
}
use hermes_stagewhisper_plug.Text.{is_empty}
use hermes_stagewhisper_plug.Llm.Request.{llm_max_output_tokens, LlmRejection, ChatRequest}
use hermes_stagewhisper_plug.Llm.Request.Checks.{
  Outcome, passes, refused, raises, then_check, as_array, items_of, check_messages, check_tools,
}

-- `x or []`, where `is_zero` says of a float's literal whether it is 0; `none` where what comes out
-- is no list
unfoldable pub tools_or_none : (String → Bool) → Json → Option Items
tools_or_none is_zero null = some nil
tools_or_none is_zero (boolean true) = none
tools_or_none is_zero (boolean false) = some nil
tools_or_none is_zero (int n) = if eqb n 0 then some nil else none
tools_or_none is_zero (negative n) = none
tools_or_none is_zero (float s) = if is_zero s then some nil else none
tools_or_none is_zero (string s) = if is_empty s then some nil else none
tools_or_none is_zero (array xs) = some xs
tools_or_none is_zero (object end) = some nil
tools_or_none is_zero (object (member k v ms)) = none

-- `max_tokens`, of what was requested
unfoldable pub limit_tokens : Json → Option ℕ
limit_tokens (int n) = if ltb 0 n then some (min n llm_max_output_tokens) else none
limit_tokens null = none
limit_tokens (boolean b) = none
limit_tokens (negative n) = none
limit_tokens (float s) = none
limit_tokens (string s) = none
limit_tokens (array xs) = none
limit_tokens (object ms) = none

-- value is True
abbrev pub is_true : Json → Bool
is_true (boolean b) = b
is_true null = false
is_true (int n) = false
is_true (negative n) = false
is_true (float s) = false
is_true (string s) = false
is_true (array xs) = false
is_true (object ms) = false

-- How `parse_chat_request` ends.
pub data Parsed : Type 0 where
  chat : ChatRequest → Parsed
  rejected : LlmRejection → Parsed
  raised : Parsed

abbrev pub reject : String → String → Option String → Parsed
reject code message param =
    rejected (record { status = 400; code = code; message = message; param = param })

abbrev pub after_checks : ChatRequest → Outcome → Parsed
after_checks request passes = chat request
after_checks request (refused r) = rejected r
after_checks request raises = raised

-- the checks of messages and tools, of a body whose `tools` is a list or nothing
unfoldable pub parse_tools : Members → Items → Parsed
unfolding check_messages check_tools limit_tokens then_check
parse_tools body tools = elim (as_array (Json.get body "messages")) [
  | none ↦ reject "invalid_value" "messages must be a non-empty list." (some "messages")
  | some messages ↦
      after_checks
        (record {
          messages = messages;
          tools = tools;
          tool_choice = Json.get body "tool_choice";
          stream = is_true (Json.get body "stream");
          max_tokens = limit_tokens (Json.get body "max_tokens");
        })
        (then_check (check_messages (items_of messages)) (check_tools tools))
]

-- `parse_chat_request`, of what `json.loads` makes of the bytes, which is nothing where it raises
unfoldable pub parse_chat_request : (String → Bool) → Option Json → Parsed
unfolding tools_or_none parse_tools
parse_chat_request is_zero none = reject "invalid_json" "The request body is not valid JSON." none
parse_chat_request is_zero (some value) = elim (as_object value) [
  | none ↦ reject "invalid_json" "The request body must be a JSON object." none
  | some body ↦ elim (tools_or_none is_zero (Json.get body "tools")) [
    | none ↦ reject "invalid_value" "tools must be a list." (some "tools")
    | some tools ↦ parse_tools body tools
  ]
]
