-- ===== src/Llm/Request.antt =====
-- llm_request.py: the limits of a request for a chat completion, and the form of a rejection.
pub mod Checks
pub mod Parse
pub mod Limits
pub mod Accepted
pub mod Errors
use Prim.Native.String.{len}
use hermes_stagewhisper_plug.Prelude.{
  ℕ, suc, min, String, Bool, true, false, not, ◌&&◌, ◌||◌, Option, none, some, List, [], ◌∷◌, ◌==◌,
  length, all, ltb, leb, eqb, if◌then◌else◌,
}
use hermes_stagewhisper_plug.Json
use hermes_stagewhisper_plug.Json.{
  Json, Items, Members, null, boolean, int, negative, float, string, array, object, nil, cons, end,
  member, dict, as_object, InSet, found, missing, type_error, in_set, dumps, show_nat,
}
use hermes_stagewhisper_plug.Text.{◌<>◌, is_empty}

abbrev pub llm_max_body_bytes : ℕ
llm_max_body_bytes = 196608

abbrev pub llm_max_messages : ℕ
llm_max_messages = 200

abbrev pub llm_max_tools : ℕ
llm_max_tools = 16

abbrev pub llm_max_tool_bytes : ℕ
llm_max_tool_bytes = 8192

abbrev pub llm_max_tools_total_bytes : ℕ
llm_max_tools_total_bytes = 32768

abbrev pub llm_max_output_tokens : ℕ
llm_max_output_tokens = 8192

abbrev pub message_roles : List String
message_roles = "system" ∷ "user" ∷ "assistant" ∷ "tool" ∷ []

pub record LlmRejection : Type 0 where
  pub status : ℕ
  pub code : String
  pub message : String
  pub param : Option String

pub record ChatRequest : Type 0 where
  pub messages : Items
  pub tools : Items
  pub tool_choice : Json
  pub stream : Bool
  pub max_tokens : Option ℕ

-- ERROR_TYPES.get(status, fallback_type)
unfoldable pub error_type : ℕ → String
error_type status =
    if eqb status 401
    then "authentication_error"
    else if eqb status 403
    then "permission_error"
    else if eqb status 404
    then "not_found_error"
    else if eqb status 429
    then "rate_limit_error"
    else if leb 500 status
    then "server_error"
    else "invalid_request_error"

abbrev pub optional : Option String → Json
optional none = null
optional (some s) = string s

unfoldable pub openai_error_body : LlmRejection → Members
unfolding error_type
openai_error_body r = dict (
    (
      "error",
      object (
          dict (
            ("message", string r.message)
            ∷ ("type", string (error_type r.status))
            ∷ ("param", optional r.param)
            ∷ ("code", string r.code)
            ∷ [])),
    )
    ∷ [])
