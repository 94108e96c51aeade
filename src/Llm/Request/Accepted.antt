-- ===== src/Llm/Request/Accepted.antt =====
-- llm_request.py: what `parse_chat_request` accepts, and what it makes of it.
use hermes_stagewhisper_plug.Prelude.{ℕ, ◌<◌, min, ◌≡◌, ◌⊎◌, String, Bool, Option, none, some}
use hermes_stagewhisper_plug.Json
use hermes_stagewhisper_plug.Json.{Json, Items, Members, int, array, object, as_object}
use hermes_stagewhisper_plug.Llm.Request.{llm_max_output_tokens, ChatRequest}
use hermes_stagewhisper_plug.Llm.Request.Parse.{is_true, limit_tokens, tools_or_none}
use hermes_stagewhisper_plug.Llm.Request.Limits.{IsWithin}

-- The limit on a reply's tokens: a positive number that was asked for, cut to the greatest allowed,
-- and otherwise none.
abbrev pub IsLimit : Json → Option ℕ → Type 0
IsLimit requested limit =
    ((n : ℕ) × (requested ≡ int n) × (0 < n) × (limit ≡ some (min n llm_max_output_tokens)))
    ⊎ (((n : ℕ) → requested ≡ int n → n ≡ 0) × (limit ≡ none))

-- What a request says that is read from a body within the limits.
pub record IsRead (is_zero : String → Bool) (json : Option Json) (c : ChatRequest) : Type 0 where
  pub body : Members
  pub is_body : json ≡ some (object body)
  pub messages : Json.get body "messages" ≡ array c.messages
  pub tools : tools_or_none is_zero (Json.get body "tools") ≡ some c.tools
  pub tool_choice : c.tool_choice ≡ Json.get body "tool_choice"
  pub stream : c.stream ≡ is_true (Json.get body "stream")
  pub max_tokens : IsLimit (Json.get body "max_tokens") c.max_tokens
  pub within : IsWithin c.messages c.tools

request_of : Members → Items → Items → ChatRequest
request_of body messages tools = record {
  messages = messages;
  tools = tools;
  tool_choice = Json.get body "tool_choice";
  stream = is_true (Json.get body "stream");
  max_tokens = limit_tokens (Json.get body "max_tokens");
}
