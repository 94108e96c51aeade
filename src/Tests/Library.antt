-- ===== src/Tests/Library.antt =====
-- Tests of the library model's endpoint.
use hermes_stagewhisper_plug.Prelude.{
  ◌≡◌, ◌≢◌, refl, true, false, none, some, List, [], ◌∷◌, All, length, arith,
}
use hermes_stagewhisper_plug.Json
use hermes_stagewhisper_plug.Json.{
  Json, Members, null, int, string, array, object, nil, cons, dict, dumps,
}
use hermes_stagewhisper_plug.Listener.{Request}
use hermes_stagewhisper_plug.Listener.Library.{
  IsAdmitted, handle_ping, handle_library_model, handle_library_model-asked,
}
use hermes_stagewhisper_plug.Llm.Request.{LlmRejection, ChatRequest}
use hermes_stagewhisper_plug.Llm.Request.Checks.{
  passes, refused, check_message, check_messages, is_text_only, encoded_size,
}
use hermes_stagewhisper_plug.Llm.Request.Limits.{IsMessage}
use hermes_stagewhisper_plug.Llm.Request.Errors.{Fails, First, check_messages-First}
use hermes_stagewhisper_plug.Llm.Replay.{Completion, chunk_payloads, chat_completion_json}
use hermes_stagewhisper_plug.Llm.Replay.Client.{
  read_json, read_chunks, nothing_read, answer_of, chat_completion_chunks-read,
}
use hermes_stagewhisper_plug.Llm.Host.{
  Arguments, HostModel, HostLlm, fails, available, arguments_of, ping_field,
}
use hermes_stagewhisper_plug.Llm.Endpoint.{
  not_offered, error_response, LlmBody, stays, Around, unasked, handle_chat_completions, serve_all,
}
use hermes_stagewhisper_plug.Llm.Endpoint.Refused.{IsAsked, handle_chat_completions-refused}

abbrev hello : Json
hello = object (dict (("role", string "user") ∷ ("content", string "hello") ∷ []))

abbrev body : Members
body = dict (("messages", array (cons hello nil)) ∷ ("max_tokens", int 9000) ∷ [])

abbrev request : ChatRequest
request = record {
  messages = cons hello nil;
  tools = nil;
  tool_choice = null;
  stream = false;
  max_tokens = some 8192;
}

-- The host refuses the credentials of each call.
abbrev refusing : HostModel
refusing = record { call = λ args. fails (some 401); configured_model = none }

abbrev host_llm : HostLlm
host_llm = record { host = some refusing; refused_by_host = false }

abbrev around : Around
around = record {
  is_zero = λ s. false;
  uuid = λ k. "u";
  now = 1;
  client = stays 0;
  meanwhile = λ refused_by_host. refused_by_host;
}

abbrev llm_body : LlmBody
llm_body = record { content_length = some 80; read = some (80, some (object body)) }

abbrev two_called : Completion
two_called = record {
  id = "c";
  model = "m";
  created = 1;
  content = "hi";
  tool_calls =
      record { id = "t"; name = "f"; arguments = "{}" }
      ∷ record { id = "u"; name = "g"; arguments = "[1]" }
      ∷ [];
  finish_reason = "tool_calls";
}

-- A message without a role, after one with a role.
abbrev two_messages : List Json
two_messages = hello ∷ object (dict []) ∷ []

refused_differs : {r : LlmRejection} → refused r ≢ passes
refused_differs e = cc

two_messages-refused : check_messages two_messages ≢ passes
unfolding check_messages check_message Json.get is_text_only
two_messages-refused e = refused_differs e

check_messages-First_example :
    (first : First check_message IsMessage 0 two_messages (check_messages two_messages)) × Fails
      (length first.front)
      first.x
      (check_messages two_messages)
check_messages-First_example =
    check_messages-First two_messages (omega arith) (omega arith) two_messages-refused

chat_completion_chunks-read_example :
    (read_chunks nothing_read (chunk_payloads two_called)
      ≡ read_json (chat_completion_json two_called))
    × (read_json (chat_completion_json two_called) ≡ answer_of two_called)
chat_completion_chunks-read_example = chat_completion_chunks-read two_called

asked_once : (handle_chat_completions around host_llm llm_body).asked ≡ some (arguments_of request)
unfolding handle_chat_completions Json.get check_message is_text_only encoded_size dumps
asked_once = refl

handle_chat_completions-refused_example :
    ((requests : List (Around × LlmBody))
      → All
          (λ s.
            s
            ≡ unasked
                (handle_chat_completions around host_llm llm_body).host_llm
                (error_response not_offered))
          (serve_all (handle_chat_completions around host_llm llm_body).host_llm requests))
    × (available (ping_field (handle_chat_completions around host_llm llm_body).host_llm).0 ≡ true)
handle_chat_completions-refused_example =
    handle_chat_completions-refused around host_llm llm_body (arguments_of request) refusing 401
      asked_once (λ n e. cc) refl refl refl

abbrev local_request : Request
local_request = record {
  remote = some "127.0.0.1";
  host = "localhost:8765";
  authorization = "Bearer secret";
  body = hermes_stagewhisper_plug.Listener.read_timeout;
}

handle_library_model-asked_example :
    ((args : Arguments)
      → (handle_library_model [] "secret" around host_llm local_request llm_body).asked ≡ some args
      → IsAdmitted [] "secret" local_request × IsAsked around host_llm llm_body args)
    × ((handle_ping [] "secret" "1" host_llm local_request).0 ≢ host_llm
        → IsAdmitted [] "secret" local_request)
handle_library_model-asked_example =
    handle_library_model-asked [] "secret" "1" around host_llm local_request llm_body
