-- ===== src/Llm/Endpoint.antt =====
-- llm_endpoint.py: the route of the library model.
pub mod Refused
use hermes_stagewhisper_plug.Prelude.{
  ℕ, zero, suc, String, Bool, true, false, not, ◌&&◌, ◌||◌, Option, none, some, List, [], ◌∷◌, ◌++◌,
  ltb, eqb, if◌then◌else◌,
}
use hermes_stagewhisper_plug.Text.{◌<>◌}
use hermes_stagewhisper_plug.Json.{Json, Members, end, show_nat}
use hermes_stagewhisper_plug.Llm.Request.{
  llm_max_body_bytes, LlmRejection, ChatRequest, openai_error_body,
}
use hermes_stagewhisper_plug.Llm.Request.Parse.{Parsed, chat, rejected, raised, parse_chat_request}
use hermes_stagewhisper_plug.Llm.Replay.{
  Completion, chat_completion_json, chat_completion_chunks, sse_frame, sse_done,
}
use hermes_stagewhisper_plug.Llm.Host.{
  Arguments, HostLlm, available, arguments_of, Completed, completes, raises, complete,
}

abbrev pub not_offered : LlmRejection
not_offered = record {
  status = 404;
  code = "unknown_url";
  message = "This assistant does not offer a Library model endpoint.";
  param = none;
}

abbrev pub too_large : LlmRejection
too_large = record {
  status = 413;
  code = "request_too_large";
  message = "The request body is limited to " <> show_nat llm_max_body_bytes <> " bytes.";
  param = none;
}

abbrev failure : ℕ → String → String → LlmRejection
failure status code message = record {
  status = status;
  code = code;
  message = message;
  param = none;
}

abbrev pub refuses : ℕ → Bool
refuses status = eqb status 401 || eqb status 403 || eqb status 404

-- HOST_FAILURES.get(status, HOST_ERROR)
unfoldable pub host_failure : Option ℕ → LlmRejection
host_failure none = failure 502 "upstream_error" "The host model could not answer."
host_failure (some status) =
    if eqb status 401 || eqb status 403
    then failure 502 "upstream_auth_failed" "The host model refused the host's credentials."
    else if eqb status 404
    then not_offered
    else if eqb status 429
    then failure 429 "rate_limit_exceeded" "The host model is rate limited. Try again shortly."
    else failure 502 "upstream_error" "The host model could not answer."

-- status in (401, 403, 404)
unfoldable pub is_refusal : Option ℕ → Bool
is_refusal none = false
is_refusal (some status) = refuses status

-- What an endpoint sends: a JSON response, or the chunks written to an event stream.
pub data Reply : Type 0 where
  json : ℕ → Members → Reply
  events : List String → Reply

unfoldable pub error_response : LlmRejection → Reply
unfolding openai_error_body
error_response r = json r.status (openai_error_body r)

-- A request: its content length, and what `request.read()` gives, the number of bytes and their
-- JSON, if it is any; nothing where it raises `HTTPRequestEntityTooLarge`.
pub record LlmBody : Type 0 where
  pub content_length : Option ℕ
  pub read : Option (ℕ × Option Json)

-- The client of a stream: it reads to the end, after so many heartbeats; it is gone when the answer
-- is written; or it is gone at the heartbeat after so many.
pub data Client : Type 0 where
  stays gone_at_end gone_early : ℕ → Client

-- What is around a request: whether a float's literal is 0, the random ids, the time, the client,
-- and what other requests make of `refused_by_host` while the host's model is asked.
pub record Around : Type 0 where
  pub is_zero : String → Bool
  pub uuid : ℕ → String
  pub now : ℕ
  pub client : Client
  pub meanwhile : Bool → Bool

-- The state after a request, what the host's model was asked, and the reply. A call that is cancelled
-- at the first heartbeat counts as asked, although it may not have begun.
pub record Served : Type 0 where
  pub host_llm : HostLlm
  pub asked : Option Arguments
  pub reply : Reply

pub data Settled : Type 0 where
  done : Completion → Settled
  failed : LlmRejection → Settled

abbrev pub settled_of : HostLlm → Completed → HostLlm × Settled
settled_of h (completes completion) = (h, done completion)
settled_of h (raises status) = (
  record h { refused_by_host = h.refused_by_host || is_refusal status },
  failed (host_failure status),
)

-- the state once the other requests have run
abbrev pub later : Around → HostLlm → HostLlm
later around h = record h { refused_by_host = around.meanwhile h.refused_by_host }

-- `_settle`
unfoldable pub settle : Around → HostLlm → ChatRequest → HostLlm × Settled
unfolding host_failure is_refusal complete
settle around h request = settled_of (later around h) (complete around.uuid around.now h request)

abbrev keep_alives : ℕ → List String
keep_alives zero = []
keep_alives (suc n) = ": keep-alive\n\n" ∷ keep_alives n

unfoldable pub final_write : Settled → String
unfolding openai_error_body sse_frame chat_completion_chunks
final_write (done completion) = chat_completion_chunks completion
final_write (failed r) = sse_frame (openai_error_body r) <> sse_done

-- `_stream`: a heartbeat is written at once; a client that is gone early cancels the call
unfoldable pub stream : Around → HostLlm → ChatRequest → Served
unfolding settle final_write
stream around h request =
    let asked = some (arguments_of request) in
    let (after, outcome) = settle around h request in
    elim around.client [
      | stays n ↦ record {
        host_llm = after;
        asked = asked;
        reply = events (keep_alives (suc n) ++ final_write outcome ∷ []);
      }
      | gone_at_end n ↦ record {
        host_llm = after;
        asked = asked;
        reply = events (keep_alives (suc n));
      }
      | gone_early n ↦ record {
        host_llm = later around h;
        asked = asked;
        reply = events (keep_alives n);
      }
    ]

abbrev plain_reply : Settled → Reply
plain_reply (done completion) = json 200 (chat_completion_json completion)
plain_reply (failed r) = error_response r

unfoldable pub plain : Around → HostLlm → ChatRequest → Served
unfolding settle error_response
plain around h request =
    let (after, outcome) = settle around h request in
    record { host_llm = after; asked = some (arguments_of request); reply = plain_reply outcome }

abbrev pub unasked : HostLlm → Reply → Served
unasked h reply = record { host_llm = h; asked = none; reply = reply }

unfoldable pub serve_parsed : Around → HostLlm → Parsed → Served
unfolding stream plain error_response
serve_parsed around h (chat request) =
    if request.stream then stream around h request else plain around h request
serve_parsed around h (rejected r) = unasked h (error_response r)
serve_parsed around h raised = unasked h (json 500 end)

abbrev pub length_of : Option ℕ → ℕ
length_of none = 0
length_of (some n) = n

-- the handler from `request.read()` on
unfoldable pub serve_read : Around → HostLlm → Option (ℕ × Option Json) → Served
unfolding serve_parsed parse_chat_request error_response
serve_read around h none = unasked h (error_response too_large)
serve_read around h (some (size, value)) =
    if ltb llm_max_body_bytes size
    then unasked h (error_response too_large)
    else serve_parsed around h (parse_chat_request around.is_zero value)

-- `handle_chat_completions`; aiohttp answers an exception with status 500 and a page of its own,
-- whose body is left out
unfoldable pub handle_chat_completions : Around → HostLlm → LlmBody → Served
unfolding serve_read available error_response
handle_chat_completions around h body =
    if not (available h)
    then unasked h (error_response not_offered)
    else if ltb llm_max_body_bytes (length_of body.content_length)
    then unasked h (error_response too_large)
    else serve_read around h body.read

-- Requests that are served one after another.
unfoldable pub serve_all : HostLlm → List (Around × LlmBody) → List Served
unfolding handle_chat_completions
serve_all h [] = []
serve_all h ((around, body) ∷ rest) =
    let served = handle_chat_completions around h body in served ∷ serve_all served.host_llm rest
