-- ===== src/Llm/Replay.antt =====
-- llm_replay.py: what the host's model answers, and the two forms in which a client gets it.
pub mod Client
use hermes_stagewhisper_plug.Prelude.{
  ℕ, zero, suc, ◌+◌, String, Bool, true, false, Option, none, some, List, [], ◌∷◌, ◌++◌, map, eqb,
  if◌then◌else◌,
}
use hermes_stagewhisper_plug.Json
use hermes_stagewhisper_plug.Json.{
  Json, Items, Members, null, int, string, array, object, nil, cons, end, member, dict, dumps,
}
use hermes_stagewhisper_plug.Text.{◌<>◌, is_empty}

abbrev pub sse_done : String
sse_done = "data: [DONE]\n\n"

-- one of the dicts in `tool_calls`
pub record ToolCall : Type 0 where
  pub id : String
  pub name : String
  pub arguments : String

pub record Completion : Type 0 where
  pub id : String
  pub model : String
  pub created : ℕ
  pub content : String
  pub tool_calls : List ToolCall
  pub finish_reason : String

-- What `completion_from_host` reads of the host's response, where `None` and a missing attribute
-- are `none`.
pub record HostCall : Type 0 where
  pub id : Option String
  pub name : String
  pub arguments : Option String

pub record HostResponse : Type 0 where
  pub id : Option String
  pub model : Option String
  pub created : Option ℕ
  pub content : Option String
  pub tool_calls : List HostCall

-- x or default, of a text and of a number
unfoldable pub text_or : Option String → String → String
text_or none fallback = fallback
text_or (some s) fallback = if is_empty s then fallback else s

unfoldable pub number_or : Option ℕ → ℕ → ℕ
number_or none fallback = fallback
number_or (some n) fallback = if eqb n 0 then fallback else n

-- whether `x or f()` calls `f`
abbrev lacks : Option String → Bool
lacks none = true
lacks (some s) = is_empty s

-- the calls, with the random ids from the k-th on, and the number of the next one
unfoldable pub tool_calls_of : (ℕ → String) → ℕ → List HostCall → List ToolCall × ℕ
unfolding text_or
tool_calls_of uuid k [] = ([], k)
tool_calls_of uuid k (call ∷ calls) =
    let (rest, next) = tool_calls_of uuid (if lacks call.id then suc k else k) calls in
    (
      record {
        id = text_or call.id ("call_" <> uuid k);
        name = call.name;
        arguments = text_or call.arguments "{}";
      }
          ∷ rest,
      next,
    )

abbrev reason_of : List ToolCall → String
reason_of [] = "stop"
reason_of (call ∷ calls) = "tool_calls"

-- `completion_from_host`; `now` is `int(time.time())`
unfoldable pub completion_from_host : (ℕ → String) → ℕ → HostResponse → String → Completion
unfolding tool_calls_of text_or number_or
completion_from_host uuid now response fallback_model =
    let (tool_calls, k) = tool_calls_of uuid 0 response.tool_calls in
    record {
      id = text_or response.id ("chatcmpl-" <> uuid k);
      model = text_or response.model fallback_model;
      created = number_or response.created now;
      content = text_or response.content "";
      tool_calls = tool_calls;
      finish_reason = reason_of tool_calls;
    }

unfoldable pub without_tool_calls : Completion → Completion
without_tool_calls completion = record completion { tool_calls = []; finish_reason = "stop" }

abbrev pub items : List Json → Items
items [] = nil
items (x ∷ xs) = cons x (items xs)

abbrev function_of : ToolCall → Json
function_of call =
    object (dict (("name", string call.name) ∷ ("arguments", string call.arguments) ∷ []))

abbrev pub call_members : ToolCall → List (String × Json)
call_members call =
    ("id", string call.id) ∷ ("type", string "function") ∷ ("function", function_of call) ∷ []

abbrev pub call_json : ToolCall → Json
call_json call = object (dict (call_members call))

-- content or None
abbrev content_or_null : String → Json
content_or_null s = if is_empty s then null else string s

abbrev with_calls : List ToolCall → List (String × Json)
with_calls [] = []
with_calls (call ∷ calls) = ("tool_calls", array (items (map call_json (call ∷ calls)))) ∷ []

unfoldable pub chat_completion_json : Completion → Members
chat_completion_json c =
    let message =
      ("role", string "assistant")
      ∷ ("content", content_or_null c.content)
      ∷ with_calls c.tool_calls in
    let choice =
      ("index", int 0)
      ∷ ("message", object (dict message))
      ∷ ("finish_reason", string c.finish_reason)
      ∷ [] in
    dict (
      ("id", string c.id)
      ∷ ("object", string "chat.completion")
      ∷ ("created", int c.created)
      ∷ ("model", string c.model)
      ∷ ("choices", array (items (object (dict choice) ∷ [])))
      ∷ [])

unfoldable pub sse_frame : Members → String
sse_frame payload = "data: " <> dumps (object payload) <> "\n\n"

-- the payload that `chunk` puts in a frame
unfoldable pub chunk : Completion → List (String × Json) → Json → Members
chunk c delta finish_reason =
    let choice =
      ("index", int 0) ∷ ("delta", object (dict delta)) ∷ ("finish_reason", finish_reason) ∷ [] in
    dict (
      ("id", string c.id)
      ∷ ("object", string "chat.completion.chunk")
      ∷ ("created", int c.created)
      ∷ ("model", string c.model)
      ∷ ("choices", array (items (object (dict choice) ∷ [])))
      ∷ [])

-- the deltas of the tool calls, from an index on
unfoldable pub call_chunks : Completion → ℕ → List ToolCall → List Members
unfolding chunk
call_chunks c index [] = []
call_chunks c index (call ∷ calls) =
    chunk c
      (("tool_calls", array (items (object (dict (("index", int index) ∷ call_members call)) ∷ [])))
        ∷ [])
      null
    ∷ call_chunks c (suc index) calls

-- the payloads of all the chunks, in order
unfoldable pub chunk_payloads : Completion → List Members
unfolding call_chunks chunk
chunk_payloads c =
    chunk c (("role", string "assistant") ∷ ("content", string c.content) ∷ []) null
      ∷ call_chunks c 0 c.tool_calls
    ++ chunk c [] (string c.finish_reason) ∷ []

abbrev pub join_frames : List Members → String
join_frames [] = ""
join_frames (payload ∷ payloads) = sse_frame payload <> join_frames payloads

unfoldable pub chat_completion_chunks : Completion → String
unfolding chunk_payloads sse_frame
chat_completion_chunks c = join_frames (chunk_payloads c) <> sse_done
