-- ===== src/Llm/Host.antt =====
-- llm_host.py: the host's model, whether it is offered, and a call of it.
use hermes_stagewhisper_plug.Prelude.{
  ℕ, String, Bool, false, not, Option, none, some, List, [], ◌∷◌, all, if◌then◌else◌,
}
use hermes_stagewhisper_plug.Json.{Json, Items, Members, null, string, nil, cons, dict}
use hermes_stagewhisper_plug.Text.{is_empty, one_of, strip}
use hermes_stagewhisper_plug.Llm.Request.{ChatRequest}
use hermes_stagewhisper_plug.Llm.Request.Checks.{equals}
use hermes_stagewhisper_plug.Llm.Replay.{
  HostResponse, Completion, completion_from_host, without_tool_calls,
}

-- in milliseconds
abbrev pub call_timeout : ℕ
call_timeout = 110000

-- the arguments of a call
pub record Arguments : Type 0 where
  pub messages : Items
  pub tools : Option Items
  pub max_tokens : Option ℕ
  pub timeout : ℕ
  pub tool_choice : Option Json

-- How a call ends: with a response that `completion_from_host` can read, or with an exception, in
-- the call or in the reading, and its `status_code`, if that is a number.
pub data HostEnd : Type 0 where
  responds : HostResponse → HostEnd
  fails : Option ℕ → HostEnd

-- `configured_model`: the function is missing, or it gives a text, or it raises or gives none.
pub record HostModel : Type 0 where
  pub call : Arguments → HostEnd
  pub configured_model : Option (Option String)

-- The host's module: `async_call_llm`, if it is a coroutine function, with the names of its
-- parameters; and `_read_main_model`, if it can be called.
pub record HostModule : Type 0 where
  pub async_call_llm : Option (List String × (Arguments → HostEnd))
  pub read_main_model : Option (Option String)

abbrev required_parameters : List String
required_parameters = "messages" ∷ "tools" ∷ "extra_body" ∷ "max_tokens" ∷ "timeout" ∷ []

-- `load_host_model`, of the module, if it can be imported; `none` where it raises
unfoldable pub load_host_model : Option HostModule → Option HostModel
load_host_model none = none
load_host_model (some m) = elim m.async_call_llm [
  | none ↦ none
  | some (parameters, call) ↦
      if all (one_of parameters) required_parameters
      then some (record { call = call; configured_model = m.read_main_model })
      else none
]

pub record HostLlm : Type 0 where
  pub host : Option HostModel
  pub refused_by_host : Bool

abbrev pub init : Option HostModel → HostLlm
init loaded = record { host = loaded; refused_by_host = false }

unfoldable pub available : HostLlm → Bool
available h = elim h.host [ none ↦ false | some model ↦ not h.refused_by_host ]

-- `_configured_model`
unfoldable pub configured_model : HostLlm → String
unfolding strip
configured_model h = elim h.host [
  | none ↦ ""
  | some model ↦ elim model.configured_model [
    | none ↦ ""
    | some none ↦ ""
    | some (some name) ↦ strip name
  ]
]

abbrev api_field : String → Members
api_field model =
    if is_empty model
    then dict (("api", string "chat_completions") ∷ [])
    else dict (("api", string "chat_completions") ∷ ("model", string model) ∷ [])

unfoldable pub ping_field : HostLlm → HostLlm × Members
unfolding configured_model
ping_field h = (
  record h { refused_by_host = false },
  elim h.host [
    | none ↦ dict (("api", string "none") ∷ [])
    | some model ↦ api_field (configured_model h)
  ],
)

abbrev tools_or_nothing : Items → Option Items
tools_or_nothing nil = none
tools_or_nothing (cons x xs) = some (cons x xs)

abbrev choice_of : Json → Option Json
choice_of null = none
choice_of choice = if equals choice "auto" then none else some choice

-- what `complete` hands to the host's model
unfoldable pub arguments_of : ChatRequest → Arguments
arguments_of request = record {
  messages = request.messages;
  tools = tools_or_nothing request.tools;
  max_tokens = request.max_tokens;
  timeout = call_timeout;
  tool_choice = choice_of request.tool_choice;
}

-- How `complete` ends: with a completion, or with an exception and its `status_code`.
pub data Completed : Type 0 where
  completes : Completion → Completed
  raises : Option ℕ → Completed

abbrev model_name : String → String
model_name name = if is_empty name then "hermes" else name

unfoldable pub read_response : (ℕ → String) → ℕ → String → ChatRequest → HostEnd → Completed
unfolding completion_from_host without_tool_calls
read_response uuid now model request (fails status) = raises status
read_response uuid now model request (responds response) =
    let completion = completion_from_host uuid now response (model_name model) in
    completes
      (if equals request.tool_choice "none" then without_tool_calls completion else completion)

unfoldable pub complete : (ℕ → String) → ℕ → HostLlm → ChatRequest → Completed
unfolding arguments_of read_response configured_model
complete uuid now h request = elim h.host [
  | none ↦ raises none
  | some model ↦
      read_response uuid now (configured_model h) request (model.call (arguments_of request))
]
