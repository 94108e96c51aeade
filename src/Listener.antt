-- ===== src/Listener.antt =====
-- listener.py: the guard of every route, and the route of incoming events.
pub mod Routes
pub mod Repeats
pub mod Library
pub mod Events
use hermes_stagewhisper_plug.Prelude.{
  ℕ, String, Bool, true, false, not, ◌&&◌, ◌||◌, Option, none, some, List, [], ◌∷◌, ◌==◌, ltb,
  if◌then◌else◌,
}
use hermes_stagewhisper_plug.Dict
use hermes_stagewhisper_plug.Json.{Json, Members, string, object, dict}
use hermes_stagewhisper_plug.Text.{
  ◌<>◌, is_empty, one_of, starts_with, drop_chars, strip, lower, before_char,
}
use hermes_stagewhisper_plug.Callbacks
use hermes_stagewhisper_plug.Models.Event.{
  ValidatedEvent, Reason, transcript_chunk, chat_message, system_prelude,
}
use hermes_stagewhisper_plug.Models.Validate.{
  Validation, accepted, rejected, type_error, validate_incoming,
}
use hermes_stagewhisper_plug.Adapter.{Adapter}
use hermes_stagewhisper_plug.Adapter.Turns.{accept_event}

-- How `request.read()` ends.
pub data Body : Type 0 where
  read_timeout : Body
  read : ℕ → Option Json → Body

-- A request, with its headers ("" where one is missing) and its body: the number of its bytes,
-- and its JSON, if it is any.
pub record Request : Type 0 where
  pub remote : Option String
  pub host : String
  pub authorization : String
  pub body : Body

pub record Response : Type 0 where
  pub status : ℕ
  pub body : Members

abbrev pub max_body_bytes : ℕ
max_body_bytes = 262144

abbrev loopback_peers : List String
loopback_peers = "127.0.0.1" ∷ "::1" ∷ "::ffff:127.0.0.1" ∷ []

abbrev allowed_host_names : List String
allowed_host_names = "127.0.0.1" ∷ "localhost" ∷ "::1" ∷ "::ffff:127.0.0.1" ∷ []

unfoldable pub peer_is_loopback : Request → Bool
peer_is_loopback r = elim r.remote [ none ↦ false | some remote ↦ one_of loopback_peers remote ]

-- trimmed.find("]"), and what stands before it
abbrev before_bracket : String → Option String
before_bracket String.[] = none
before_bracket (String.◌∷◌ c s) = elim (before_bracket s) [
  | none ↦ if starts_with (String.◌∷◌ c s) "]" then some String.[] else none
  | some before ↦
      if starts_with (String.◌∷◌ c s) "]" then some String.[] else some (String.◌∷◌ c before)
]

unfoldable pub split_host_header : String → String
unfolding strip lower starts_with drop_chars before_char
split_host_header header =
    let trimmed = lower (strip header) in
    if starts_with trimmed "["
    then (elim (before_bracket (drop_chars 1 trimmed)) [ none ↦ trimmed | some name ↦ name ])
    else before_char b':' trimmed

-- `hosts` is `allowed_ingress_hosts()`
unfoldable pub host_header_ok : List String → Request → Bool
unfolding split_host_header
host_header_ok hosts r =
    not (is_empty r.host)
    && (one_of allowed_host_names (split_host_header r.host)
        || one_of hosts (split_host_header r.host))

unfoldable pub bearer_matches : String → Request → Bool
unfolding starts_with drop_chars strip
bearer_matches token r =
    starts_with r.authorization "Bearer " && strip (drop_chars 7 r.authorization) == token

abbrev pub error_response : ℕ → String → Response
error_response status error = record { status = status; body = dict (("error", string error) ∷ []) }

-- `_guard`: the response that denies a request, if it is denied
unfoldable pub guard : List String → String → Request → Option Response
unfolding peer_is_loopback host_header_ok bearer_matches
guard hosts token r =
    if not (peer_is_loopback r)
    then some (error_response 403 "loopback_only")
    else if not (host_header_ok hosts r)
    then some (error_response 403 "bad_host")
    else if not (bearer_matches token r)
    then some (error_response 401 "bad_bearer")
    else none

abbrev pub status_response : ℕ → String → String → Response
status_response status word task_id = record {
  status = status;
  body = dict (("status", string word) ∷ ("task_id", string task_id) ∷ []);
}

abbrev pub duplicate_response : String → Members → Response
duplicate_response task_id result = record {
  status = 200;
  body = dict (
      ("status", string "duplicate")
      ∷ ("task_id", string task_id)
      ∷ ("result", object result)
      ∷ []);
}

-- What a request does: the adapter after it, the event that was dispatched, if one was, and the
-- response; aiohttp answers an exception with status 500.
pub record Handled : Type 0 where
  pub adapter : Adapter
  pub dispatched : Option ValidatedEvent
  pub response : Response

abbrev reply_only : Adapter → Response → Handled
reply_only a response = record { adapter = a; dispatched = none; response = response }

unfoldable pub stash_prelude : String → String → Adapter → Adapter
stash_prelude session_id text a = record a { preludes = Dict.put a.preludes session_id text }

abbrev is_true : Option Bool → Bool
is_true none = false
is_true (some b) = b

-- the handler from `adapter.idem.get` on
unfoldable pub handle_task : Adapter → ValidatedEvent → Handled
handle_task a event =
    let (idem, cached) = Callbacks.get a.idem event.task_id in
    let looked : Adapter = record a { idem = idem } in
    elim cached [
      | some result ↦ reply_only looked (duplicate_response event.task_id result)
      | none ↦
          if Dict.has a.inflight event.task_id
          then reply_only looked (status_response 202 "in_flight" event.task_id)
          else record {
            adapter = (accept_event looked event).0;
            dispatched = some event;
            response = status_response 202 "accepted" event.task_id;
          }
    ]

unfoldable pub handle_event : Adapter → ValidatedEvent → Reason → Handled
unfolding handle_task stash_prelude
handle_event a event system_prelude =
    reply_only (stash_prelude event.session_id event.text a)
      (status_response 202 "accepted" event.task_id)
handle_event a event transcript_chunk =
    if is_true event.is_final
    then handle_task a event
    else reply_only a (status_response 202 "accepted" event.task_id)
handle_event a event chat_message = handle_task a event

abbrev handle_validation : Adapter → Validation → Handled
handle_validation a (accepted event) = handle_event a event event.reason
handle_validation a (rejected detail) = reply_only a (record {
  status = 400;
  body = dict (("error", string "validation_failed") ∷ ("detail", string detail) ∷ []);
})
handle_validation a type_error = reply_only a (error_response 500 "internal")

unfoldable pub handle_body : (String → Bool) → Adapter → Body → Handled
unfolding handle_event
handle_body allowed a read_timeout = reply_only a (error_response 400 "read_timeout")
handle_body allowed a (read size json) =
    if ltb max_body_bytes size
    then reply_only a (error_response 413 "body_too_large")
    else elim json [
      | none ↦ reply_only a (error_response 400 "invalid_json")
      | some body ↦ handle_validation a (validate_incoming allowed body)
    ]

-- `handle_incoming`
unfoldable pub handle_incoming :
    List String → String → (String → Bool) → Adapter → Request → Handled
unfolding guard handle_body
handle_incoming hosts token allowed a r = elim (guard hosts token r) [
  | some denied ↦ reply_only a denied
  | none ↦ handle_body allowed a r.body
]
