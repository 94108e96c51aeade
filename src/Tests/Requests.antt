-- ===== src/Tests/Requests.antt =====
-- Tests of models.py and listener.py: requests, good and bad.
use hermes_stagewhisper_plug.Prelude.{◌≡◌, refl, String, Bool, true, false, none, some, [], ◌∷◌}
use hermes_stagewhisper_plug.Dict
use hermes_stagewhisper_plug.Json
use hermes_stagewhisper_plug.Json.{Json, Members, null, string, object, dict}
use hermes_stagewhisper_plug.Callbacks
use hermes_stagewhisper_plug.Models.Event.{ValidatedEvent, chat_message}
use hermes_stagewhisper_plug.Models.Validate.{accepted, type_error, validate_incoming, is_task_id}
use hermes_stagewhisper_plug.Models.Accepted.{IsAccepted, validate_incoming-IsAccepted}
use hermes_stagewhisper_plug.Adapter
use hermes_stagewhisper_plug.Adapter.{Adapter, World}
use hermes_stagewhisper_plug.Adapter.Turns.{
  accept_event, evict_finished_task_callbacks, evict_from, enqueue, handle_for, terminate,
}
use hermes_stagewhisper_plug.Delivery.{retry_callback, classify_callback_status}
use hermes_stagewhisper_plug.Adapter.Closed.{accept_event-IsClosed}
use hermes_stagewhisper_plug.Listener.{
  read, Request, handle_task, handle_incoming, status_response, duplicate_response,
}
use hermes_stagewhisper_plug.Listener.Routes.{Answer, handle_incoming-Answer}
use hermes_stagewhisper_plug.Listener.Repeats.{handle_task-again, handle_task-ended}
use hermes_stagewhisper_plug.Tests.Turns.{
  chat, idle, handle, last_reply, host, world, busy-known, busy-remembers, busy-runs,
}

abbrev uuid : String
uuid = "123e4567-e89b-12d3-a456-426614174000"

abbrev body : Members
body = dict (
    ("task_id", string uuid)
    ∷ ("session_id", string "s")
    ∷ ("reason", string "chat_message")
    ∷ ("occurred_at", string "now")
    ∷ ("payload", object (dict (("text", string "hello") ∷ ("user_message_id", string "m") ∷ [])))
    ∷ [])

abbrev event : ValidatedEvent
event = record {
  task_id = uuid;
  session_id = "s";
  reason = chat_message;
  occurred_at = "now";
  text = "hello";
  is_final = none;
  user_message_id = some "m";
  parent_message_id = none;
  callback_url = none;
  callback_token = none;
  raw = object body;
}

abbrev refuse : String → Bool
refuse url = false

body_accepted : validate_incoming refuse (object body) ≡ accepted event
unfolding validate_incoming Json.get
body_accepted = refl

validate_incoming-IsAccepted_example :
    (ms : Members) × (object body ≡ object ms) × IsAccepted refuse ms event
validate_incoming-IsAccepted_example =
    validate_incoming-IsAccepted refuse (object body) event body_accepted

abbrev list_reason : Members
list_reason =
    dict (("task_id", string uuid) ∷ ("session_id", string "s") ∷ ("reason", object body) ∷ [])

-- a reason that is an object raises
reason_raises : validate_incoming refuse (object list_reason) ≡ type_error
unfolding validate_incoming Json.get
reason_raises = refl

-- a newline behind a task id of 31 digits and 5 dashes is let through
newline_task_id : is_task_id "12345678-1234-1234-1234-1234-5678901\n" ≡ true
unfolding is_task_id
newline_task_id = refl

abbrev request : Request
request = record {
  remote = some "127.0.0.1";
  host = "localhost:8080";
  authorization = "Bearer secret";
  body = read 200 (some (object body));
}

handle_incoming-Answer_example :
    Answer [] "secret" refuse idle request (handle_incoming [] "secret" refuse idle request)
handle_incoming-Answer_example = handle_incoming-Answer [] "secret" refuse idle request

request_starts : (handle_incoming [] "secret" refuse idle request).dispatched ≡ some event
unfolding handle_incoming Json.get handle_task Callbacks.get Dict.has Adapter.init validate_incoming
request_starts = refl

task_starts : (handle_task idle (chat "t" none)).dispatched ≡ some (chat "t" none)
unfolding handle_task Callbacks.get Dict.has Adapter.init
task_starts = refl

handle_task-again_example :
    ((handle_task (handle_task idle (chat "t" none)).adapter (chat "t" (some "x"))).dispatched
      ≡ none)
    × ((handle_task (handle_task idle (chat "t" none)).adapter (chat "t" (some "x"))).response
        ≡ status_response 202 "in_flight" "t")
handle_task-again_example =
    handle_task-again idle (chat "t" none) (chat "t" (some "x")) refl task_starts

reply_delivered : (terminate host handle last_reply world).0 ≡ true
unfolding terminate accept_event evict_finished_task_callbacks evict_from enqueue Dict.put
    Adapter.init Adapter.deliver_reply Callbacks.uses_callback Adapter.post_reply retry_callback
    Adapter.post classify_callback_status
reply_delivered = refl

handle_task-ended_example :
    ((handle_task (terminate host handle last_reply world).1.adapter (chat "t" none)).dispatched
      ≡ none)
    × ((handle_task (terminate host handle last_reply world).1.adapter (chat "t" none)).response
        ≡ duplicate_response "t" last_reply)
unfolding accept_event handle_for
handle_task-ended_example =
    handle_task-ended host handle last_reply world (chat "t" none) busy-known busy-remembers
      (accept_event-IsClosed handle (chat "u" none)) busy-runs reply_delivered refl
