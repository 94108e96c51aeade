-- ===== src/Tests/Turns.antt =====
-- Tests of adapter.py: the tables of the turns and their end.
use hermes_stagewhisper_plug.Prelude.{
  ◌≤◌, ◌<◌, ◌≡◌, ◌≢◌, ◌⊎◌, refl, String, true, false, Option, none, some, [], ◌∷◌, length, arith,
}
use hermes_stagewhisper_plug.Dict
use hermes_stagewhisper_plug.Json.{Members, null, string, dict}
use hermes_stagewhisper_plug.Callbacks
use hermes_stagewhisper_plug.Callbacks.{CallbackHandle}
use hermes_stagewhisper_plug.Models.Event.{ValidatedEvent, chat_message}
use hermes_stagewhisper_plug.Adapter
use hermes_stagewhisper_plug.Adapter.{
  Adapter, Host, World, PostEnd, response, Delivery, marks_of, deliver_reply,
}
use hermes_stagewhisper_plug.Adapter.Turns.{
  accept_event, begin_termination, evict_finished_task_callbacks, evict_from, evict_one, enqueue,
  handle_for, terminate,
}
use hermes_stagewhisper_plug.Adapter.Evict.{accept_event-handles, accept_event-idem}
use hermes_stagewhisper_plug.Adapter.Dispatch.{timed_out, end_dispatch}
use hermes_stagewhisper_plug.Adapter.Dispatch.Settled.{
  IsSettled, KeepsCapacity, end_dispatch-IsSettled,
}
use hermes_stagewhisper_plug.Adapter.Closed.{accept_event-IsClosed}
use hermes_stagewhisper_plug.Adapter.Termination.{terminate-once, terminate-result}

abbrev pub chat : String → Option String → ValidatedEvent
chat task_id callback_url = record {
  task_id = task_id;
  session_id = "s";
  reason = chat_message;
  occurred_at = "now";
  text = "hello";
  is_final = none;
  user_message_id = some "m";
  parent_message_id = none;
  callback_url = callback_url;
  callback_token = callback_url;
  raw = null;
}

abbrev pub idle : Adapter
idle = Adapter.init 8 "e"

abbrev pub busy : Adapter
busy = (accept_event idle (chat "t" (some "http://localhost/"))).0

abbrev pub handle : CallbackHandle
handle = (accept_event idle (chat "t" (some "http://localhost/"))).1

abbrev pub last_reply : Members
last_reply = dict (("status", string "completed") ∷ ("task_id", string "t") ∷ [])

abbrev pub host : Host
host = record { uuid = λ k. "u"; allowed = λ url. true }

-- Each delivery succeeds, while another event is accepted.
abbrev pub delivering : Delivery
delivering = record {
  attempts = λ k. response 200;
  meanwhile = λ a. (accept_event a (chat "u" none)).0;
}

abbrev pub world : World
world = record { adapter = busy; ahead = λ k. delivering; posted = [] }

pub busy-known : handle.ident < world.adapter.next_handle
unfolding accept_event evict_finished_task_callbacks evict_from enqueue handle_for Adapter.init
    Dict.put
busy-known = omega arith

pub busy-remembers : 0 < world.adapter.idem.capacity
unfolding accept_event evict_finished_task_callbacks evict_from enqueue handle_for Adapter.init
    Dict.put Callbacks.init
busy-remembers = omega arith

pub busy-runs : (marks_of handle world.adapter).terminated ≡ false
unfolding accept_event evict_finished_task_callbacks evict_from enqueue handle_for Adapter.init
    Dict.put Callbacks.init
busy-runs = refl

accept_event-handles_example :
    (Dict.has (accept_event busy (chat "u" none)).0.inflight "u" ≡ true)
    × ((j : String)
        → j ≢ "u"
        → Dict.has busy.inflight j ≡ true
        → Dict.get (accept_event busy (chat "u" none)).0.task_callbacks j
          ≡ Dict.get busy.task_callbacks j)
    × ((length (accept_event busy (chat "u" none)).0.task_callbacks ≤ busy.task_callbacks_cap)
        ⊎ ((j : String)
            → Dict.has (accept_event busy (chat "u" none)).0.task_callbacks j ≡ true
            → Dict.has (accept_event busy (chat "u" none)).0.inflight j ≡ true))
accept_event-handles_example = accept_event-handles busy (chat "u" none)

terminate-once_example :
    (terminate host handle (dict []) (terminate host handle last_reply world).1
      ≡ (false, (terminate host handle last_reply world).1))
    × (length (terminate host handle (dict []) (terminate host handle last_reply world).1).1.posted
        ≤ 1)
terminate-once_example =
    terminate-once host handle last_reply (dict []) world busy-known busy-remembers
      (accept_event-IsClosed handle (chat "u" none))

terminate-result_example :
    (Dict.has (terminate host handle last_reply world).1.adapter.inflight "t" ≡ false)
    × ((terminate host handle last_reply world).0 ≡ true
        → (Callbacks.get (terminate host handle last_reply world).1.adapter.idem "t").1
          ≡ some last_reply)
    × ((terminate host handle last_reply world).0 ≡ false
        → (terminate host handle last_reply world).1.adapter.idem
          ≡ (deliver_reply host handle last_reply
              (record world { adapter = begin_termination handle busy })).1.adapter.idem)
unfolding accept_event handle_for
terminate-result_example =
    terminate-result host handle last_reply world busy-known busy-remembers
      (accept_event-IsClosed handle (chat "u" none)) busy-runs

accepting-KeepsCapacity : KeepsCapacity delivering.meanwhile
accepting-KeepsCapacity a pos = rw accept_event-idem pos

end_dispatch-IsSettled_example :
    IsSettled handle (end_dispatch host handle timed_out world).1.adapter
end_dispatch-IsSettled_example =
    end_dispatch-IsSettled host handle timed_out world busy-remembers accepting-KeepsCapacity

abbrev full : Adapter
full = (accept_event (Adapter.init 1 "e") (chat "t" none)).0

-- A table that is full of tasks in flight lets go of the handle that was just accepted.
newest_lost : Dict.get (accept_event full (chat "u" none)).0.task_callbacks "u" ≡ none
unfolding accept_event evict_finished_task_callbacks evict_from evict_one enqueue handle_for
    Adapter.init Dict.put Dict.get Dict.has Dict.remove
newest_lost = refl
