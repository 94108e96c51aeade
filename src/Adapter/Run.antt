-- ===== src/Adapter/Run.antt =====
-- adapter.py: a whole `_dispatch`, the life of one turn.
pub mod Fair
pub mod Ends
pub mod Dispatched
use hermes_stagewhisper_plug.Prelude.{
  ℕ, String, Bool, true, false, not, ◌&&◌, Option, none, some, List, [], ◌∷◌, ◌++◌, if◌then◌else◌,
}
use hermes_stagewhisper_plug.Dict
use hermes_stagewhisper_plug.Dict.{Dict}
use hermes_stagewhisper_plug.Json.{Json}
use hermes_stagewhisper_plug.Text.{◌<>◌, is_empty, take_chars}
use hermes_stagewhisper_plug.Callbacks.{CallbackHandle}
use hermes_stagewhisper_plug.Models.Event.{ValidatedEvent}
use hermes_stagewhisper_plug.Adapter.{Adapter, Host, World, set_marks}
use hermes_stagewhisper_plug.Adapter.Dispatch.{
  DispatchEnd, completed, timed_out, failed, consume_prelude, emit_typing, finish_dispatch,
  end_dispatch,
}
use hermes_stagewhisper_plug.Adapter.Drafts.{flush_reasoning_reply}
use hermes_stagewhisper_plug.Adapter.Settle.{Sleeping, settle_turn}

-- The arguments of the `MessageEvent`, with those of its source.
pub record MessageEvent : Type 0 where
  pub text : String
  pub chat_id : String
  pub chat_name : String
  pub message_id : String
  pub raw_message : Json
  pub metadata : Option (Dict String)

-- How `wait_for(self.handle_message(…))` ends.
pub data AgentEnd : Type 0 where
  answered hard_timeout : AgentEnd
  agent_failed : String → AgentEnd

-- The gateway: whether it is there, whether its messages have metadata, the exception that its
-- `build_source` or its class of messages raises, if one does, and what its `handle_message`, the
-- keepalive and all that runs beside them do before it ends.
pub record Gateway : Type 0 where
  pub available : Bool
  pub has_metadata : Bool
  pub build_raises : Option String
  pub handle_message : MessageEvent → World → World × AgentEnd

abbrev if_given : String → Option String → Dict String
if_given key none = []
if_given key (some s) = if is_empty s then [] else (key, s) ∷ []

abbrev or_none : Dict String → Option (Dict String)
or_none [] = none
or_none (e ∷ d) = some (e ∷ d)

abbrev metadata_of : Bool → ValidatedEvent → Option (Dict String)
metadata_of has event =
    if has
    then or_none (
        if_given "user_message_id" event.user_message_id
        ++ if_given "parent_message_id" event.parent_message_id)
    else none

abbrev with_context : Option String → String → String
with_context none text = text
with_context (some prelude) text =
    if is_empty prelude then text else "[Context: " <> prelude <> "]\n\n" <> text

-- the message of a turn, with the prelude of its session
unfoldable pub message_for : Bool → ValidatedEvent → CallbackHandle → Option String → MessageEvent
unfolding take_chars
message_for has event handle prelude = record {
  text = with_context prelude event.text;
  chat_id = handle.chat_id;
  chat_name = "Call " <> take_chars 8 handle.session_id;
  message_id = event.task_id;
  raw_message = event.raw;
  metadata = metadata_of has event;
}

-- the first statements under the locks
unfoldable pub start_dispatch : ValidatedEvent → CallbackHandle → Adapter → Option String × Adapter
unfolding consume_prelude
start_dispatch event handle a =
    consume_prelude event.session_id
      (record a { active_handles = Dict.put a.active_handles handle.chat_id handle })

-- from the end of `handle_message` on
unfoldable pub after_agent : Sleeping → Host → CallbackHandle → AgentEnd → World → Option World
after_agent asleep host handle hard_timeout w = some (end_dispatch host handle timed_out w).1
after_agent asleep host handle (agent_failed text) w =
    some (end_dispatch host handle (failed text) w).1
after_agent asleep host handle answered w =
    if handle.is_reasoning
    then some (end_dispatch host handle completed (flush_reasoning_reply host handle w).1).1
    else (elim (settle_turn asleep host handle w) [
      | none ↦ none
      | some settled ↦ some (end_dispatch host handle completed settled).1
    ])

-- the typing that is sent before the agent is asked
unfoldable pub before_agent : Host → CallbackHandle → World → World
before_agent host handle w =
    let touched : World = record w {
      adapter = set_marks handle (λ m. record m { last_activity_at = w.adapter.clock }) w.adapter;
    } in
    (emit_typing host handle touched).1

-- `_dispatch`, once it holds the lock of its chat and a place of the semaphore, of a task that is
-- not cancelled; `none` where `_settle_turn` has not ended
unfoldable pub dispatch :
    Gateway → Sleeping → Host → ValidatedEvent → CallbackHandle → World → Option World
unfolding start_dispatch
dispatch gateway asleep host event handle w =
    let (prelude, started) = start_dispatch event handle w.adapter in
    let begun : World = record w { adapter = started } in
    let asked =
      gateway.handle_message (message_for gateway.has_metadata event handle prelude)
        (before_agent host handle begun) in
    if gateway.available
    then (elim gateway.build_raises [
      | some text ↦ some (end_dispatch host handle (failed text) begun).1
      | none ↦ after_agent asleep host handle asked.1 asked.0
    ])
    else some (record begun { adapter = finish_dispatch handle started })
