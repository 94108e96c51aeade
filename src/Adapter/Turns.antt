-- ===== src/Adapter/Turns.antt =====
-- adapter.py: the tables of the turns, from `accept_event` to `_terminate`.
use hermes_stagewhisper_plug.Prelude.{
  ◌+◌, String, Bool, true, false, not, ◌&&◌, Option, none, some, List, [], ◌∷◌, ◌++◌, ◌==◌, leb,
  eqb, length, if◌then◌else◌,
}
use hermes_stagewhisper_plug.Dict
use hermes_stagewhisper_plug.Dict.{Dict}
use hermes_stagewhisper_plug.Json.{Members}
use hermes_stagewhisper_plug.Text.{◌<>◌}
use hermes_stagewhisper_plug.Callbacks
use hermes_stagewhisper_plug.Callbacks.{CallbackHandle, Marks}
use hermes_stagewhisper_plug.Models.Event.{ValidatedEvent, is_transcript_chunk}
use hermes_stagewhisper_plug.ReasoningBuffer
use hermes_stagewhisper_plug.Adapter.{
  Adapter, Host, Exec, pure, ◌>>=◌, ◌>>◌, modify, gets, marks_of, set_marks, deliver_reply,
}

unfoldable pub chat_id_for : ValidatedEvent → String
chat_id_for event =
    if is_transcript_chunk event.reason
    then "sw:" <> event.session_id <> ":reasoning"
    else "sw:" <> event.session_id <> ":chat"

abbrev or_empty : Option String → String
or_empty none = ""
or_empty (some s) = s

abbrev pub queue_of : Adapter → String → List CallbackHandle
queue_of a chat_id = elim (Dict.get a.callbacks chat_id) [ none ↦ [] | some queue ↦ queue ]

-- the body of the loop of `_evict_finished_task_callbacks`, past its `break`
unfoldable pub evict_one : String → Adapter → Adapter
evict_one task_id a = if Dict.has a.inflight task_id then a else record a {
  task_callbacks = Dict.remove a.task_callbacks task_id;
  reasoning_pending = ReasoningBuffer.forget a.reasoning_pending task_id;
}

-- the loop, over the task ids that it copied
unfoldable pub evict_from : List String → Adapter → Adapter
evict_from [] a = a
evict_from (task_id ∷ rest) a =
    let further = evict_from rest (evict_one task_id a) in
    if leb (length a.task_callbacks) a.task_callbacks_cap then a else further

unfoldable pub evict_finished_task_callbacks : Adapter → Adapter
evict_finished_task_callbacks a = evict_from (Dict.keys a.task_callbacks) a

abbrev pub fresh_marks : Marks
fresh_marks = record {
  terminated = false;
  delivered = false;
  last_send_at = 0;
  last_activity_at = 0;
}

unfoldable pub handle_for : Adapter → ValidatedEvent → CallbackHandle
unfolding chat_id_for
handle_for a event = record {
  ident = a.next_handle;
  task_id = event.task_id;
  session_id = event.session_id;
  user_message_id = event.user_message_id;
  callback_url = or_empty event.callback_url;
  callback_token = or_empty event.callback_token;
  chat_id = chat_id_for event;
  is_reasoning = is_transcript_chunk event.reason;
}

-- `accept_event` before its call of `_evict_finished_task_callbacks`
unfoldable pub enqueue : Adapter → ValidatedEvent → Adapter
unfolding handle_for
enqueue a event =
    let handle = handle_for a event in
    record a {
      callbacks = Dict.put a.callbacks handle.chat_id (queue_of a handle.chat_id ++ handle ∷ []);
      task_callbacks = Dict.put a.task_callbacks event.task_id handle;
      marks = λ i. if eqb i handle.ident then fresh_marks else a.marks i;
      next_handle = a.next_handle + 1;
    }

-- `accept_event`: the adapter, and the handle whose `_dispatch` is the new task
unfoldable pub accept_event : Adapter → ValidatedEvent → Adapter × CallbackHandle
accept_event a event =
    let evicted = evict_finished_task_callbacks (enqueue a event) in
    (record evicted { inflight = Dict.put evicted.inflight event.task_id tt }, handle_for a event)

abbrev same_bool : Bool → Bool → Bool
same_bool true b = b
same_bool false b = not b

abbrev same_option : Option String → Option String → Bool
same_option none none = true
same_option none (some t) = false
same_option (some s) none = false
same_option (some s) (some t) = s == t

abbrev same_marks : Marks → Marks → Bool
same_marks m n =
    same_bool m.terminated n.terminated
    && same_bool m.delivered n.delivered
    && eqb m.last_send_at n.last_send_at
    && eqb m.last_activity_at n.last_activity_at

-- `==` on two handles: a dataclass is compared field by field
unfoldable pub same_handle : Adapter → CallbackHandle → CallbackHandle → Bool
same_handle a h g =
    h.task_id == g.task_id
    && h.session_id == g.session_id
    && same_option h.user_message_id g.user_message_id
    && h.callback_url == g.callback_url
    && h.callback_token == g.callback_token
    && h.chat_id == g.chat_id
    && same_bool h.is_reasoning g.is_reasoning
    && same_marks (marks_of h a) (marks_of g a)

-- queue.remove(handle), where a missing handle is ignored
unfoldable pub remove_handle : Adapter → CallbackHandle → List CallbackHandle → List CallbackHandle
unfolding same_handle
remove_handle a handle [] = []
remove_handle a handle (h ∷ queue) =
    let rest = remove_handle a handle queue in if same_handle a h handle then queue else h ∷ rest

abbrev put_queue :
    Dict (List CallbackHandle) → String → List CallbackHandle → Dict (List CallbackHandle)
put_queue d chat_id [] = Dict.remove d chat_id
put_queue d chat_id (h ∷ queue) = Dict.put d chat_id (h ∷ queue)

-- `_drop_handle`
unfoldable pub drop_handle : CallbackHandle → Adapter → Adapter
drop_handle handle a = elim (Dict.get a.callbacks handle.chat_id) [
  | none ↦ a
  | some queue ↦ record a {
    callbacks = put_queue a.callbacks handle.chat_id (remove_handle a handle queue);
  }
]

-- `_release_task`
unfoldable pub release_task : CallbackHandle → Adapter → Adapter
unfolding drop_handle
release_task handle a₀ =
    let a = drop_handle handle a₀ in
    record a {
      task_callbacks = Dict.remove a.task_callbacks handle.task_id;
      reasoning_pending = ReasoningBuffer.forget a.reasoning_pending handle.task_id;
      closed_turns =
          if (marks_of handle a).terminated
          then Callbacks.remember a.closed_turns handle
          else a.closed_turns;
    }

-- `_signal_done`
unfoldable pub signal_done : String → Adapter → Adapter
signal_done task_id a = record a { inflight = Dict.remove a.inflight task_id }

unfoldable pub put_idem : String → Members → Adapter → Adapter
put_idem task_id payload a = record a { idem = Callbacks.put a.idem task_id payload }

abbrev pub terminated_mark : Marks → Marks
terminated_mark m = record m { terminated = true }

-- `_terminate` before its `await`, for a turn that is not terminated
unfoldable pub begin_termination : CallbackHandle → Adapter → Adapter
unfolding set_marks release_task
begin_termination handle a = release_task handle (set_marks handle terminated_mark a)

-- `_terminate` after its `await`
unfoldable pub end_termination : CallbackHandle → Members → Bool → Adapter → Adapter
unfolding signal_done put_idem
end_termination handle payload ok a =
    let done = signal_done handle.task_id a in
    if ok then put_idem handle.task_id payload done else done

unfoldable pub terminate : Host → CallbackHandle → Members → Exec Bool
terminate host handle payload = do
  already ← gets (λ a. (marks_of handle a).terminated)
  if already then pure false else do
    modify (begin_termination handle)
    ok ← deliver_reply host handle payload
    modify (end_termination handle payload ok)
    pure ok
