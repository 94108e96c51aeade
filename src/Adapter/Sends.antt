-- ===== src/Adapter/Sends.antt =====
-- adapter.py: what the gateway calls to send a message while a turn runs.
use hermes_stagewhisper_plug.Prelude.{
  String, Bool, true, false, not, ◌&&◌, Option, none, some, List, [], ◌∷◌, leb, length,
  if◌then◌else◌,
}
use hermes_stagewhisper_plug.Dict
use hermes_stagewhisper_plug.Text.{is_empty}
use hermes_stagewhisper_plug.Callbacks
use hermes_stagewhisper_plug.Callbacks.{CallbackHandle, Marks, uses_callback, callback_is_usable}
use hermes_stagewhisper_plug.Models.Payloads.{build_message_payload, build_notice_payload}
use hermes_stagewhisper_plug.ReasoningBuffer
use hermes_stagewhisper_plug.Adapter.{
  Adapter, Host, Exec, pure, ◌>>=◌, ◌>>◌, modify, gets, draw_uuid, marks_of, set_marks,
  deliver_reply,
}
use hermes_stagewhisper_plug.Adapter.Turns.{queue_of, drop_handle, put_idem}

-- `_SendResult`
pub record SendResult : Type 0 where
  pub success : Bool
  pub message_id : Option String
  pub error : Option String

abbrev pub failed : String → SendResult
failed error = record { success = false; message_id = none; error = some error }

-- error=None if ok else "callback_failed"
abbrev pub settled : Bool → String → SendResult
settled ok message_id = record {
  success = ok;
  message_id = some message_id;
  error = if ok then none else some "callback_failed";
}

abbrev pub or_else : Option CallbackHandle → Option CallbackHandle → Option CallbackHandle
or_else none h = h
or_else (some g) h = some g

abbrev first_of_queue : List CallbackHandle → Option CallbackHandle
first_of_queue [] = none
first_of_queue (h ∷ queue) = some h

unfoldable pub peek_callback : Adapter → String → Option CallbackHandle
peek_callback a chat_id = first_of_queue (queue_of a chat_id)

-- the handle of a task, live or closed
abbrev pub handle_of_task : Adapter → String → Option CallbackHandle
handle_of_task a task_id =
    or_else (Dict.get a.task_callbacks task_id) (Callbacks.by_task a.closed_turns task_id)

abbrev handle_of_chat : Adapter → String → Option CallbackHandle
handle_of_chat a chat_id =
    or_else (Dict.get a.active_handles chat_id)
      (or_else (peek_callback a chat_id) (Callbacks.by_chat a.closed_turns chat_id))

abbrev given : Option String → Option String
given none = none
given (some s) = if is_empty s then none else some s

-- `_resolve_send_handle`; `dispatch` is the context variable, set in the tasks of a dispatch
unfoldable pub resolve_send_handle :
    Option String → Adapter → String → Option String → Option CallbackHandle
unfolding peek_callback
resolve_send_handle dispatch a chat_id reply_to = elim (given reply_to) [
  | some task_id ↦ handle_of_task a task_id
  | none ↦ elim (given dispatch) [
    | some task_id ↦ handle_of_task a task_id
    | none ↦ handle_of_chat a chat_id
  ]
]

abbrev pub touch_activity : CallbackHandle → Adapter → Adapter
touch_activity handle a = set_marks handle (λ m. record m { last_activity_at = a.clock }) a

abbrev sent_mark : CallbackHandle → Adapter → Adapter
sent_mark handle a = set_marks handle (λ m. record m { delivered = true; last_send_at = a.clock }) a

module _ (host : Host) where
  -- `_send_as_new_message`
  unfoldable pub send_as_new_message : CallbackHandle → String → Exec SendResult
  send_as_new_message handle content = do
    message_id ← draw_uuid host
    task_id ← draw_uuid host
    now ← gets (λ a. a.iso_now)
    ok ← deliver_reply host handle (
        build_message_payload task_id handle.session_id handle.user_message_id message_id content
          now)
    pure (settled ok message_id)

  -- `_remember_notice`: at most MAX_NOTICE_MESSAGE_IDS of them
  unfoldable pub remember_notice : String → Adapter → Adapter
  remember_notice message_id a =
      let kept =
        if leb 256 (length a.notice_message_ids)
        then Dict.drop_oldest a.notice_message_ids
        else a.notice_message_ids in
      record a { notice_message_ids = Dict.put kept message_id tt }

  -- `_send_notice`
  unfoldable pub send_notice : CallbackHandle → String → Exec SendResult
  unfolding remember_notice
  send_notice handle content = do
    over ← gets (λ a. (marks_of handle a).terminated)
    if over then pure (failed "turn_terminated") else do
      modify (touch_activity handle)
      message_id ← draw_uuid host
      now ← gets (λ a. a.iso_now)
      ok ← deliver_reply host handle (
          build_notice_payload handle.task_id handle.session_id handle.user_message_id message_id
            content now)
      modify (λ a. if ok then remember_notice message_id a else a)
      pure (settled ok message_id)

  -- the end of `send`, for a turn that runs
  unfoldable pub send_message : CallbackHandle → String → Exec SendResult
  send_message handle content = do
    message_id ← draw_uuid host
    now ← gets (λ a. a.iso_now)
    let payload =
        build_message_payload handle.task_id handle.session_id handle.user_message_id message_id
          content now
    ok ← deliver_reply host handle payload
    modify (λ a. if ok then put_idem handle.task_id payload (sent_mark handle a) else a)
    pure (settled ok message_id)

  unfoldable pub capture_reasoning : CallbackHandle → String → Exec SendResult
  capture_reasoning handle content = do
    message_id ← draw_uuid host
    modify (λ a. record a {
      reasoning_pending =
          ReasoningBuffer.capture a.reasoning_pending handle.task_id content message_id;
    })
    pure (record { success = true; message_id = some message_id; error = none })

  -- `send` once the handle is known; `interim` is `_is_interim_send(metadata)`
  unfoldable pub send_to : CallbackHandle → String → Bool → Exec SendResult
  unfolding send_as_new_message send_notice send_message capture_reasoning
  send_to handle content interim = do
    over ← gets (λ a. (marks_of handle a).terminated)
    flushed ← gets (λ a. ReasoningBuffer.has_flushed a.reasoning_pending handle.task_id)
    if uses_callback handle && not (callback_is_usable host.allowed handle)
        then (do modify (drop_handle handle); pure (failed "invalid_callback_url"))
        else if interim
        then send_notice handle content
        else if over
        then send_as_new_message handle content
        else if handle.is_reasoning && not flushed
        then capture_reasoning handle content
        else send_message handle content

  -- `send`
  unfoldable pub send : Option String → String → String → Option String → Bool → Exec SendResult
  unfolding send_to
  send dispatch chat_id content reply_to interim w =
      elim (resolve_send_handle dispatch w.adapter chat_id reply_to) [
        | none ↦ (failed "callback_expired", w)
        | some handle ↦ send_to handle content interim w
      ]
