-- ===== src/Adapter/Dispatch.antt =====
-- adapter.py: the end of a turn's `_dispatch`, and the small steps that it takes before.
pub mod Settled
use hermes_stagewhisper_plug.Prelude.{
  ℕ, String, Bool, true, false, not, ◌&&◌, Option, none, some, List, [], ◌∷◌, eqb, if◌then◌else◌,
}
use hermes_stagewhisper_plug.Dict
use hermes_stagewhisper_plug.Dict.{Dict}
use hermes_stagewhisper_plug.Json.{Members}
use hermes_stagewhisper_plug.Callbacks
use hermes_stagewhisper_plug.Callbacks.{CallbackHandle, uses_callback, callback_is_usable}
use hermes_stagewhisper_plug.DraftStream
use hermes_stagewhisper_plug.Models.Payloads.{build_errored_payload, build_status_payload}
use hermes_stagewhisper_plug.ReasoningBuffer
use hermes_stagewhisper_plug.Adapter.{
  Adapter, Host, World, Exec, pure, ◌>>=◌, ◌>>◌, modify, gets, marks_of, deliver_reply,
  deliver_progress,
}
use hermes_stagewhisper_plug.Adapter.Turns.{begin_termination, drop_handle, put_idem, signal_done}

-- `_consume_prelude`
unfoldable pub consume_prelude : String → Adapter → Option String × Adapter
consume_prelude session_id a =
    (Dict.get a.preludes session_id, record a { preludes = Dict.remove a.preludes session_id })

-- `_emit_typing`
unfoldable pub emit_typing : Host → CallbackHandle → Exec (Unit {0})
emit_typing host handle w =
    if uses_callback handle && not (callback_is_usable host.allowed handle) then (tt, w) else (
      tt,
      (deliver_progress host handle
          (build_status_payload handle.task_id handle.session_id "typing" handle.user_message_id
            w.adapter.iso_now)
          w).1,
    )

-- How the `try` block of a dispatch ends: without an exception, with the hard timeout, or with
-- another exception and its text.
pub data DispatchEnd : Type 0 where
  completed timed_out : DispatchEnd
  failed : String → DispatchEnd

-- the body of each `except` clause, with its payload
unfoldable pub fail_dispatch : Host → CallbackHandle → Members → Exec (Unit {0})
fail_dispatch host handle payload = do
  over ← gets (λ a. (marks_of handle a).terminated)
  if over then pure tt else do
    modify (begin_termination handle)
    ok ← deliver_reply host handle payload
    modify (λ a. if ok then put_idem handle.task_id payload a else a)

abbrev error_payload : CallbackHandle → String → String → String → Members
error_payload handle code message now =
    build_errored_payload handle.task_id handle.session_id handle.user_message_id code message now

-- the `except` clauses
unfoldable pub except_dispatch : Host → CallbackHandle → DispatchEnd → Exec (Unit {0})
unfolding fail_dispatch
except_dispatch host handle completed w = (tt, w)
except_dispatch host handle timed_out w =
    fail_dispatch host handle
      (error_payload handle "agent_timeout" "agent did not reply within 300s" w.adapter.iso_now) w
except_dispatch host handle (failed text) w =
    fail_dispatch host handle (error_payload handle "agent_error" text w.adapter.iso_now) w

abbrev pub is_handle : CallbackHandle → Option CallbackHandle → Bool
is_handle handle none = false
is_handle handle (some other) = eqb other.ident handle.ident

-- the `finally` clause up to `_drop_handle`
unfoldable pub leave_dispatch : CallbackHandle → Adapter → Adapter
leave_dispatch handle a = record a {
  reasoning_pending = ReasoningBuffer.discard a.reasoning_pending handle.task_id;
  stream_chunks = DraftStream.discard a.stream_chunks handle.task_id;
  active_handles =
      if is_handle handle (Dict.get a.active_handles handle.chat_id)
      then Dict.remove a.active_handles handle.chat_id
      else a.active_handles;
  idem =
      if not (marks_of handle a).terminated && not (Callbacks.contains a.idem handle.task_id)
      then Callbacks.put a.idem handle.task_id (
          build_status_payload handle.task_id handle.session_id "silent" handle.user_message_id
            a.iso_now)
      else a.idem;
}

-- the `finally` clause
unfoldable pub finish_dispatch : CallbackHandle → Adapter → Adapter
unfolding drop_handle signal_done
finish_dispatch handle a = signal_done handle.task_id (drop_handle handle (leave_dispatch handle a))

-- `_dispatch` from the end of its `try` block on
unfoldable pub end_dispatch : Host → CallbackHandle → DispatchEnd → Exec (Unit {0})
unfolding except_dispatch finish_dispatch
end_dispatch host handle end = do except_dispatch host handle end; modify (finish_dispatch handle)
