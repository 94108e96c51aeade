-- ===== src/Adapter/Drafts.antt =====
-- adapter.py: drafts, edits and typing of a turn that runs, and its reasoning reply.
use hermes_stagewhisper_plug.Prelude.{
  ℕ, ◌+◌, String, Bool, true, false, not, ◌&&◌, ◌||◌, Option, none, some, List, [], ◌∷◌, ◌==◌, leb,
  length, if◌then◌else◌,
}
use hermes_stagewhisper_plug.Dict
use hermes_stagewhisper_plug.Json.{show_nat}
use hermes_stagewhisper_plug.Text.{is_empty}
use hermes_stagewhisper_plug.Callbacks.{CallbackHandle, uses_callback, callback_is_usable}
use hermes_stagewhisper_plug.DraftStream
use hermes_stagewhisper_plug.DraftStream.{Chunk, chunk_dict}
use hermes_stagewhisper_plug.Models.Payloads.{
  build_errored_payload, build_status_payload, build_stream_payload,
}
use hermes_stagewhisper_plug.ReasoningBuffer
use hermes_stagewhisper_plug.Adapter.{
  Adapter, Host, World, Exec, pure, ◌>>=◌, ◌>>◌, modify, gets, marks_of, set_marks, deliver_reply,
  deliver_progress,
}
use hermes_stagewhisper_plug.Adapter.Turns.{drop_handle, put_idem, terminate}
use hermes_stagewhisper_plug.Adapter.Sends.{
  SendResult, or_else, touch_activity, peek_callback, resolve_send_handle, send_as_new_message,
  send_notice,
}

module _ (host : Host) where
  -- the loop of `_emit_stream_chunks`
  unfoldable pub deliver_chunks : CallbackHandle → List Chunk → Bool → Exec Bool
  deliver_chunks handle [] delivered = pure delivered
  deliver_chunks handle (chunk ∷ chunks) delivered = do
    now ← gets (λ a. a.iso_now)
    ok ← deliver_reply host handle (
        build_stream_payload handle.task_id handle.session_id handle.user_message_id
          (chunk_dict chunk) now)
    deliver_chunks handle chunks (delivered && ok)

  -- the part id is drawn on each call, where the source draws it only if a part opens
  abbrev emitted : CallbackHandle → String → Bool → Exec (List Chunk)
  emitted handle content finalize w =
      let fresh = host.uuid w.adapter.next_uuid in
      let r = DraftStream.emit fresh w.adapter.stream_chunks handle.task_id content finalize in
      (
        r.1,
        record w {
          adapter = record w.adapter { stream_chunks = r.0; next_uuid = w.adapter.next_uuid + 1 };
        },
      )

  -- `_emit_stream_chunks`
  unfoldable pub emit_stream_chunks : CallbackHandle → String → Bool → Exec Bool
  unfolding deliver_chunks
  emit_stream_chunks handle content finalize = do
    chunks ← emitted handle content finalize
    elim chunks [
      | [] ↦ pure true
      | chunk ∷ more ↦ do modify (touch_activity handle); deliver_chunks handle (chunk ∷ more) true
    ]

  abbrev answered : Bool → Bool × Option String
  answered ok = (ok, if ok then none else some "callback_failed")

  -- `_flush_terminated_stream`: at most MAX_TERMINATED_FLUSH_ENTRIES are remembered
  unfoldable pub remember_flush : String → String → Adapter → Adapter
  remember_flush task_id content a =
      let kept =
        if leb 256 (length a.terminated_stream_flush)
        then Dict.drop_oldest a.terminated_stream_flush
        else a.terminated_stream_flush in
      record a { terminated_stream_flush = Dict.put kept task_id content }

  abbrev was_flushed : Adapter → String → String → Bool
  was_flushed a task_id content = elim (Dict.get a.terminated_stream_flush task_id) [
    | none ↦ false
    | some last ↦ last == content
  ]

  unfoldable pub flush_terminated_stream : CallbackHandle → String → Exec (Bool × Option String)
  unfolding send_as_new_message remember_flush
  flush_terminated_stream handle content = do
    modify (λ a. record a { stream_chunks = DraftStream.discard a.stream_chunks handle.task_id })
    repeated ← gets (λ a. was_flushed a handle.task_id content)
    if is_empty content || repeated then pure (true, none) else do
      result ← send_as_new_message host handle content
      modify (λ a. if result.success then remember_flush handle.task_id content a else a)
      pure (answered result.success)

  abbrev stream_to : CallbackHandle → String → Bool → Exec (Bool × Option String)
  stream_to handle content finalize = do
    over ← gets (λ a. (marks_of handle a).terminated)
    if uses_callback handle && not (callback_is_usable host.allowed handle)
        then (do modify (drop_handle handle); pure (false, some "invalid_callback_url"))
        else if over
        then flush_terminated_stream handle content
        else (do ok ← emit_stream_chunks handle content finalize; pure (answered ok))

  -- `_stream_request`
  unfoldable pub stream_request :
      Option String → String → String → Bool → Exec (Bool × Option String)
  unfolding emit_stream_chunks flush_terminated_stream
  stream_request dispatch chat_id content finalize w =
      elim (resolve_send_handle dispatch w.adapter chat_id none) [
        | none ↦ ((false, some "callback_expired"), w)
        | some handle ↦ stream_to handle content finalize w
      ]

  -- `edit_message`
  unfoldable pub edit_message : Option String → String → String → String → Bool → Exec SendResult
  unfolding stream_request send_notice
  edit_message dispatch chat_id message_id content finalize w =
      if Dict.has w.adapter.notice_message_ids message_id
      then (elim (resolve_send_handle dispatch w.adapter chat_id none) [
        | none ↦ (
          record { success = false; message_id = some message_id; error = some "callback_expired" },
          w,
        )
        | some handle ↦ send_notice host handle content w
      ])
      else (let r = stream_request dispatch chat_id content finalize w in
          (record { success = r.0.0; message_id = some message_id; error = r.0.1 }, r.1))

  -- `send_draft`
  unfoldable pub send_draft : Option String → String → ℕ → String → Exec SendResult
  unfolding stream_request
  send_draft dispatch chat_id draft_id content w =
      let r = stream_request dispatch chat_id content false w in
      (record { success = r.0.0; message_id = some (show_nat draft_id); error = r.0.1 }, r.1)

  -- `send_typing`
  unfoldable pub send_typing : String → Exec (Unit {0})
  send_typing chat_id w =
      elim (or_else (Dict.get w.adapter.active_handles chat_id) (peek_callback w.adapter chat_id)) [
        | none ↦ (tt, w)
        | some handle ↦
            (let touched : World = record w { adapter = touch_activity handle w.adapter } in
              if uses_callback handle && not (callback_is_usable host.allowed handle)
              then (tt, touched)
              else (
                tt,
                (deliver_progress host handle
                    (build_status_payload handle.task_id handle.session_id "typing"
                      handle.user_message_id w.adapter.iso_now)
                    touched).1,
              ))
      ]

  -- `interrupt_session_activity`
  unfoldable pub interrupt_session_activity : String → Exec (Unit {0})
  interrupt_session_activity chat_id w = elim (peek_callback w.adapter chat_id) [
    | none ↦ (tt, w)
    | some handle ↦ (
      tt,
      (terminate host handle
          (build_status_payload handle.task_id handle.session_id "silent" handle.user_message_id
            w.adapter.iso_now)
          w).1,
    )
  ]

  -- `_flush_reasoning_reply`
  unfoldable pub flush_reasoning_reply : CallbackHandle → Exec (Unit {0})
  flush_reasoning_reply handle w =
      let a = w.adapter in
      let taken =
        ReasoningBuffer.take_flush a.reasoning_pending handle (marks_of handle a).terminated
          a.iso_now in
      let w₁ : World = record w { adapter = record a { reasoning_pending = taken.0 } } in
      elim taken.1 [
        | none ↦ (tt, w₁)
        | some payload ↦
            (let r = deliver_reply host handle payload w₁ in
              let failure =
                build_errored_payload handle.task_id handle.session_id handle.user_message_id
                  "callback_failed" "buffered reasoning reply could not be delivered"
                  r.1.adapter.iso_now in
              if r.0
              then modify
                  (λ b.
                    put_idem handle.task_id payload
                      (set_marks handle (λ m. record m { delivered = true }) b))
                  r.1
              else (tt, (terminate host handle failure r.1).1))
      ]
