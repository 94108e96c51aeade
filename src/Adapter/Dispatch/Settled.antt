-- ===== src/Adapter/Dispatch/Settled.antt =====
-- What a turn leaves of itself in the adapter of adapter.py once its `_dispatch` is over.
use hermes_stagewhisper_plug.Prelude.{
  ◌<◌, ◌≡◌, refl, ◌∙◌, String, Bool, true, false, none, inl, inr, eq_iff, arith, Bool-cases,
  Option-cases, if◌then◌else◌,
}
use hermes_stagewhisper_plug.Dict
use hermes_stagewhisper_plug.Dict.{Dict}
use hermes_stagewhisper_plug.Dict.Laws.{get-remove}
use hermes_stagewhisper_plug.Json.{Members}
use hermes_stagewhisper_plug.Callbacks
use hermes_stagewhisper_plug.Callbacks.{CallbackHandle, uses_callback}
use hermes_stagewhisper_plug.Callbacks.Cache.{put-contains}
use hermes_stagewhisper_plug.Adapter.{
  Adapter, Host, World, marks_of, set_marks, retain_reply, post_reply, deliver_reply,
}
use hermes_stagewhisper_plug.Adapter.Closed.{put-capacity}
use hermes_stagewhisper_plug.DraftStream
use hermes_stagewhisper_plug.ReasoningBuffer
use hermes_stagewhisper_plug.Adapter.Turns.{
  drop_handle, signal_done, put_idem, terminated_mark, release_task, begin_termination,
}
use hermes_stagewhisper_plug.Adapter.Dispatch.{
  DispatchEnd, completed, timed_out, failed, fail_dispatch, is_handle, leave_dispatch,
  finish_dispatch, except_dispatch, end_dispatch,
}

-- The turn is over for its requests, for its client's retries and for the chat.
pub record IsSettled (handle : CallbackHandle) (a : Adapter) : Type 0 where
  pub not_inflight : Dict.has a.inflight handle.task_id ≡ false
  pub answered :
      (marks_of handle a).terminated ≡ false → Callbacks.contains a.idem handle.task_id ≡ true
  pub not_active : is_handle handle (Dict.get a.active_handles handle.chat_id) ≡ false
  pub no_chunks : Dict.get a.stream_chunks handle.task_id ≡ none
  pub no_reasoning : Dict.get a.reasoning_pending.pending handle.task_id ≡ none

-- What `_drop_handle` leaves alone.
pub record SameRest (a b : Adapter) : Type 0 where
  pub idem : b.idem ≡ a.idem
  pub marks : b.marks ≡ a.marks
  pub active_handles : b.active_handles ≡ a.active_handles
  pub stream_chunks : b.stream_chunks ≡ a.stream_chunks
  pub reasoning_pending : b.reasoning_pending ≡ a.reasoning_pending

pub drop_handle-SameRest :
    (handle : CallbackHandle) (a : Adapter) → SameRest a (drop_handle handle a)
unfolding drop_handle
drop_handle-SameRest handle a = elim (Option-cases (Dict.get a.callbacks handle.chat_id)) [
  | inl e ↦
      rw (e, drop_handle)
        (record {
          idem = refl;
          marks = refl;
          active_handles = refl;
          stream_chunks = refl;
          reasoning_pending = refl;
        })
  | inr (queue, e) ↦
      rw (e, drop_handle)
        (record {
          idem = refl;
          marks = refl;
          active_handles = refl;
          stream_chunks = refl;
          reasoning_pending = refl;
        })
]

get-remove_self : {V : Type 0} (d : Dict V) (k : String) → Dict.get (Dict.remove d k) k ≡ none
get-remove_self d k = get-remove d k k ∙ ground (arith, eq_iff k k)

has-remove_self : {V : Type 0} (d : Dict V) (k : String) → Dict.has (Dict.remove d k) k ≡ false
unfolding Dict.has
has-remove_self d k = rw (get-remove_self d k, Dict.has) refl

leave_dispatch-answered :
    (handle : CallbackHandle) (a : Adapter)
    → 0 < a.idem.capacity
    → (marks_of handle a).terminated ≡ false
    → Callbacks.contains (leave_dispatch handle a).idem handle.task_id ≡ true
unfolding leave_dispatch
leave_dispatch-answered handle a pos runs =
    elim (Bool-cases (Callbacks.contains a.idem handle.task_id)) [
      | inl held ↦ rw (runs, held) held
      | inr missing ↦ rw (runs, missing) (put-contains a.idem handle.task_id _ pos)
    ]

leave_dispatch-active :
    (handle : CallbackHandle) (a : Adapter)
    → is_handle handle (Dict.get (leave_dispatch handle a).active_handles handle.chat_id) ≡ false
unfolding leave_dispatch
leave_dispatch-active handle a =
    elim (Bool-cases (is_handle handle (Dict.get a.active_handles handle.chat_id))) [
      | inl e ↦ rw e (rw (get-remove_self a.active_handles handle.chat_id) refl)
      | inr e ↦ rw e e
    ]

pub finish_dispatch-IsSettled :
    (handle : CallbackHandle) (a : Adapter)
    → 0 < a.idem.capacity
    → IsSettled handle (finish_dispatch handle a)
unfolding finish_dispatch signal_done
finish_dispatch-IsSettled handle a pos =
    let rest = drop_handle-SameRest handle (leave_dispatch handle a) in
    record {
      not_inflight =
          has-remove_self (drop_handle handle (leave_dispatch handle a)).inflight handle.task_id;
      answered = λ runs.
          rw rest.idem
            (leave_dispatch-answered handle a pos (unfold leave_dispatch in rw rest.marks at runs));
      not_active = rw rest.active_handles (leave_dispatch-active handle a);
      no_chunks = rw rest.stream_chunks (
          unfold leave_dispatch DraftStream.discard in
          get-remove_self a.stream_chunks handle.task_id);
      no_reasoning = rw rest.reasoning_pending (
          unfold leave_dispatch ReasoningBuffer.discard in
          get-remove_self a.reasoning_pending.pending handle.task_id);
    }

-- What other tasks do while the error is delivered leaves the cache able to hold an entry.
abbrev pub KeepsCapacity : (Adapter → Adapter) → Type 0
KeepsCapacity f = (a : Adapter) → 0 < a.idem.capacity → 0 < (f a).idem.capacity

pub begin_termination-idem :
    (handle : CallbackHandle) (a : Adapter) → (begin_termination handle a).idem ≡ a.idem
unfolding begin_termination release_task set_marks
begin_termination-idem handle a =
    (drop_handle-SameRest handle (set_marks handle terminated_mark a)).idem

pub retain_reply-idem :
    (handle : CallbackHandle) (payload : Members) (a : Adapter)
    → (retain_reply handle payload a).1.idem ≡ a.idem
unfolding retain_reply
retain_reply-idem handle payload a = ground arith

module _ (host : Host) (handle : CallbackHandle) where
  deliver_capacity :
      (payload : Members) (w : World)
      → 0 < w.adapter.idem.capacity
      → KeepsCapacity (w.ahead 0).meanwhile
      → 0 < (deliver_reply host handle payload w).1.adapter.idem.capacity
  unfolding deliver_reply post_reply
  deliver_capacity payload w pos keeps = elim (Bool-cases (uses_callback handle)) [
    | inl e ↦ rw (e, deliver_reply) (keeps w.adapter pos)
    | inr e ↦ rw (e, deliver_reply) (rw retain_reply-idem pos)
  ]

  put_if_capacity :
      (ok : Bool) (payload : Members) (a : Adapter)
      → 0 < a.idem.capacity
      → 0 < (if ok then put_idem handle.task_id payload a else a).idem.capacity
  unfolding put_idem
  put_if_capacity true payload a pos = rw put-capacity pos
  put_if_capacity false payload a pos = pos

  fail_capacity :
      (payload : Members) (w : World)
      → 0 < w.adapter.idem.capacity
      → KeepsCapacity (w.ahead 0).meanwhile
      → 0 < (fail_dispatch host handle payload w).1.adapter.idem.capacity
  unfolding fail_dispatch
  fail_capacity payload w pos keeps = elim (Bool-cases (marks_of handle w.adapter).terminated) [
    | inl over ↦ rw (over, fail_dispatch) pos
    | inr runs ↦
        (let begun : World = record w { adapter = begin_termination handle w.adapter } in
          let r = deliver_reply host handle payload begun in
          rw (runs, fail_dispatch)
            (put_if_capacity r.0 payload r.1.adapter
              (deliver_capacity payload begun (rw begin_termination-idem pos) keeps)))
  ]

  except_capacity :
      (end : DispatchEnd) (w : World)
      → 0 < w.adapter.idem.capacity
      → KeepsCapacity (w.ahead 0).meanwhile
      → 0 < (except_dispatch host handle end w).1.adapter.idem.capacity
  unfolding except_dispatch
  except_capacity completed w pos keeps = pos
  except_capacity timed_out w pos keeps = fail_capacity _ w pos keeps
  except_capacity (failed text) w pos keeps = fail_capacity _ w pos keeps

-- However the `try` block of a dispatch ended, once the dispatch is over its task is not in
-- flight, its handle is not active for its chat, no draft and no buffered reasoning reply is held
-- for the task, and a turn that was not terminated is answered by the idempotency cache. The
-- cache can hold an entry, and the tasks that run meanwhile leave it so.
pub end_dispatch-IsSettled :
    (host : Host) (handle : CallbackHandle) (end : DispatchEnd) (w : World)
    → 0 < w.adapter.idem.capacity
    → KeepsCapacity (w.ahead 0).meanwhile
    → IsSettled handle (end_dispatch host handle end w).1.adapter
unfolding end_dispatch
end_dispatch-IsSettled host handle end w pos keeps =
    finish_dispatch-IsSettled handle (except_dispatch host handle end w).1.adapter
      (except_capacity host handle end w pos keeps)
