-- ===== src/Adapter/Disconnect/Open.antt =====
-- adapter.py: the tasks whose turn `disconnect` has to end, and what ends it for good.
use hermes_stagewhisper_plug.Prelude.{
  ℕ, suc, ◌≡◌, refl, ◌∙◌, inl, inr, String, Bool, true, false, not, ◌||◌, none, some, ◌==◌, eqb,
  eqb_iff, if◌then◌else◌, Bool-cases, Option-cases,
}
use hermes_stagewhisper_plug.Dict
use hermes_stagewhisper_plug.Dict.{Dict}
use hermes_stagewhisper_plug.Dict.Laws.{get-remove}
use hermes_stagewhisper_plug.Json.{Members}
use hermes_stagewhisper_plug.Callbacks.{CallbackHandle, Marks, uses_callback}
use hermes_stagewhisper_plug.Streams.Operations.{capture_durable}
use hermes_stagewhisper_plug.Adapter.{
  Adapter, Host, World, marks_of, set_marks, retain_reply, post_reply, deliver_reply,
}
use hermes_stagewhisper_plug.Adapter.Turns.{
  terminated_mark, drop_handle, release_task, signal_done, put_idem, begin_termination,
  end_termination, terminate,
}
use hermes_stagewhisper_plug.Adapter.Termination.{terminate-over, terminate-runs}

abbrev open_in : Dict CallbackHandle → (ℕ → Marks) → String → Bool
open_in table marks task_id = elim (Dict.get table task_id) [
  | none ↦ false
  | some handle ↦ not ((marks handle.ident).terminated || (marks handle.ident).delivered)
]

-- The task has a turn that is neither terminated nor delivered.
abbrev pub is_open : Adapter → String → Bool
is_open a task_id = open_in a.task_callbacks a.marks task_id

pub is_open-none :
    (a : Adapter) (task_id : String)
    → Dict.get a.task_callbacks task_id ≡ none
    → is_open a task_id ≡ false
is_open-none a task_id e = rw (open_in, e) refl

pub is_open-found :
    (a : Adapter) (task_id : String) (handle : CallbackHandle)
    → Dict.get a.task_callbacks task_id ≡ some handle
    → is_open a task_id ≡ not ((marks_of handle a).terminated || (marks_of handle a).delivered)
is_open-found a task_id handle e = rw (open_in, e) refl

-- What opens no turn of a task that had none.
abbrev pub OpensNone : (Adapter → Adapter) → Type 0
OpensNone f =
    (a : Adapter) (task_id : String) → is_open a task_id ≡ false → is_open (f a) task_id ≡ false

abbrev pub OpensNoneAhead : World → Type 0
OpensNoneAhead w = (k : ℕ) → OpensNone (w.ahead k).meanwhile

open_in-remove :
    (table : Dict CallbackHandle) (marks : ℕ → Marks) (gone task_id : String)
    → open_in table marks task_id ≡ false
    → open_in (Dict.remove table gone) marks task_id ≡ false
open_in-remove table marks gone task_id h = elim (Bool-cases (gone == task_id)) [
  | inl e ↦ rw (open_in, get-remove, e) refl
  | inr e ↦ rw (open_in, get-remove, e) h
]

abbrev marked : ℕ → (ℕ → Marks) → ℕ → Marks
marked ident marks i = if eqb i ident then terminated_mark (marks i) else marks i

open_in-marked :
    (table : Dict CallbackHandle) (marks : ℕ → Marks) (ident : ℕ) (task_id : String)
    → open_in table marks task_id ≡ false
    → open_in table (marked ident marks) task_id ≡ false
open_in-marked table marks ident task_id h = elim (Option-cases (Dict.get table task_id)) [
  | inl e ↦ rw (open_in, e) refl
  | inr (handle, e) ↦ elim (Bool-cases (eqb handle.ident ident)) [
    | inl same ↦ rw (open_in, e, same) refl
    | inr other ↦ rw (open_in, e, other) (rw (open_in, e) at h)
  ]
]

-- The turn of the task itself is over once its handle is marked.
open_in-own :
    (table : Dict CallbackHandle) (marks : ℕ → Marks) (handle : CallbackHandle) (task_id : String)
    → Dict.get table task_id ≡ some handle
    → open_in table (marked handle.ident marks) task_id ≡ false
open_in-own table marks handle task_id e =
    let same : eqb handle.ident handle.ident ≡ true = (eqb_iff handle.ident handle.ident).1 refl in
    rw (open_in, e, same) refl

drop_handle-open :
    (handle : CallbackHandle) (a : Adapter) (task_id : String)
    → is_open (drop_handle handle a) task_id ≡ is_open a task_id
unfolding drop_handle
drop_handle-open handle a task_id = elim (Option-cases (Dict.get a.callbacks handle.chat_id)) [
  | inl e ↦ rw (drop_handle, e) refl
  | inr (queue, e) ↦ rw (drop_handle, e) refl
]

release_task-open :
    (handle : CallbackHandle) (a : Adapter) (task_id : String)
    → is_open a task_id ≡ false
    → is_open (release_task handle a) task_id ≡ false
unfolding release_task
release_task-open handle a task_id h =
    let d = drop_handle handle a in
    open_in-remove d.task_callbacks d.marks handle.task_id task_id
      (drop_handle-open handle a task_id ∙ h)

begin_termination-open : (handle : CallbackHandle) → OpensNone (begin_termination handle)
unfolding begin_termination set_marks
begin_termination-open handle a task_id h =
    release_task-open handle (set_marks handle terminated_mark a) task_id
      (open_in-marked a.task_callbacks a.marks handle.ident task_id h)

begin_termination-own :
    (handle : CallbackHandle) (a : Adapter) (task_id : String)
    → Dict.get a.task_callbacks task_id ≡ some handle
    → is_open (begin_termination handle a) task_id ≡ false
unfolding begin_termination set_marks
begin_termination-own handle a task_id e =
    release_task-open handle (set_marks handle terminated_mark a) task_id
      (open_in-own a.task_callbacks a.marks handle task_id e)

end_termination-open :
    (handle : CallbackHandle) (payload : Members) (ok : Bool)
    → OpensNone (end_termination handle payload ok)
unfolding end_termination signal_done put_idem
end_termination-open handle payload true a task_id h = h
end_termination-open handle payload false a task_id h = h

retain_reply-open :
    (handle : CallbackHandle) (payload : Members)
    → OpensNone (λ a. (retain_reply handle payload a).1)
unfolding retain_reply
retain_reply-open handle payload a task_id h =
    elim (Bool-cases (capture_durable a.clock a.streams handle.session_id payload).1) [
      | inl e ↦ rw (retain_reply, e) h
      | inr e ↦ rw (retain_reply, e) h
    ]

module _ (host : Host) (handle : CallbackHandle) (payload : Members) (w : World)
    (ahead : OpensNoneAhead w) where
  deliver_reply-open :
      (task_id : String)
      → is_open w.adapter task_id ≡ false
      → is_open (deliver_reply host handle payload w).1.adapter task_id ≡ false
  unfolding deliver_reply post_reply
  deliver_reply-open task_id h = elim (Bool-cases (uses_callback handle)) [
    | inl e ↦ rw (deliver_reply, e) (ahead 0 w.adapter task_id h)
    | inr e ↦ rw (deliver_reply, e) (retain_reply-open handle payload w.adapter task_id h)
  ]

  deliver_reply-ahead : OpensNoneAhead (deliver_reply host handle payload w).1
  unfolding deliver_reply post_reply
  deliver_reply-ahead k = elim (Bool-cases (uses_callback handle)) [
    | inl e ↦ rw (deliver_reply, e) (ahead (suc k))
    | inr e ↦ rw (deliver_reply, e) (ahead k)
  ]

module _ (host : Host) (handle : CallbackHandle) (payload : Members) (w : World)
    (ahead : OpensNoneAhead w) where
  begun : World
  begun = record w { adapter = begin_termination handle w.adapter }

  -- `_terminate`, of a task that is not open once its handle is marked.
  terminate_from :
      (task_id : String)
      → (marks_of handle w.adapter).terminated ≡ false
      → is_open (begin_termination handle w.adapter) task_id ≡ false
      → is_open (terminate host handle payload w).1.adapter task_id ≡ false
  unfolding begun
  terminate_from task_id runs h =
      let r = deliver_reply host handle payload begun in
      rw (terminate-runs host handle payload w runs) (
        end_termination-open handle payload r.0 r.1.adapter task_id
          (deliver_reply-open host handle payload begun ahead task_id h))

  pub terminate-open :
      (task_id : String)
      → is_open w.adapter task_id ≡ false
      → is_open (terminate host handle payload w).1.adapter task_id ≡ false
  terminate-open task_id h = elim (Bool-cases (marks_of handle w.adapter).terminated) [
    | inl over ↦ rw (terminate-over host handle payload w over) h
    | inr runs ↦ terminate_from task_id runs (begin_termination-open handle w.adapter task_id h)
  ]

  pub terminate-own :
      (task_id : String)
      → Dict.get w.adapter.task_callbacks task_id ≡ some handle
      → (marks_of handle w.adapter).terminated ≡ false
      → is_open (terminate host handle payload w).1.adapter task_id ≡ false
  terminate-own task_id e runs =
      terminate_from task_id runs (begin_termination-own handle w.adapter task_id e)

  pub terminate-ahead : OpensNoneAhead (terminate host handle payload w).1
  unfolding begun
  terminate-ahead k = elim (Bool-cases (marks_of handle w.adapter).terminated) [
    | inl over ↦ rw (terminate-over host handle payload w over) (ahead k)
    | inr runs ↦
        rw (terminate-runs host handle payload w runs)
          (deliver_reply-ahead host handle payload begun ahead k)
  ]
