-- ===== src/Adapter/Closed.antt =====
-- adapter.py: what opens no closed turn again.
use hermes_stagewhisper_plug.Prelude.{
  ◌<◌, ◌≡◌, String, Bool, true, false, eqb_iff, arith, Option-cases, Bool-cases, inl, inr,
}
use hermes_stagewhisper_plug.Dict
use hermes_stagewhisper_plug.Dict.{Dict}
use hermes_stagewhisper_plug.Json.{Members}
use hermes_stagewhisper_plug.Callbacks
use hermes_stagewhisper_plug.Callbacks.{CallbackHandle, uses_callback, callback_is_usable}
use hermes_stagewhisper_plug.Streams.Operations.{capture_durable}
use hermes_stagewhisper_plug.Adapter.Evict.{accept_event-idem, accept_event-marks}
use hermes_stagewhisper_plug.Models.Event.{ValidatedEvent}
use hermes_stagewhisper_plug.Adapter.{Adapter, marks_of, set_marks, retain_reply}
use hermes_stagewhisper_plug.Adapter.Turns.{
  terminated_mark, drop_handle, release_task, signal_done, put_idem, begin_termination,
  end_termination, accept_event,
}

-- A handle that the adapter made, of a turn that is over.
pub record IsClosed (handle : CallbackHandle) (a : Adapter) : Type 0 where
  pub known : handle.ident < a.next_handle
  pub terminated : (marks_of handle a).terminated ≡ true
  pub remembers : 0 < a.idem.capacity

-- What other tasks do while a delivery waits: they open no closed turn again.
abbrev pub Keeps : CallbackHandle → (Adapter → Adapter) → Type 0
Keeps handle f = (a : Adapter) → IsClosed handle a → IsClosed handle (f a)

pub put-capacity :
    (c : Callbacks.IdempotencyCache) (k : String) (v : Members)
    → (Callbacks.put c k v).capacity ≡ c.capacity
unfolding Callbacks.put
put-capacity c k v = ground arith

pub drop_handle-IsClosed :
    (handle other : CallbackHandle) (a : Adapter)
    → IsClosed handle a
    → IsClosed handle (drop_handle other a)
unfolding drop_handle
drop_handle-IsClosed handle other a c = elim (Option-cases (Dict.get a.callbacks other.chat_id)) [
  | inl e ↦ rw (e, drop_handle) c
  | inr (queue, e) ↦
      rw (e, drop_handle)
        (record { known = c.known; terminated = c.terminated; remembers = c.remembers })
]

pub release_task-IsClosed :
    (handle other : CallbackHandle) (a : Adapter)
    → IsClosed handle a
    → IsClosed handle (release_task other a)
unfolding release_task
release_task-IsClosed handle other a c =
    let d = drop_handle-IsClosed handle other a c in
    record { known = d.known; terminated = d.terminated; remembers = d.remembers }

pub end_termination-IsClosed :
    (handle other : CallbackHandle) (payload : Members) (ok : Bool) (a : Adapter)
    → IsClosed handle a
    → IsClosed handle (end_termination other payload ok a)
unfolding end_termination signal_done put_idem
end_termination-IsClosed handle other payload true a c = record {
  known = c.known;
  terminated = c.terminated;
  remembers = rw (put-capacity a.idem other.task_id payload) c.remembers;
}
end_termination-IsClosed handle other payload false a c = record {
  known = c.known;
  terminated = c.terminated;
  remembers = c.remembers;
}

pub set_terminated-IsClosed :
    (handle other : CallbackHandle) (a : Adapter)
    → IsClosed handle a
    → IsClosed handle (set_marks other terminated_mark a)
unfolding set_marks
set_terminated-IsClosed handle other a c = record {
  known = c.known;
  terminated = ground (arith, c.terminated);
  remembers = c.remembers;
}

-- The end of any other turn, and the start of one, open no closed turn again.
pub begin_termination-IsClosed :
    (handle other : CallbackHandle) → Keeps handle (begin_termination other)
unfolding begin_termination
begin_termination-IsClosed handle other a c =
    release_task-IsClosed handle other (set_marks other terminated_mark a)
      (set_terminated-IsClosed handle other a c)

-- A turn that begins to end is closed.
pub begin-IsClosed :
    (handle : CallbackHandle) (a : Adapter)
    → handle.ident < a.next_handle
    → 0 < a.idem.capacity
    → IsClosed handle (begin_termination handle a)
unfolding begin_termination
begin-IsClosed handle a known remembers =
    release_task-IsClosed handle handle (set_marks handle terminated_mark a) (
      unfold set_marks in
      record {
        known = known;
        terminated = ground (arith, eqb_iff handle.ident handle.ident);
        remembers = remembers;
      })

-- An event that is accepted gets a handle of its own.
pub accept_event-IsClosed :
    (handle : CallbackHandle) (event : ValidatedEvent)
    → Keeps handle (λ a. (accept_event a event).0)
accept_event-IsClosed handle event a c =
    let (same, next) = accept_event-marks a event handle.ident c.known in
    record {
      known = rw next (omega (arith, c.known));
      terminated = rw same c.terminated;
      remembers = rw accept_event-idem c.remembers;
    }

pub retained-IsClosed :
    (handle : CallbackHandle) (payload : Members) (a : Adapter)
    → IsClosed handle a
    → IsClosed handle (retain_reply handle payload a).1
unfolding retain_reply
retained-IsClosed handle payload a c =
    elim (Bool-cases (capture_durable a.clock a.streams handle.session_id payload).1) [
      | inl e ↦
          rw (e, retain_reply)
            (record { known = c.known; terminated = c.terminated; remembers = c.remembers })
      | inr e ↦
          rw (e, retain_reply)
            (record { known = c.known; terminated = c.terminated; remembers = c.remembers })
    ]
