-- ===== src/Listener/Repeats.antt =====
-- Requests to listener.py for a task that is known already.
use hermes_stagewhisper_plug.Prelude.{◌<◌, ◌≡◌, ◌∙◌, sym, inl, inr, true, false, none, some}
use hermes_stagewhisper_plug.Dict
use hermes_stagewhisper_plug.Json.{Members}
use hermes_stagewhisper_plug.Callbacks
use hermes_stagewhisper_plug.Callbacks.{CallbackHandle}
use hermes_stagewhisper_plug.Models.Event.{ValidatedEvent}
use hermes_stagewhisper_plug.Adapter.{Adapter, Host, World, marks_of}
use hermes_stagewhisper_plug.Adapter.Closed.{Keeps}
use hermes_stagewhisper_plug.Adapter.Termination.{terminate-result}
use hermes_stagewhisper_plug.Adapter.Evict.{accept_event-idem, accept_event-handles}
use hermes_stagewhisper_plug.Callbacks.Cache.{get_miss}
use hermes_stagewhisper_plug.Adapter.Turns.{terminate}
use hermes_stagewhisper_plug.Listener.{handle_task, status_response, duplicate_response}
use hermes_stagewhisper_plug.Listener.Routes.{handle_task-cases}

running :
    (a : Adapter) (event : ValidatedEvent)
    → (Callbacks.get a.idem event.task_id).1 ≡ none
    → Dict.has a.inflight event.task_id ≡ true
    → ((handle_task a event).dispatched ≡ none)
      × ((handle_task a event).response ≡ status_response 202 "in_flight" event.task_id)
unfolding handle_task
running a event c h = (rw (c, handle_task, h), rw (c, handle_task, h))

-- What the request leaves that started the turn.
started_leaves :
    (a : Adapter) (event : ValidatedEvent)
    → (Callbacks.get a.idem event.task_id).1 ≡ none
    → Dict.has a.inflight event.task_id ≡ false
    → ((handle_task a event).adapter.idem ≡ a.idem)
      × (Dict.has (handle_task a event).adapter.inflight event.task_id ≡ true)
unfolding handle_task
started_leaves a event c i =
    let looked : Adapter = record a { idem = (Callbacks.get a.idem event.task_id).0 } in
    (
      rw (c, handle_task, i) (accept_event-idem looked event ∙ get_miss a.idem event.task_id c),
      rw (c, handle_task, i) (accept_event-handles looked event).0,
    )

none_is_not-some : (event : ValidatedEvent) → none ≡ some event → ⊥
none_is_not-some event e = cc

-- Once a request has started a turn, a second request for the same task, whatever else it holds,
-- starts none and is answered 202 with "in_flight", if nothing changed between the two.
pub handle_task-again :
    (a : Adapter) (event again : ValidatedEvent)
    → again.task_id ≡ event.task_id
    → (handle_task a event).dispatched ≡ some event
    → ((handle_task (handle_task a event).adapter again).dispatched ≡ none)
      × ((handle_task (handle_task a event).adapter again).response
          ≡ status_response 202 "in_flight" again.task_id)
handle_task-again a event again same started = elim (handle_task-cases a event) [
  | inl (none_yet, _) ↦ absurd (none_is_not-some event (sym none_yet ∙ started))
  | inr (_, c, i) ↦
      (let (idem, inflight) = started_leaves a event c i in
        running (handle_task a event).adapter again (rw (idem, same) c) (rw same inflight))
]

duplicate :
    (a : Adapter) (event : ValidatedEvent) (result : Members)
    → (Callbacks.get a.idem event.task_id).1 ≡ some result
    → ((handle_task a event).dispatched ≡ none)
      × ((handle_task a event).response ≡ duplicate_response event.task_id result)
unfolding handle_task
duplicate a event result c = (rw (c, handle_task), rw (c, handle_task))

-- Once `_terminate` has delivered the last reply of a turn, a request for the task starts no turn
-- again and is answered 200 with that reply: the turn was not over before, and the other tasks
-- opened no closed turn again while it was delivered.
pub handle_task-ended :
    (host : Host) (handle : CallbackHandle) (payload : Members) (w : World) (event : ValidatedEvent)
    → handle.ident < w.adapter.next_handle
    → 0 < w.adapter.idem.capacity
    → Keeps handle (w.ahead 0).meanwhile
    → (marks_of handle w.adapter).terminated ≡ false
    → (terminate host handle payload w).0 ≡ true
    → event.task_id ≡ handle.task_id
    → ((handle_task (terminate host handle payload w).1.adapter event).dispatched ≡ none)
      × ((handle_task (terminate host handle payload w).1.adapter event).response
          ≡ duplicate_response event.task_id payload)
handle_task-ended host handle payload w event known remembers keeps runs delivered same =
    let r = terminate-result host handle payload w known remembers keeps runs in
    duplicate (terminate host handle payload w).1.adapter event payload (rw same (r.1 delivered))
