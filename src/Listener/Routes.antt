-- ===== src/Listener/Routes.antt =====
-- What a request to listener.py can do, and what it cannot.
use hermes_stagewhisper_plug.Prelude.{
  ℕ, ◌≤◌, ◌≡◌, refl, ap, ◌⊎◌, inl, inr, String, Bool, true, false, Option, none, some, List, ltb,
  not-ltb→le, arith, Option-cases, Bool-cases,
}
use hermes_stagewhisper_plug.Dict
use hermes_stagewhisper_plug.Json.{Json}
use hermes_stagewhisper_plug.Callbacks
use hermes_stagewhisper_plug.Callbacks.{CallbackHandle}
use hermes_stagewhisper_plug.Models.Event.{
  ValidatedEvent, Reason, transcript_chunk, chat_message, system_prelude,
}
use hermes_stagewhisper_plug.Models.Validate.{
  Validation, accepted, rejected, type_error, validate_incoming,
}
use hermes_stagewhisper_plug.Adapter.{Adapter}
use hermes_stagewhisper_plug.Listener.{
  Body, read_timeout, read, Request, max_body_bytes, peer_is_loopback, host_header_ok,
  bearer_matches, guard, Handled, stash_prelude, is_true, handle_task, handle_event, handle_body,
  handle_incoming,
}

-- The tables of the turns are as they were.
pub record SameTurns (a b : Adapter) : Type 0 where
  pub callbacks : b.callbacks ≡ a.callbacks
  pub task_callbacks : b.task_callbacks ≡ a.task_callbacks
  pub inflight : b.inflight ≡ a.inflight
  pub next_handle : b.next_handle ≡ a.next_handle

-- What an event must be for a turn to start.
pub record IsDispatchable (a : Adapter) (event : ValidatedEvent) : Type 0 where
  pub final :
      (event.reason ≡ transcript_chunk × (event.is_final ≡ some true))
      ⊎ (event.reason ≡ chat_message)
  pub not_cached : (Callbacks.get a.idem event.task_id).1 ≡ none
  pub not_inflight : Dict.has a.inflight event.task_id ≡ false

pub handle_task-cases :
    (a : Adapter) (event : ValidatedEvent)
    → (((handle_task a event).dispatched ≡ none) × SameTurns a (handle_task a event).adapter)
      ⊎ (((handle_task a event).dispatched ≡ some event)
          × ((Callbacks.get a.idem event.task_id).1 ≡ none)
          × (Dict.has a.inflight event.task_id ≡ false))
unfolding handle_task
handle_task-cases a event = elim (Option-cases (Callbacks.get a.idem event.task_id).1) [
  | inr (v, e) ↦ inl (
    rw (e, handle_task),
    rw (e, handle_task)
        (record { callbacks = refl; task_callbacks = refl; inflight = refl; next_handle = refl }),
  )
  | inl e ↦ elim (Bool-cases (Dict.has a.inflight event.task_id)) [
    | inl h ↦ inl (
      rw (e, handle_task, h),
      rw (e, handle_task, h)
          (record { callbacks = refl; task_callbacks = refl; inflight = refl; next_handle = refl }),
    )
    | inr h ↦ inr (rw (e, handle_task, h), e, h)
  ]
]

abbrev Outcome : Adapter → ValidatedEvent → Handled → Type 0
Outcome a event h =
    ((h.dispatched ≡ none) × SameTurns a h.adapter)
    ⊎ ((h.dispatched ≡ some event) × IsDispatchable a event)

task-Outcome :
    (a : Adapter) (event : ValidatedEvent)
    → (event.reason ≡ transcript_chunk × (event.is_final ≡ some true))
      ⊎ (event.reason ≡ chat_message)
    → Outcome a event (handle_task a event)
task-Outcome a event final = elim (handle_task-cases a event) [
  | inl none_same ↦ inl none_same
  | inr (d, c, i) ↦ inr (d, record { final = final; not_cached = c; not_inflight = i })
]

is_true→some : (o : Option Bool) → is_true o ≡ true → o ≡ some true
is_true→some none h = cc
is_true→some (some b) h = ap some h

unchanged : (a : Adapter) → SameTurns a a
unchanged a = record {
  callbacks = refl;
  task_callbacks = refl;
  inflight = refl;
  next_handle = refl;
}

event-Outcome :
    (a : Adapter) (event : ValidatedEvent) (reason : Reason)
    → event.reason ≡ reason
    → Outcome a event (handle_event a event reason)
unfolding handle_event
event-Outcome a event system_prelude h =
    unfold stash_prelude in
    inl (
      refl,
      record { callbacks = refl; task_callbacks = refl; inflight = refl; next_handle = refl },
    )
event-Outcome a event chat_message h = task-Outcome a event (inr h)
event-Outcome a event transcript_chunk h = elim (Bool-cases (is_true event.is_final)) [
  | inl e ↦ rw (e, handle_event) (task-Outcome a event (inl (h, is_true→some event.is_final e)))
  | inr e ↦ rw (e, handle_event) (inl (refl, unchanged a))
]

-- The request that started a turn.
pub record Started (hosts : List String) (token : String) (allowed : String → Bool) (a : Adapter)
    (r : Request) (event : ValidatedEvent) : Type 0 where
  pub loopback : peer_is_loopback r ≡ true
  pub host : host_header_ok hosts r ≡ true
  pub bearer : bearer_matches token r ≡ true
  pub size : ℕ
  pub json : Json
  pub body : r.body ≡ read size (some json)
  pub fits : size ≤ max_body_bytes
  pub valid : validate_incoming allowed json ≡ accepted event
  pub dispatchable : IsDispatchable a event

Validation-cases :
    (v : Validation)
    → ((event : ValidatedEvent) × (v ≡ accepted event))
      ⊎ (((detail : String) × (v ≡ rejected detail)) ⊎ (v ≡ type_error))
Validation-cases (accepted event) = inl (event, refl)
Validation-cases (rejected detail) = inr (inl (detail, refl))
Validation-cases type_error = inr (inr refl)

guard-none :
    (hosts : List String) (token : String) (r : Request)
    → guard hosts token r ≡ none
    → (peer_is_loopback r ≡ true)
      × (host_header_ok hosts r ≡ true)
      × (bearer_matches token r ≡ true)
unfolding guard
guard-none hosts token r h = ground arith

module _ (hosts : List String) (token : String) (allowed : String → Bool) (a : Adapter) where
  abbrev pub Answer : Request → Handled → Type 0
  Answer r h =
      ((h.dispatched ≡ none) × SameTurns a h.adapter)
      ⊎ ((event : ValidatedEvent) × (h.dispatched ≡ some event)
          × Started hosts token allowed a r event)

  body-Answer :
      (r : Request) (b : Body)
      → r.body ≡ b
      → guard hosts token r ≡ none
      → Answer r (handle_body allowed a b)
  unfolding handle_body
  body-Answer r read_timeout e g = inl (refl, unchanged a)
  body-Answer r (read size none) e g = elim (Bool-cases (ltb max_body_bytes size)) [
    | inl t ↦ rw (t, handle_body) (inl (refl, unchanged a))
    | inr t ↦ rw (t, handle_body) (inl (refl, unchanged a))
  ]
  body-Answer r (read size (some json)) e g = elim (Bool-cases (ltb max_body_bytes size)) [
    | inl t ↦ rw (t, handle_body) (inl (refl, unchanged a))
    | inr t ↦
        rw (t, handle_body)
          (elim (Validation-cases (validate_incoming allowed json)) [
            | inl (event, v) ↦ rw v (elim (event-Outcome a event event.reason refl) [
              | inl same ↦ inl same
              | inr (d, ok) ↦
                  (let (l, h, b) = guard-none hosts token r g in
                    inr (
                      event,
                      d,
                      record {
                        loopback = l;
                        host = h;
                        bearer = b;
                        size = size;
                        json = json;
                        body = e;
                        fits = not-ltb→le max_body_bytes size t;
                        valid = v;
                        dispatchable = ok;
                      },
                    ))
            ])
            | inr (inl (detail, v)) ↦ rw v (inl (refl, unchanged a))
            | inr (inr v) ↦ rw v (inl (refl, unchanged a))
          ])
  ]

  -- A request starts a turn only if it comes from a loopback peer with an accepted host and the
  -- bearer token, its body fits and is JSON that validates to the event, the event is a chat
  -- message or a final transcript chunk, and its task is neither answered nor running. Any other
  -- request, whatever its answer, leaves the tables of the turns as they were.
  pub handle_incoming-Answer : (r : Request) → Answer r (handle_incoming hosts token allowed a r)
  unfolding handle_incoming
  handle_incoming-Answer r = elim (Option-cases (guard hosts token r)) [
    | inl e ↦ rw (e, handle_incoming) (body-Answer r r.body refl e)
    | inr (d, e) ↦ rw (e, handle_incoming) (inl (refl, unchanged a))
  ]
