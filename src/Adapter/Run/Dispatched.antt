-- ===== src/Adapter/Run/Dispatched.antt =====
-- adapter.py: a whole `_dispatch` runs to its end.
use hermes_stagewhisper_plug.Prelude.{
  ◌≡◌, refl, ◌∙◌, Bool, true, false, not, ◌&&◌, inl, inr, Option, some, Bool-cases, Option-cases,
  if◌then◌else◌,
}
use hermes_stagewhisper_plug.Callbacks.{CallbackHandle, uses_callback, callback_is_usable}
use hermes_stagewhisper_plug.Models.Event.{ValidatedEvent}
use hermes_stagewhisper_plug.ReasoningBuffer
use hermes_stagewhisper_plug.Adapter.{Adapter, Host, World, marks_of, set_marks, deliver_reply}
use hermes_stagewhisper_plug.Adapter.Dispatch.{
  timed_out, failed, consume_prelude, emit_typing, finish_dispatch, end_dispatch,
}
use hermes_stagewhisper_plug.Adapter.Dispatch.Settled.{IsSettled, finish_dispatch-IsSettled}
use hermes_stagewhisper_plug.Adapter.Drafts.{flush_reasoning_reply}
use hermes_stagewhisper_plug.Adapter.Settle.{Sleeping}
use hermes_stagewhisper_plug.Adapter.Settle.Ends.{Sleeps}
use hermes_stagewhisper_plug.Adapter.Run.{
  AgentEnd, answered, hard_timeout, agent_failed, Gateway, message_for, start_dispatch,
  before_agent, after_agent, dispatch,
}
use hermes_stagewhisper_plug.Adapter.Run.Fair.{
  IsKnown, IsOver, FairAhead, FairStep, IsFair-refl, FairStep-trans, set_marks-Fair, put_idem-Fair,
  deliver_step, progress_step, terminate_step,
}
use hermes_stagewhisper_plug.Adapter.Run.Ends.{
  FairSleeping, FairGateway, IsLeft, failed_end, completed_end, settle_closes,
}

module _ (host : Host) (handle : CallbackHandle) (w : World) (k : IsKnown handle w.adapter)
    (ahead : FairAhead handle w) where
  -- `_flush_reasoning_reply` keeps the handle known.
  flush-IsKnown : IsKnown handle (flush_reasoning_reply host handle w).1.adapter
  unfolding flush_reasoning_reply
  flush-IsKnown =
      let a = w.adapter in
      let taken =
        ReasoningBuffer.take_flush a.reasoning_pending handle (marks_of handle a).terminated
          a.iso_now in
      let held : World = record w { adapter = record a { reasoning_pending = taken.0 } } in
      let heldk : IsKnown handle held.adapter = record {
        known = k.known;
        remembers = k.remembers;
      } in
      elim (Option-cases taken.1) [
        | inl e ↦ rw (e, flush_reasoning_reply) heldk
        | inr (payload, e) ↦
            (let step = deliver_step host handle payload held heldk ahead in
              let r = deliver_reply host handle payload held in
              elim (Bool-cases r.0) [
                | inl ok ↦
                    rw (e, ok, flush_reasoning_reply)
                      (put_idem-Fair handle handle.task_id payload
                        (set_marks handle (λ m. record m { delivered = true }) r.1.adapter)
                        (set_marks-Fair handle handle (λ m. record m { delivered = true })
                          (λ _. refl) r.1.adapter step.adapter.known).known).known
                | inr bad ↦
                    rw (e, bad, flush_reasoning_reply)
                      (terminate_step host handle _ r.1 step.adapter.known step.ahead).adapter.known
              ])
      ]

  -- The typing before the agent is asked.
  typing_step : FairStep handle w (emit_typing host handle w).1
  unfolding emit_typing
  typing_step =
      elim (Bool-cases (uses_callback handle && not (callback_is_usable host.allowed handle))) [
        | inl e ↦
            rw (e, emit_typing) (record { adapter = IsFair-refl handle w.adapter k; ahead = ahead })
        | inr e ↦ rw (e, emit_typing) (progress_step host handle _ w k ahead)
      ]

before_step :
    (host : Host) (handle : CallbackHandle) (w : World)
    → IsKnown handle w.adapter
    → FairAhead handle w
    → FairStep handle w (before_agent host handle w)
unfolding before_agent
before_step host handle w k ahead =
    let touched : World = record w {
      adapter = set_marks handle (λ m. record m { last_activity_at = w.adapter.clock }) w.adapter;
    } in
    let marked =
      set_marks-Fair handle handle (λ m. record m { last_activity_at = w.adapter.clock })
        (λ _. refl) w.adapter k in
    FairStep-trans handle w touched (before_agent host handle w)
      (record { adapter = marked; ahead = ahead })
      (typing_step host handle touched marked.known ahead)

started-IsKnown :
    (event : ValidatedEvent) (handle : CallbackHandle) (a : Adapter)
    → IsKnown handle a
    → IsKnown handle (start_dispatch event handle a).1
unfolding start_dispatch consume_prelude
started-IsKnown event handle a k = record { known = k.known; remembers = k.remembers }

if_true : {A : Type 0} → (b : Bool) (x y : A) → b ≡ true → (if b then x else y) ≡ x
if_true b x y e = rw e refl

if_false : {A : Type 0} → (b : Bool) (x y : A) → b ≡ false → (if b then x else y) ≡ y
if_false b x y e = rw e refl

-- What `_dispatch` leaves after the agent, where the turn is over unless it is one of reasoning.
abbrev Leaves : CallbackHandle → Option World → Type 0
Leaves handle out = (v : World) × (out ≡ some v) × IsLeft handle v (handle.is_reasoning ≡ false)

after_agent-ends :
    (asleep : Sleeping) (host : Host) (handle : CallbackHandle) (end : AgentEnd) (w : World)
    → IsKnown handle w.adapter
    → FairAhead handle w
    → FairSleeping handle asleep
    → Sleeps asleep
    → Leaves handle (after_agent asleep host handle end w)
unfolding after_agent
after_agent-ends asleep host handle hard_timeout w k ahead fair long =
    (_, refl, failed_end host handle timed_out w _ (λ e. cc) k ahead)
after_agent-ends asleep host handle (agent_failed text) w k ahead fair long =
    (_, refl, failed_end host handle (failed text) w _ (λ e. cc) k ahead)
after_agent-ends asleep host handle answered w k ahead fair long =
    elim (Bool-cases handle.is_reasoning) [
      | inl e ↦ (
        _,
        if_true handle.is_reasoning _ _ e,
        completed_end host handle (flush_reasoning_reply host handle w).1 _
            (flush-IsKnown host handle w k ahead) (λ d. cc),
      )
      | inr e ↦
          (let (settled, se, closed) = settle_closes host handle asleep w k ahead fair long in
            (
              _,
              if_false handle.is_reasoning _ _ e ∙ rw se refl,
              completed_end host handle settled _
                  (record { known = closed.known; remembers = closed.remembers })
                  (λ _. closed.terminated),
            ))
    ]

-- What a `_dispatch` comes to: it ends, its handle is settled, and where the gateway is there and
-- the turn is not one of reasoning, the turn is over.
abbrev pub Ends : Gateway → CallbackHandle → Option World → Type 0
Ends gateway handle out =
    (v : World) × (out ≡ some v)
    × IsSettled handle v.adapter
    × (gateway.available ≡ true → handle.is_reasoning ≡ false → IsOver handle v.adapter)

-- A `_dispatch` whose handle the adapter made, with a cache that can hold an entry, ends, however
-- the agent ends, and if the message for it cannot be built: its loop `_settle_turn` terminates, if each sleep lets time pass. Its handle is
-- then settled: the task is not in flight, the handle is not active, no draft and no buffered
-- reply is held, and a turn that was not terminated is answered by the cache. If the gateway is
-- there and the turn is not a transcript chunk's, the turn is over. The agent, and the tasks that run
-- during sleeps and deliveries, are asked only to forget no handle and to open no ended turn again.
pub dispatch-Ends :
    (gateway : Gateway) (asleep : Sleeping) (host : Host) (event : ValidatedEvent)
    (handle : CallbackHandle) (w : World)
    → IsKnown handle w.adapter
    → FairAhead handle w
    → FairGateway handle gateway
    → FairSleeping handle asleep
    → Sleeps asleep
    → Ends gateway handle (dispatch gateway asleep host event handle w)
unfolding dispatch
dispatch-Ends gateway asleep host event handle w k ahead agent fair long =
    let r = start_dispatch event handle w.adapter in
    let begun : World = record w { adapter = r.1 } in
    let known = started-IsKnown event handle w.adapter k in
    let before = before_step host handle begun known ahead in
    let message = message_for gateway.has_metadata event handle r.0 in
    let asked = agent message (before_agent host handle begun) before.adapter.known before.ahead in
    let end = gateway.handle_message message (before_agent host handle begun) in
    elim (Bool-cases gateway.available) [
      | inl e ↦ elim (Option-cases gateway.build_raises) [
        | inl o ↦
            (let (v, ve, left) =
                after_agent-ends asleep host handle end.1 end.0 asked.adapter.known asked.ahead fair
                  long in
              (v, rw (e, o, dispatch) ve, left.settled, λ _ d. left.over d))
        | inr (text, o) ↦
            (let left =
                failed_end host handle (failed text) begun (handle.is_reasoning ≡ false) (λ e. cc)
                  known ahead in
              (
                (end_dispatch host handle (failed text) begun).1,
                rw (e, o, dispatch) refl,
                left.settled,
                λ _ d. left.over d,
              ))
      ]
      | inr e ↦ (
        record begun { adapter = finish_dispatch handle r.1 },
        rw (e, dispatch) refl,
        finish_dispatch-IsSettled handle r.1 known.remembers,
        λ there _. cc,
      )
    ]
