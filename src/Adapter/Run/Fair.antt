-- ===== src/Adapter/Run/Fair.antt =====
-- adapter.py: steps of a turn that keep its handle known, and that open it no more once it is over.
use hermes_stagewhisper_plug.Prelude.{
  ℕ, suc, ◌<◌, ◌≡◌, refl, String, Bool, true, false, inl, inr, Bool-cases, arith, if◌then◌else◌,
}
use hermes_stagewhisper_plug.Json.{Members}
use hermes_stagewhisper_plug.Callbacks.{CallbackHandle, Marks, uses_callback}
use hermes_stagewhisper_plug.Adapter.{
  Adapter, Host, World, marks_of, set_marks, retain_reply, post_reply, deliver_reply,
  deliver_progress, await_post,
}
use hermes_stagewhisper_plug.Streams.Operations.{capture_durable}
use hermes_stagewhisper_plug.Adapter.Closed.{IsClosed, Keeps, put-capacity, begin-IsClosed}
use hermes_stagewhisper_plug.Adapter.Dispatch.{fail_dispatch}
use hermes_stagewhisper_plug.Adapter.Turns.{put_idem, begin_termination, terminate}
use hermes_stagewhisper_plug.Adapter.Termination.{
  deliver-IsClosed, terminate-runs, terminate-over, terminate-IsClosed,
}

-- The adapter made the handle, and its cache can hold an entry.
pub record IsKnown (handle : CallbackHandle) (a : Adapter) : Type 0 where
  pub known : handle.ident < a.next_handle
  pub remembers : 0 < a.idem.capacity

abbrev pub IsOver : CallbackHandle → Adapter → Type 0
IsOver handle a = (marks_of handle a).terminated ≡ true

-- A step from one adapter to another that keeps the handle known, and a turn that is over, over.
pub record IsFair (handle : CallbackHandle) (a b : Adapter) : Type 0 where
  pub known : IsKnown handle b
  pub over : IsOver handle a → IsOver handle b

-- The same of a function, wherever the handle is known.
abbrev pub Fair : CallbackHandle → (Adapter → Adapter) → Type 0
Fair handle f = (a : Adapter) → IsKnown handle a → IsFair handle a (f a)

-- A world whose deliveries ahead are fair, and the steps between such.
abbrev pub FairAhead : CallbackHandle → World → Type 0
FairAhead handle w = (k : ℕ) → Fair handle (w.ahead k).meanwhile

pub record FairStep (handle : CallbackHandle) (w v : World) : Type 0 where
  pub adapter : IsFair handle w.adapter v.adapter
  pub ahead : FairAhead handle v

pub IsFair-refl : (handle : CallbackHandle) (a : Adapter) → IsKnown handle a → IsFair handle a a
IsFair-refl handle a k = record { known = k; over = λ o. o }

pub IsFair-trans :
    (handle : CallbackHandle) (a b c : Adapter)
    → IsFair handle a b
    → IsFair handle b c
    → IsFair handle a c
IsFair-trans handle a b c f g = record { known = g.known; over = λ o. g.over (f.over o) }

pub FairStep-trans :
    (handle : CallbackHandle) (u v w : World)
    → FairStep handle u v
    → FairStep handle v w
    → FairStep handle u w
FairStep-trans handle u v w f g = record {
  adapter = IsFair-trans handle u.adapter v.adapter w.adapter f.adapter g.adapter;
  ahead = g.ahead;
}

pub Fair-Keeps : (handle : CallbackHandle) (f : Adapter → Adapter) → Fair handle f → Keeps handle f
Fair-Keeps handle f fair a c =
    let r = fair a (record { known = c.known; remembers = c.remembers }) in
    record {
      known = r.known.known;
      terminated = r.over c.terminated;
      remembers = r.known.remembers;
    }

pub IsClosed-IsFair :
    (handle : CallbackHandle) (a b : Adapter) → IsClosed handle b → IsFair handle a b
IsClosed-IsFair handle a b c = record {
  known = record { known = c.known; remembers = c.remembers };
  over = λ _. c.terminated;
}

-- A step that changes no mark, no count of handles and no capacity.
pub same-IsFair :
    (handle : CallbackHandle) (a b : Adapter)
    → IsKnown handle a
    → b.marks ≡ a.marks
    → b.next_handle ≡ a.next_handle
    → b.idem.capacity ≡ a.idem.capacity
    → IsFair handle a b
same-IsFair handle a b k m n i = record {
  known = record { known = rw n k.known; remembers = rw i k.remembers };
  over = λ o. rw m o;
}

-- An assignment to the marks of any handle that leaves `terminated` alone.
pub set_marks-Fair :
    (handle other : CallbackHandle) (f : Marks → Marks)
    → ((m : Marks) → (f m).terminated ≡ m.terminated)
    → Fair handle (set_marks other f)
unfolding set_marks
set_marks-Fair handle other f same a k = record {
  known = record { known = k.known; remembers = k.remembers };
  over = λ o. ground (arith, same (a.marks handle.ident), o);
}

pub put_idem-Fair :
    (handle : CallbackHandle) (task_id : String) (payload : Members)
    → Fair handle (put_idem task_id payload)
unfolding put_idem
put_idem-Fair handle task_id payload a k = record {
  known = record { known = k.known; remembers = rw put-capacity k.remembers };
  over = λ o. o;
}

put_if-IsClosed :
    (handle : CallbackHandle) (ok : Bool) (payload : Members) (a : Adapter)
    → IsClosed handle a
    → IsClosed handle (if ok then put_idem handle.task_id payload a else a)
unfolding put_idem
put_if-IsClosed handle true payload a c = record {
  known = c.known;
  terminated = c.terminated;
  remembers = rw put-capacity c.remembers;
}
put_if-IsClosed handle false payload a c = c

module _ (host : Host) (handle : CallbackHandle) (payload : Members) (w : World)
    (k : IsKnown handle w.adapter) (ahead : FairAhead handle w) where
  await_step : FairStep handle w (await_post host handle payload w)
  await_step = record { adapter = ahead 0 w.adapter k; ahead = λ n. ahead (suc n) }

  retain-Fair : IsFair handle w.adapter (retain_reply handle payload w.adapter).1
  unfolding retain_reply
  retain-Fair =
      elim (Bool-cases
        (capture_durable w.adapter.clock w.adapter.streams handle.session_id payload).1) [
          | inl e ↦ rw (e, retain_reply) (same-IsFair handle w.adapter _ k refl refl refl)
          | inr e ↦ rw (e, retain_reply) (same-IsFair handle w.adapter _ k refl refl refl)
        ]

  pub deliver_step : FairStep handle w (deliver_reply host handle payload w).1
  unfolding deliver_reply
  deliver_step = elim (Bool-cases (uses_callback handle)) [
    | inl e ↦ rw (e, deliver_reply) (unfold post_reply in await_step)
    | inr e ↦ rw (e, deliver_reply) (record { adapter = retain-Fair; ahead = ahead })
  ]

  pub progress_step : FairStep handle w (deliver_progress host handle payload w).1
  unfolding deliver_progress
  progress_step = elim (Bool-cases (uses_callback handle)) [
    | inl e ↦ rw (e, deliver_progress) await_step
    | inr e ↦
        rw (e, deliver_progress)
          (record { adapter = same-IsFair handle w.adapter _ k refl refl refl; ahead = ahead })
  ]

  deliver_ahead :
      (a : Adapter)
      → FairAhead handle (deliver_reply host handle payload (record w { adapter = a })).1
  unfolding deliver_reply
  deliver_ahead a = elim (Bool-cases (uses_callback handle)) [
    | inl e ↦ rw (e, deliver_reply) (unfold post_reply in λ n. ahead (suc n))
    | inr e ↦ rw (e, deliver_reply) ahead
  ]

  -- What the deliveries of a termination leave ahead.
  terminated_ahead : FairAhead handle (terminate host handle payload w).1
  terminated_ahead = elim (Bool-cases (marks_of handle w.adapter).terminated) [
    | inl over ↦ rw (terminate-over host handle payload w over) ahead
    | inr runs ↦
        rw (terminate-runs host handle payload w runs)
          (deliver_ahead (begin_termination handle w.adapter))
  ]

  -- After `_terminate` the turn is over.
  pub terminate_closes : IsClosed handle (terminate host handle payload w).1.adapter
  terminate_closes =
      terminate-IsClosed host handle payload w k.known k.remembers
        (Fair-Keeps handle (w.ahead 0).meanwhile (ahead 0))

  pub terminate_step : FairStep handle w (terminate host handle payload w).1
  terminate_step = record {
    adapter = IsClosed-IsFair handle w.adapter _ terminate_closes;
    ahead = terminated_ahead;
  }

  -- `fail_dispatch` likewise.
  pub fail_closes : IsClosed handle (fail_dispatch host handle payload w).1.adapter
  unfolding fail_dispatch
  fail_closes = elim (Bool-cases (marks_of handle w.adapter).terminated) [
    | inl over ↦
        rw (over, fail_dispatch)
          (record { known = k.known; terminated = over; remembers = k.remembers })
    | inr runs ↦
        (let begun : World = record w { adapter = begin_termination handle w.adapter } in
          let r = deliver_reply host handle payload begun in
          rw (runs, fail_dispatch)
            (put_if-IsClosed handle r.0 payload r.1.adapter (
              deliver-IsClosed host handle payload begun
                (begin-IsClosed handle w.adapter k.known k.remembers)
                (Fair-Keeps handle (w.ahead 0).meanwhile (ahead 0)))))
  ]
