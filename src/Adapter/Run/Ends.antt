-- ===== src/Adapter/Run/Ends.antt =====
-- adapter.py: a `_dispatch` ends, and what it leaves.
use hermes_stagewhisper_plug.Prelude.{ℕ, ◌≡◌, ◌≢◌, refl, ◌∙◌, ap, inl, inr, some, Bool-cases}
use hermes_stagewhisper_plug.Callbacks.{CallbackHandle, Marks}
use hermes_stagewhisper_plug.Adapter.{Adapter, Host, World, marks_of}
use hermes_stagewhisper_plug.Adapter.Turns.{signal_done}
use hermes_stagewhisper_plug.Adapter.Closed.{IsClosed}
use hermes_stagewhisper_plug.Adapter.Dispatch.{
  DispatchEnd, completed, timed_out, failed, except_dispatch, leave_dispatch, finish_dispatch,
  end_dispatch,
}
use hermes_stagewhisper_plug.Adapter.Dispatch.Settled.{
  IsSettled, drop_handle-SameRest, finish_dispatch-IsSettled,
}
use hermes_stagewhisper_plug.Adapter.Settle.{Sleeping, settle_turn, conclude_turn}
use hermes_stagewhisper_plug.Adapter.Settle.Ends.{Sleeps, settle_loop-ends}
use hermes_stagewhisper_plug.Adapter.Run.{MessageEvent, Gateway}
use hermes_stagewhisper_plug.Adapter.Run.Fair.{
  IsKnown, IsOver, Fair, FairAhead, FairStep, terminate_closes, fail_closes,
}

-- What the other tasks do while a turn sleeps is fair to its handle.
abbrev pub FairSleeping : CallbackHandle → Sleeping → Type 0
FairSleeping handle asleep = (k time : ℕ) → Fair handle (asleep k time)

-- The agent, with all that runs beside it, is fair to the handle.
abbrev pub FairGateway : CallbackHandle → Gateway → Type 0
FairGateway handle gateway =
    (m : MessageEvent) (w : World)
    → IsKnown handle w.adapter
    → FairAhead handle w
    → FairStep handle w (gateway.handle_message m w).0

-- The end of a `_dispatch`: the turn has left the tables.
finish-marks : (handle : CallbackHandle) (a : Adapter) → (finish_dispatch handle a).marks ≡ a.marks
unfolding finish_dispatch signal_done
finish-marks handle a =
    (drop_handle-SameRest handle (leave_dispatch handle a)).marks ∙ unfold leave_dispatch in refl

finish-IsOver :
    (handle : CallbackHandle) (a : Adapter)
    → IsOver handle a
    → IsOver handle (finish_dispatch handle a)
finish-IsOver handle a o =
    ap (λ (m : ℕ → Marks). (m handle.ident).terminated) (finish-marks handle a) ∙ o

-- What is asked of an adapter that a dispatch leaves, where `done` says that the turn is over.
pub record IsLeft (handle : CallbackHandle) (v : World) (done : Type 0) : Type 0 where
  pub settled : IsSettled handle v.adapter
  pub over : done → IsOver handle v.adapter

module _ (host : Host) (handle : CallbackHandle) where
  pub closed_end :
      (end : DispatchEnd) (w : World) (done : Type 0)
      → IsClosed handle (except_dispatch host handle end w).1.adapter
      → IsLeft handle (end_dispatch host handle end w).1 done
  unfolding end_dispatch
  closed_end end w done c = record {
    settled = finish_dispatch-IsSettled handle _ c.remembers;
    over = λ _. finish-IsOver handle _ c.terminated;
  }

  -- An exception ends in a turn that is over.
  pub failed_end :
      (end : DispatchEnd) (w : World) (done : Type 0)
      → end ≢ completed
      → IsKnown handle w.adapter
      → FairAhead handle w
      → IsLeft handle (end_dispatch host handle end w).1 done
  failed_end completed w done h k ahead = absurd (h refl)
  failed_end timed_out w done h k ahead =
      closed_end timed_out w done (unfold except_dispatch in fail_closes host handle _ w k ahead)
  failed_end (failed text) w done h k ahead =
      closed_end (failed text) w done
        (unfold except_dispatch in fail_closes host handle _ w k ahead)

  pub completed_end :
      (w : World) (done : Type 0)
      → IsKnown handle w.adapter
      → (done → IsOver handle w.adapter)
      → IsLeft handle (end_dispatch host handle completed w).1 done
  unfolding end_dispatch except_dispatch
  completed_end w done k over = record {
    settled = finish_dispatch-IsSettled handle w.adapter k.remembers;
    over = λ d. finish-IsOver handle w.adapter (over d);
  }

  -- `_settle_turn` after its loop leaves a turn that is over.
  conclude_closes :
      (w : World)
      → IsKnown handle w.adapter
      → FairAhead handle w
      → IsClosed handle (conclude_turn host handle w).adapter
  unfolding conclude_turn
  conclude_closes w k ahead = elim (Bool-cases (marks_of handle w.adapter).terminated) [
    | inl over ↦
        rw (over, conclude_turn)
          (record { known = k.known; terminated = over; remembers = k.remembers })
    | inr runs ↦ rw (runs, conclude_turn) (terminate_closes host handle _ w k ahead)
  ]

  pub settle_closes :
      (asleep : Sleeping) (w : World)
      → IsKnown handle w.adapter
      → FairAhead handle w
      → FairSleeping handle asleep
      → Sleeps asleep
      → (v : World) × (settle_turn asleep host handle w ≡ some v) × IsClosed handle v.adapter
  unfolding settle_turn
  settle_closes asleep w k ahead fair long =
      let (a, e, _, known) =
        settle_loop-ends asleep handle (IsKnown handle) w.adapter long
          (λ n time b kb. (fair n time b kb).known) k in
      (
        conclude_turn host handle (record w { adapter = a }),
        rw (e, settle_turn),
        conclude_closes (record w { adapter = a }) known ahead,
      )
