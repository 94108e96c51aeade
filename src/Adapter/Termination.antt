-- ===== src/Adapter/Termination.antt =====
-- `_terminate` of adapter.py: a turn ends once, whatever runs while its last reply is delivered.
use hermes_stagewhisper_plug.Prelude.{
  suc, ◌≤◌, ◌<◌, ◌≡◌, refl, Bool, true, false, some, eq_iff, length, arith, Bool-cases, inl, inr,
}
use hermes_stagewhisper_plug.Dict
use hermes_stagewhisper_plug.Dict.{Dict}
use hermes_stagewhisper_plug.Dict.Laws.{get-remove}
use hermes_stagewhisper_plug.Json.{Members}
use hermes_stagewhisper_plug.Callbacks
use hermes_stagewhisper_plug.Callbacks.{CallbackHandle, uses_callback, callback_is_usable}
use hermes_stagewhisper_plug.Callbacks.Cache.{get_after_put}
use hermes_stagewhisper_plug.Adapter.{Adapter, Host, World, marks_of, post_reply, deliver_reply}
use hermes_stagewhisper_plug.Adapter.Turns.{
  signal_done, put_idem, begin_termination, end_termination, terminate,
}
use hermes_stagewhisper_plug.Adapter.Closed.{
  IsClosed, Keeps, end_termination-IsClosed, begin-IsClosed, retained-IsClosed,
}

module _ (host : Host) (handle : CallbackHandle) (payload : Members) where
  pub deliver-IsClosed :
      (w : World)
      → IsClosed handle w.adapter
      → Keeps handle (w.ahead 0).meanwhile
      → IsClosed handle (deliver_reply host handle payload w).1.adapter
  unfolding deliver_reply
  deliver-IsClosed w c keeps = elim (Bool-cases (uses_callback handle)) [
    | inl e ↦ rw (e, deliver_reply) (unfold post_reply in keeps w.adapter c)
    | inr e ↦ rw (e, deliver_reply) (retained-IsClosed handle payload w.adapter c)
  ]

  deliver-posted :
      (w : World) → length (deliver_reply host handle payload w).1.posted ≤ suc (length w.posted)
  unfolding deliver_reply post_reply
  deliver-posted w = ground arith

  pub terminate-over :
      (w : World)
      → (marks_of handle w.adapter).terminated ≡ true
      → terminate host handle payload w ≡ (false, w)
  unfolding terminate
  terminate-over w over = rw (over, terminate) refl

  -- A turn that is not over: what `_terminate` does around its `await`.
  pub terminate-runs :
      (w : World)
      → (marks_of handle w.adapter).terminated ≡ false
      → terminate host handle payload w ≡ (
          let r =
            deliver_reply host handle payload
              (record w { adapter = begin_termination handle w.adapter }) in
          (r.0, record r.1 { adapter = end_termination handle payload r.0 r.1.adapter }))
  unfolding terminate
  terminate-runs w runs = rw (runs, terminate) refl

  pub terminate-IsClosed :
      (w : World)
      → handle.ident < w.adapter.next_handle
      → 0 < w.adapter.idem.capacity
      → Keeps handle (w.ahead 0).meanwhile
      → IsClosed handle (terminate host handle payload w).1.adapter
  terminate-IsClosed w known remembers keeps =
      elim (Bool-cases (marks_of handle w.adapter).terminated) [
        | inl over ↦
            rw (terminate-over w over)
              (record { known = known; terminated = over; remembers = remembers })
        | inr runs ↦
            (let begun : World = record w { adapter = begin_termination handle w.adapter } in
              let r = deliver_reply host handle payload begun in
              rw (terminate-runs w runs) (
                end_termination-IsClosed handle handle payload r.0 r.1.adapter
                  (deliver-IsClosed begun (begin-IsClosed handle w.adapter known remembers) keeps)))
      ]

  pub terminate-posted :
      (w : World) → length (terminate host handle payload w).1.posted ≤ suc (length w.posted)
  terminate-posted w = elim (Bool-cases (marks_of handle w.adapter).terminated) [
    | inl over ↦ rw (terminate-over w over) (omega arith)
    | inr runs ↦
        rw (terminate-runs w runs)
          (deliver-posted (record w { adapter = begin_termination handle w.adapter }))
  ]

end_termination-result :
    (handle : CallbackHandle) (payload : Members) (ok : Bool) (a : Adapter)
    → 0 < a.idem.capacity
    → (Dict.has (end_termination handle payload ok a).inflight handle.task_id ≡ false)
      × (ok ≡ true
          → (Callbacks.get (end_termination handle payload ok a).idem handle.task_id).1
            ≡ some payload)
      × (ok ≡ false → (end_termination handle payload ok a).idem ≡ a.idem)
unfolding end_termination signal_done put_idem Dict.has
end_termination-result handle payload ok a remembers = (
  ground (
    arith,
    get-remove a.inflight handle.task_id handle.task_id,
    eq_iff handle.task_id handle.task_id,
  ),
  λ delivered.
      rw (delivered, end_termination) (get_after_put a.idem handle.task_id payload remembers),
  λ lost. rw (lost, end_termination) refl,
)

-- A handle that the adapter made is terminated at most once. If the other tasks, while the last
-- reply is delivered, open no closed turn again, then after a first call of `_terminate` any
-- second one returns False and changes nothing at all, and the two handed at most one payload to
-- a POST.
pub terminate-once :
    (host : Host) (handle : CallbackHandle) (payload again : Members) (w : World)
    → handle.ident < w.adapter.next_handle
    → 0 < w.adapter.idem.capacity
    → Keeps handle (w.ahead 0).meanwhile
    → (terminate host handle again (terminate host handle payload w).1
        ≡ (false, (terminate host handle payload w).1))
      × (length (terminate host handle again (terminate host handle payload w).1).1.posted
          ≤ suc (length w.posted))
terminate-once host handle payload again w known remembers keeps =
    let closed = terminate-IsClosed host handle payload w known remembers keeps in
    let twice =
      terminate-over host handle again (terminate host handle payload w).1 closed.terminated in
    (twice, rw twice (terminate-posted host handle payload w))

-- When `_terminate` has ended a turn that was not over, and the other tasks opened no closed turn
-- again, the task is not in flight any more. If the last reply was delivered, the idempotency
-- cache answers the task with it; and if `_terminate` returned False, the payload was not cached:
-- the cache is what the delivery left.
pub terminate-result :
    (host : Host) (handle : CallbackHandle) (payload : Members) (w : World)
    → handle.ident < w.adapter.next_handle
    → 0 < w.adapter.idem.capacity
    → Keeps handle (w.ahead 0).meanwhile
    → (marks_of handle w.adapter).terminated ≡ false
    → (Dict.has (terminate host handle payload w).1.adapter.inflight handle.task_id ≡ false)
      × ((terminate host handle payload w).0 ≡ true
          → (Callbacks.get (terminate host handle payload w).1.adapter.idem handle.task_id).1
            ≡ some payload)
      × ((terminate host handle payload w).0 ≡ false
          → (terminate host handle payload w).1.adapter.idem
            ≡ (deliver_reply host handle payload
                (record w { adapter = begin_termination handle w.adapter })).1.adapter.idem)
terminate-result host handle payload w known remembers keeps runs =
    let begun : World = record w { adapter = begin_termination handle w.adapter } in
    let r = deliver_reply host handle payload begun in
    rw (terminate-runs host handle payload w runs) (
      end_termination-result handle payload r.0 r.1.adapter
        (deliver-IsClosed host handle payload begun
          (begin-IsClosed handle w.adapter known remembers) keeps).remembers)
