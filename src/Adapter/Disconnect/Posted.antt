-- ===== src/Adapter/Disconnect/Posted.antt =====
-- adapter.py: `disconnect` ends each turn that is still open, and each once.
use hermes_stagewhisper_plug.Prelude.{
  ℕ, suc, ◌+◌, ◌≤◌, ◌≡◌, ◌∙◌, ap, inl, inr, String, Bool, true, false, not, ◌||◌, List, [], ◌∷◌,
  All, length, Bool-cases, Option-cases, if◌then◌else◌, arith,
}
use hermes_stagewhisper_plug.Dict
use hermes_stagewhisper_plug.Models.Payloads.{build_status_payload}
use hermes_stagewhisper_plug.Adapter.{Adapter, Host, World, marks_of}
use hermes_stagewhisper_plug.Adapter.Termination.{terminate-posted}
use hermes_stagewhisper_plug.Adapter.Disconnect.{
  Closing, end_pending, end_all_pending, end_turns, disconnect,
}
use hermes_stagewhisper_plug.Adapter.Disconnect.Open.{
  is_open, is_open-none, is_open-found, OpensNoneAhead, terminate-open, terminate-own,
  terminate-ahead,
}

-- How many of some tasks have a turn that is neither terminated nor delivered.
abbrev pub open_count : Adapter → List String → ℕ
open_count a [] = 0
open_count a (task_id ∷ task_ids) =
    if is_open a task_id then suc (open_count a task_ids) else open_count a task_ids

-- What a step of the loop is known to do, of one task.
record IsStep (task_id : String) (w v : World) : Type 0 where
  posted : length v.posted ≤ length w.posted + (if is_open w.adapter task_id then 1 else 0)
  kept : (other : String) → is_open w.adapter other ≡ false → is_open v.adapter other ≡ false
  own : is_open v.adapter task_id ≡ false
  ahead : OpensNoneAhead v

module _ (host : Host) where
  end_pending-IsStep :
      (task_id : String) (w : World)
      → OpensNoneAhead w
      → IsStep task_id w (end_pending host task_id w)
  unfolding end_pending
  end_pending-IsStep task_id w ahead =
      elim (Option-cases (Dict.get w.adapter.task_callbacks task_id)) [
        | inl e ↦
            rw (end_pending, e)
              (record {
                posted = omega arith;
                kept = λ other h. h;
                own = is_open-none w.adapter task_id e;
                ahead = ahead;
              })
        | inr (handle, e) ↦
            elim (Bool-cases
              ((marks_of handle w.adapter).terminated || (marks_of handle w.adapter).delivered)) [
                | inl over ↦
                    rw (end_pending, e, over)
                      (record {
                        posted = omega arith;
                        kept = λ other h. h;
                        own = is_open-found w.adapter task_id handle e ∙ ap not over;
                        ahead = ahead;
                      })
                | inr runs ↦
                    (let payload =
                        build_status_payload handle.task_id handle.session_id "silent"
                          handle.user_message_id w.adapter.iso_now in
                      let is_now : is_open w.adapter task_id ≡ true =
                        is_open-found w.adapter task_id handle e ∙ ap not runs in
                      rw (end_pending, e, runs)
                        (record {
                          posted =
                              rw is_now (omega (arith, terminate-posted host handle payload w));
                          kept = terminate-open host handle payload w ahead;
                          own =
                              terminate-own host handle payload w ahead task_id e
                                (ground (arith, runs));
                          ahead = terminate-ahead host handle payload w ahead;
                        }))
              ]
      ]

  open_count-kept :
      (a b : Adapter) (task_ids : List String)
      → ((other : String) → is_open a other ≡ false → is_open b other ≡ false)
      → open_count b task_ids ≤ open_count a task_ids
  open_count-kept a b [] kept = omega arith
  open_count-kept a b (task_id ∷ task_ids) kept =
      ground (arith, kept task_id, open_count-kept a b task_ids kept)

  record IsEnd (task_ids : List String) (w v : World) : Type 0 where
    posted : length v.posted ≤ length w.posted + open_count w.adapter task_ids
    kept : (other : String) → is_open w.adapter other ≡ false → is_open v.adapter other ≡ false
    over : All (λ task_id. is_open v.adapter task_id ≡ false) task_ids

  end_all_pending-IsEnd :
      (task_ids : List String) (w : World)
      → OpensNoneAhead w
      → IsEnd task_ids w (end_all_pending host task_ids w)
  unfolding end_all_pending
  end_all_pending-IsEnd [] w ahead = record { posted = omega arith; kept = λ other h. h; over = tt }
  end_all_pending-IsEnd (task_id ∷ task_ids) w ahead =
      let v = end_pending host task_id w in
      let first = end_pending-IsStep task_id w ahead in
      let rest = end_all_pending-IsEnd task_ids v first.ahead in
      let fewer = open_count-kept w.adapter v.adapter task_ids first.kept in
      record {
        posted = counted (is_open w.adapter task_id) _ _ _ _ _ first.posted rest.posted fewer;
        kept = λ other h. rest.kept other (first.kept other h);
        over = (rest.kept task_id first.own, rest.over);
      }
    where
      counted :
          (b : Bool) (p q r m n : ℕ)
          → q ≤ p + (if b then 1 else 0)
          → r ≤ q + m
          → m ≤ n
          → r ≤ p + (if b then suc n else n)
      counted true p q r m n h k f = omega arith
      counted false p q r m n h k f = omega arith

  pub end_turns-posted :
      (closing : Closing) (task_ids : List String) (w : World)
      → OpensNoneAhead w
      → (length (end_turns closing host task_ids w).posted
          ≤ length w.posted + open_count (closing.waits w.adapter) task_ids)
        × All
            (λ task_id. is_open (end_turns closing host task_ids w).adapter task_id ≡ false)
            task_ids
  unfolding end_turns
  end_turns-posted closing [] w ahead = (omega arith, tt)
  end_turns-posted closing (task_id ∷ task_ids) w ahead =
      let ended =
        end_all_pending-IsEnd (task_id ∷ task_ids) (record w { adapter = closing.waits w.adapter })
          ahead in
      (ended.posted, ended.over)

-- If the tasks that run while a last reply is delivered open no turn of a task that had none, then
-- `disconnect` hands a payload to a POST at most once for each task that was in flight and whose
-- turn, after the wait, is neither terminated nor delivered; and when it has gone through them, before
-- it stops the listener, no task that was in flight has such a turn.
pub disconnect-posted :
    (closing : Closing) (host : Host) (w : World)
    → OpensNoneAhead w
    → (length (disconnect closing host w).posted
        ≤ length w.posted + open_count (closing.waits w.adapter) (Dict.keys w.adapter.inflight))
      × All
          (λ task_id.
            is_open (end_turns closing host (Dict.keys w.adapter.inflight) w).adapter task_id
            ≡ false)
          (Dict.keys w.adapter.inflight)
unfolding disconnect
disconnect-posted closing host w ahead =
    end_turns-posted host closing (Dict.keys w.adapter.inflight) w ahead
