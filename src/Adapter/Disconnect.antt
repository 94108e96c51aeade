-- ===== src/Adapter/Disconnect.antt =====
-- adapter.py: `disconnect`.
pub mod Open
pub mod Posted
use hermes_stagewhisper_plug.Prelude.{String, ◌||◌, none, some, List, [], ◌∷◌, if◌then◌else◌}
use hermes_stagewhisper_plug.Dict
use hermes_stagewhisper_plug.Callbacks.{CallbackHandle}
use hermes_stagewhisper_plug.Models.Payloads.{build_status_payload}
use hermes_stagewhisper_plug.ReasoningBuffer
use hermes_stagewhisper_plug.Adapter.{Adapter, Host, World, marks_of}
use hermes_stagewhisper_plug.Adapter.Turns.{terminate}

-- What the other tasks do to the adapter while `disconnect` waits for the turns in flight, at most
-- two seconds, and while it closes the listener and the client.
pub record Closing : Type 0 where
  pub waits : Adapter → Adapter
  pub closes : Adapter → Adapter

abbrev pub end_silently : Host → CallbackHandle → World → World
end_silently host handle w =
    (terminate host handle
      (build_status_payload handle.task_id handle.session_id "silent" handle.user_message_id
        w.adapter.iso_now)
      w).1

-- the body of the loop over the pending tasks
unfoldable pub end_pending : Host → String → World → World
unfolding terminate
end_pending host task_id w = elim (Dict.get w.adapter.task_callbacks task_id) [
  | none ↦ w
  | some handle ↦
      if (marks_of handle w.adapter).terminated || (marks_of handle w.adapter).delivered
      then w
      else end_silently host handle w
]

unfoldable pub end_all_pending : Host → List String → World → World
unfolding end_pending
end_all_pending host [] w = w
end_all_pending host (task_id ∷ task_ids) w =
    end_all_pending host task_ids (end_pending host task_id w)

-- the tables that are cleared
unfoldable pub clear_tables : Adapter → Adapter
clear_tables a = record a {
  callbacks = [];
  task_callbacks = [];
  inflight = [];
  preludes = [];
  active_handles = [];
  reasoning_pending = ReasoningBuffer.clear a.reasoning_pending;
  stream_chunks = [];
  terminated_stream_flush = [];
  notice_message_ids = [];
}

abbrev with_adapter : World → (Adapter → Adapter) → World
with_adapter w f = record w { adapter = f w.adapter }

-- `disconnect` until it stops the listener
unfoldable pub end_turns : Closing → Host → List String → World → World
unfolding end_all_pending
end_turns closing host [] w = w
end_turns closing host (task_id ∷ task_ids) w =
    end_all_pending host (task_id ∷ task_ids) (with_adapter w closing.waits)

-- `disconnect`, where the pending tasks are those in flight when it starts
unfoldable pub disconnect : Closing → Host → World → World
unfolding end_turns clear_tables
disconnect closing host w =
    let ended = end_turns closing host (Dict.keys w.adapter.inflight) w in
    with_adapter (with_adapter ended closing.closes) clear_tables
