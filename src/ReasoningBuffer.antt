-- ===== src/ReasoningBuffer.antt =====
-- reasoning_buffer.py: the reply to a transcript chunk is held back until its turn is over.
use hermes_stagewhisper_plug.Prelude.{
  String, Bool, Option, none, some, List, [], ◌∷◌, ◌==◌, any, not, keep_if, if◌then◌else◌,
}
use hermes_stagewhisper_plug.Dict
use hermes_stagewhisper_plug.Dict.{Dict}
use hermes_stagewhisper_plug.Json.{Members}
use hermes_stagewhisper_plug.Callbacks.{CallbackHandle}
use hermes_stagewhisper_plug.Models.Payloads.{build_message_payload}

-- `pending`: the content and the message id of each task; `flushed` is a set.
pub record ReasoningReplyBuffer : Type 0 where
  pub pending : Dict (String × String)
  pub flushed : List String

abbrev pub init : ReasoningReplyBuffer
init = record { pending = []; flushed = [] }

unfoldable pub capture : ReasoningReplyBuffer → String → String → String → ReasoningReplyBuffer
capture b task_id content message_id = record b {
  pending = Dict.put b.pending task_id (content, message_id);
}

abbrev pub set_has : List String → String → Bool
set_has xs x = any (λ y. y == x) xs

unfoldable pub has_flushed : ReasoningReplyBuffer → String → Bool
has_flushed b task_id = set_has b.flushed task_id

unfoldable pub discard : ReasoningReplyBuffer → String → ReasoningReplyBuffer
discard b task_id = record b { pending = Dict.remove b.pending task_id }

abbrev set_discard : List String → String → List String
set_discard xs x = keep_if (λ y. not (y == x)) xs

unfoldable pub forget : ReasoningReplyBuffer → String → ReasoningReplyBuffer
forget b task_id = record b {
  pending = Dict.remove b.pending task_id;
  flushed = set_discard b.flushed task_id;
}

abbrev set_add : List String → String → List String
set_add xs x = if set_has xs x then xs else x ∷ xs

-- `flush` up to its `await`: the buffer, and the payload to deliver, if there is one
unfoldable pub take_flush :
    ReasoningReplyBuffer → CallbackHandle → Bool → String → ReasoningReplyBuffer × Option Members
take_flush b handle terminated now =
    let popped : ReasoningReplyBuffer = record b {
      pending = Dict.remove b.pending handle.task_id;
    } in
    if terminated then (popped, none) else (
      record popped { flushed = set_add b.flushed handle.task_id },
      elim (Dict.get b.pending handle.task_id) [
        | none ↦ none
        | some (content, message_id) ↦ some (
            build_message_payload handle.task_id handle.session_id handle.user_message_id message_id
              content now)
      ],
    )

unfoldable pub clear : ReasoningReplyBuffer → ReasoningReplyBuffer
clear b = record { pending = []; flushed = [] }
