-- ===== src/DraftStream.antt =====
-- draft_stream.py: the chunks of a reply that grows snapshot by snapshot.
pub mod Reader
pub mod Turn
use Prim.Native.String.{count}
use hermes_stagewhisper_plug.Prelude.{
  String, Bool, true, false, not, ◌&&◌, ◌||◌, Option, none, some, List, [], ◌∷◌, ◌++◌,
  if◌then◌else◌,
}
use hermes_stagewhisper_plug.Dict
use hermes_stagewhisper_plug.Dict.{Dict}
use hermes_stagewhisper_plug.Json.{Json, Members, string, dict}
use hermes_stagewhisper_plug.Text.{same_char, starts_with, drop_chars, is_empty}

-- `_TurnStreamState`
pub record TurnStreamState : Type 0 where
  pub part_id : String
  pub part_open : Bool
  pub started : Bool
  pub sent_content : String
  pub last_snapshot : String

abbrev pub new_turn : TurnStreamState
new_turn = record {
  part_id = "";
  part_open = false;
  started = false;
  sent_content = "";
  last_snapshot = "";
}

-- The chunks that the tracker makes, one constructor for each dict display.
pub data Chunk : Type 0 where
  start text_start text_end : String → Chunk
  text_delta : String → String → Chunk
  finish : Chunk

unfoldable pub chunk_dict : Chunk → Members
chunk_dict (start id) = dict (("type", string "start") ∷ ("messageId", string id) ∷ [])
chunk_dict (text_start id) = dict (("type", string "text-start") ∷ ("id", string id) ∷ [])
chunk_dict (text_end id) = dict (("type", string "text-end") ∷ ("id", string id) ∷ [])
chunk_dict (text_delta id delta) =
    dict (("type", string "text-delta") ∷ ("id", string id) ∷ ("delta", string delta) ∷ [])
chunk_dict finish = dict (("type", string "finish") ∷ ("finishReason", string "stop") ∷ [])

-- `_common_prefix`: the loop stops at the first difference, or at the end of the shorter text
unfoldable pub common_prefix : String → String → String
common_prefix String.[] right = String.[]
common_prefix (String.◌∷◌ c left) String.[] = String.[]
common_prefix (String.◌∷◌ c left) (String.◌∷◌ d right) =
    let rest = common_prefix left right in if same_char c d then String.◌∷◌ c rest else String.[]

-- `_advance` on the state of one turn; `fresh` is the value of `uuid.uuid4().hex`, if it is drawn
unfoldable pub announce : String → TurnStreamState → TurnStreamState × List Chunk
announce task_id state =
    if state.started then (state, []) else (record state { started = true }, start task_id ∷ [])

unfoldable pub open_part : String → String → TurnStreamState → TurnStreamState × List Chunk
open_part fresh settled_content state =
    let restarting =
      not (is_empty settled_content) && not (starts_with settled_content state.sent_content) in
    if not state.part_open || restarting
    then (
      record state { part_id = fresh; part_open = true; sent_content = "" },
      (if state.part_open then text_end state.part_id ∷ [] else []) ++ text_start fresh ∷ [],
    )
    else (state, [])

unfoldable pub extend : String → TurnStreamState → TurnStreamState × List Chunk
extend settled_content state =
    let delta = drop_chars (count state.sent_content) settled_content in
    if is_empty delta
    then (state, [])
    else (record state { sent_content = settled_content }, text_delta state.part_id delta ∷ [])

unfoldable pub advance_turn :
    String → String → String → Bool → TurnStreamState → TurnStreamState × List Chunk
advance_turn fresh task_id content settled state =
    let (state₁, begun) = announce task_id state in
    let settled_content = if settled then content else common_prefix state₁.last_snapshot content in
    let state₂ : TurnStreamState = record state₁ { last_snapshot = content } in
    let (state₃, opened) = open_part fresh settled_content state₂ in
    let (state₄, grown) = extend settled_content state₃ in (state₄, begun ++ opened ++ grown)

-- `StreamChunkTracker`: the `_turns`
abbrev pub StreamChunkTracker : Type 0
StreamChunkTracker = Dict TurnStreamState

abbrev or_new : Option TurnStreamState → TurnStreamState
or_new none = new_turn
or_new (some state) = state

unfoldable pub advance :
    String → StreamChunkTracker → String → String → Bool → StreamChunkTracker × List Chunk
advance fresh turns task_id content settled =
    let (state, chunks) =
      advance_turn fresh task_id content settled (or_new (Dict.get turns task_id)) in
    (Dict.put turns task_id state, chunks)

abbrev closing : Option TurnStreamState → List Chunk
closing none = []
closing (some state) = if state.part_open then text_end state.part_id ∷ [] else []

unfoldable pub close : StreamChunkTracker → String → StreamChunkTracker × List Chunk
close turns task_id = (Dict.remove turns task_id, closing (Dict.get turns task_id) ++ finish ∷ [])

unfoldable pub emit :
    String → StreamChunkTracker → String → String → Bool → StreamChunkTracker × List Chunk
emit fresh turns task_id content finalize =
    let (turns₁, chunks) = advance fresh turns task_id content finalize in
    if finalize
    then (let (turns₂, ending) = close turns₁ task_id in (turns₂, chunks ++ ending))
    else (turns₁, chunks)

unfoldable pub discard : StreamChunkTracker → String → StreamChunkTracker
discard turns task_id = Dict.remove turns task_id

unfoldable pub clear : StreamChunkTracker → StreamChunkTracker
clear turns = []
