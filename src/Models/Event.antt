-- ===== src/Models/Event.antt =====
-- models.py: the validated event.
use hermes_stagewhisper_plug.Prelude.{String, Bool, true, false, Option}
use hermes_stagewhisper_plug.Json.{Json}

-- `ALLOWED_REASONS`
pub data Reason : Type 0 where
  transcript_chunk chat_message system_prelude : Reason

pub record ValidatedEvent : Type 0 where
  pub task_id : String
  pub session_id : String
  pub reason : Reason
  pub occurred_at : String
  pub text : String
  pub is_final : Option Bool
  pub user_message_id : Option String
  pub parent_message_id : Option String
  pub callback_url : Option String
  pub callback_token : Option String
  pub raw : Json

abbrev pub is_transcript_chunk : Reason → Bool
is_transcript_chunk transcript_chunk = true
is_transcript_chunk chat_message = false
is_transcript_chunk system_prelude = false
