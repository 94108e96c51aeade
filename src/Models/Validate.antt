-- ===== src/Models/Validate.antt =====
-- models.py: `validate_incoming`.
use Prim.Native.String.{count}
use hermes_stagewhisper_plug.Prelude.{
  ℕ, zero, suc, String, Char, code, Bool, true, false, not, ◌&&◌, ◌||◌, Option, none, some, List,
  [], ◌∷◌, ◌==◌, leb, eqb, if◌then◌else◌,
}
use hermes_stagewhisper_plug.Json
use hermes_stagewhisper_plug.Json.{
  Json, Members, null, boolean, string, object, InSet, in_set, as_string, as_object, as_boolean,
}
use hermes_stagewhisper_plug.Text.{is_empty, strip}
use hermes_stagewhisper_plug.Models.Event.{
  Reason, transcript_chunk, chat_message, system_prelude, ValidatedEvent,
}

-- How `validate_incoming` ends: with an event, with an error code, or with a `TypeError`, which
-- `reason not in ALLOWED_REASONS` raises of a list or a dict.
pub data Validation : Type 0 where
  accepted : ValidatedEvent → Validation
  rejected : String → Validation
  type_error : Validation

abbrev pub max_text_length : ℕ
max_text_length = 16000

abbrev pub max_session_id_length : ℕ
max_session_id_length = 128

abbrev pub min_callback_token_length : ℕ
min_callback_token_length = 16

unfoldable pub is_hex : Char → Bool
is_hex ch =
    let c = code ch in (leb 48 c && leb c 57) || (leb 65 c && leb c 70) || (leb 97 c && leb c 102)

abbrev pub is_dash : Char → Bool
is_dash c = eqb (code c) b'-'

abbrev pub at_end : String → Bool
at_end String.[] = true
at_end (String.◌∷◌ c String.[]) = eqb (code c) 10
at_end (String.◌∷◌ c (String.◌∷◌ d s)) = false

-- TASK_ID_PATTERN.match, with n for 36: `$` also matches before a newline that ends the text
unfoldable pub matches_pattern : ℕ → String → Bool
unfolding is_hex
matches_pattern zero s = at_end s
matches_pattern (suc n) String.[] = false
matches_pattern (suc n) (String.◌∷◌ c s) = (is_hex c || is_dash c) && matches_pattern n s

-- hex.replace("-", "")
unfoldable pub without_dashes : String → String
without_dashes String.[] = String.[]
without_dashes (String.◌∷◌ c s) =
    let rest = without_dashes s in if is_dash c then rest else String.◌∷◌ c rest

abbrev pub all_hex : String → Bool
all_hex String.[] = true
all_hex (String.◌∷◌ c s) = is_hex c && all_hex s

-- uuid.UUID(task_id), of a text that the pattern matches: 32 characters are left without the
-- dashes, and `int(hex, 16)`, which ignores space around the digits, reads them
unfoldable pub is_uuid : String → Bool
unfolding without_dashes strip is_hex
is_uuid s =
    let hex = without_dashes s in
    eqb (count hex) 32 && not (is_empty (strip hex)) && all_hex (strip hex)

unfoldable pub is_task_id : String → Bool
unfolding matches_pattern is_uuid
is_task_id s = matches_pattern 36 s && is_uuid s

abbrev pub reason_of : String → Reason
reason_of s =
    if s == "transcript_chunk"
    then transcript_chunk
    else if s == "chat_message"
    then chat_message
    else system_prelude

abbrev pub allowed_reasons : List String
allowed_reasons = "transcript_chunk" ∷ "chat_message" ∷ "system_prelude" ∷ []

-- each check hands its value on, or ends the validation
abbrev pub needs_string : Json → (String → Bool) → String → (String → Validation) → Validation
needs_string v test error next = elim (as_string v) [
  | none ↦ rejected error
  | some s ↦ if test s then next s else rejected error
]

abbrev pub needs_object : Json → String → (Members → Validation) → Validation
needs_object v error next = elim (as_object v) [ none ↦ rejected error | some ms ↦ next ms ]

abbrev pub needs : Bool → String → Validation → Validation
needs test error next = if test then next else rejected error

-- The fields that are common to all events, as they were checked.
pub record Checked : Type 0 where
  pub task_id : String
  pub session_id : String
  pub reason : Reason
  pub occurred_at : String
  pub text : String
  pub payload : Members
  pub raw : Members

abbrev pub event_of : Checked → Option String → Option String → ValidatedEvent
event_of c callback_url callback_token = record {
  task_id = c.task_id;
  session_id = c.session_id;
  reason = c.reason;
  occurred_at = c.occurred_at;
  text = c.text;
  is_final = as_boolean (Json.get c.payload "is_final");
  user_message_id = as_string (Json.get c.payload "user_message_id");
  parent_message_id = as_string (Json.get c.payload "parent_message_id");
  callback_url = callback_url;
  callback_token = callback_token;
  raw = object c.raw;
}

abbrev pub is_null : Json → Bool
is_null null = true
is_null (boolean b) = false
is_null (Json.int n) = false
is_null (Json.negative n) = false
is_null (Json.float s) = false
is_null (string s) = false
is_null (Json.array xs) = false
is_null (object ms) = false

abbrev pub is_prelude : Reason → Bool
is_prelude transcript_chunk = false
is_prelude chat_message = false
is_prelude system_prelude = true

abbrev pub is_session_id : String → Bool
is_session_id s = not (is_empty s) && leb (count s) max_session_id_length

abbrev pub reason_text : Json → String
reason_text v = elim (as_string v) [ none ↦ "" | some s ↦ s ]

module _ (allowed : String → Bool) where
  -- the checks of the callback block
  unfoldable pub check_block : Checked → Json → Validation
  check_block c block = needs_object block "invalid_callback" λ members.
      needs_string (Json.get members "url") allowed "invalid_callback_url" λ url.
        needs_string (Json.get members "token") (λ t. leb min_callback_token_length (count t))
          "invalid_callback_token" λ token. accepted (event_of c (some url) (some token))

  unfoldable pub check_callback : Checked → Validation
  unfolding check_block
  check_callback c =
      let block = Json.get c.raw "callback" in
      if is_prelude c.reason || is_null block
      then accepted (event_of c none none)
      else check_block c block

  -- the checks that depend on the reason
  unfoldable pub check_reason : Checked → Reason → Validation
  unfolding check_callback
  check_reason c transcript_chunk =
      needs (Json.has c.payload "is_final") "is_final_required"
        (elim (as_boolean (Json.get c.payload "is_final")) [
          | none ↦ rejected "is_final_must_be_bool"
          | some b ↦ check_callback c
        ])
  check_reason c chat_message =
      needs_string (Json.get c.payload "user_message_id") (λ s. not (is_empty s))
        "user_message_id_required" λ id. check_callback c
  check_reason c system_prelude = check_callback c

  -- the checks after the reason was found among the allowed ones
  unfoldable pub check_payload : Members → String → String → Reason → Validation
  unfolding check_reason
  check_payload body task_id session_id reason =
      needs_string (Json.get body "occurred_at") (λ s. not (is_empty s)) "invalid_occurred_at"
        λ occurred_at. needs_object (Json.get body "payload") "payload_must_be_object" λ payload.
          needs_string (Json.get payload "text") (λ s. true) "invalid_text"
            λ text. needs (leb (count text) max_text_length) "text_too_long" (
              check_reason
                (record {
                  task_id = task_id;
                  session_id = session_id;
                  reason = reason;
                  occurred_at = occurred_at;
                  text = text;
                  payload = payload;
                  raw = body;
                })
                reason)

  unfoldable pub check_body : Members → Validation
  unfolding check_payload is_task_id in_set
  check_body body = needs_string (Json.get body "task_id") is_task_id "invalid_task_id" λ task_id.
      needs_string (Json.get body "session_id") is_session_id "invalid_session_id" λ session_id.
        elim (in_set allowed_reasons (Json.get body "reason")) [
          | InSet.type_error ↦ type_error
          | InSet.missing ↦ rejected "unknown_reason"
          | InSet.found ↦
              check_payload body task_id session_id
                (reason_of (reason_text (Json.get body "reason")))
        ]

  unfoldable pub validate_incoming : Json → Validation
  unfolding check_body
  validate_incoming body = needs_object body "body_must_be_object" check_body
