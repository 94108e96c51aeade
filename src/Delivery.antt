-- ===== src/Delivery.antt =====
-- delivery.py: the attempts to POST a reply, and the way of a reply to its client.
pub mod Retry
use hermes_stagewhisper_plug.Prelude.{
  ℕ, zero, suc, ◌+◌, ◌*◌, ◌^◌, String, Bool, true, false, ◌&&◌, ◌||◌, Option, none, some, List, [],
  ◌∷◌, ltb, leb, eqb, if◌then◌else◌,
}
use hermes_stagewhisper_plug.Json
use hermes_stagewhisper_plug.Json.{Json, Members, null, string, dict}
use hermes_stagewhisper_plug.Callbacks.{CallbackHandle}

pub data CallbackAttemptOutcome : Type 0 where
  delivered retryable_failure permanent_failure : CallbackAttemptOutcome

unfoldable pub classify_callback_status : ℕ → CallbackAttemptOutcome
classify_callback_status status =
    if leb 200 status && ltb status 300
    then delivered
    else if eqb status 408 || eqb status 425 || eqb status 429 || (leb 500 status && ltb status 600)
    then retryable_failure
    else permanent_failure

-- How `wait_for(post_callback(…))` ends: with an outcome, or with an exception (a timeout is one).
pub data Attempt : Type 0 where
  returned : CallbackAttemptOutcome → Attempt
  raised : Attempt

-- except Exception: outcome = RETRYABLE_FAILURE
abbrev pub outcome_of : Attempt → CallbackAttemptOutcome
outcome_of (returned outcome) = outcome
outcome_of raised = retryable_failure

abbrev pub callback_max_attempts : ℕ
callback_max_attempts = 4

-- CALLBACK_RETRY_BACKOFF_S in milliseconds
abbrev pub callback_retry_backoff : ℕ
callback_retry_backoff = 250

-- What a run of the retry loop did: its result, how many attempts it made, and its sleeps.
pub record Retried : Type 0 where
  pub result : Bool
  pub attempts : ℕ
  pub sleeps : List ℕ

abbrev finished : ℕ → Bool → Retried
finished attempt result = record { result = result; attempts = attempt + 1; sleeps = [] }

abbrev slept : ℕ → Retried → Retried
slept time rest = record rest { sleeps = time ∷ rest.sleeps }

-- The loop from `attempt` on, with `left` rounds of the range; `post k` is the end of attempt k.
unfoldable pub retry_from : (ℕ → Attempt) → ℕ → ℕ → Retried
retry_from post attempt zero = record { result = false; attempts = attempt; sleeps = [] }
retry_from post attempt (suc left) = elim (outcome_of (post attempt)) [
  | delivered ↦ finished attempt true
  | permanent_failure ↦ finished attempt false
  | retryable_failure ↦
      if ltb (attempt + 1) callback_max_attempts
      then slept (callback_retry_backoff * 2 ^ attempt) (retry_from post (attempt + 1) left)
      else retry_from post (attempt + 1) left
]

unfoldable pub retry_callback : (ℕ → Attempt) → Retried
unfolding retry_from
retry_callback post = retry_from post 0 callback_max_attempts

-- the payload that stands in for a reply that is too large to be retained
unfoldable pub reply_too_large : CallbackHandle → Members → Members
reply_too_large handle payload = dict (
    (
      "task_id",
      if Json.has payload "task_id" then Json.get payload "task_id" else string handle.task_id,
    )
    ∷ ("session_id", string handle.session_id)
    ∷ ("user_message_id", Json.get payload "user_message_id")
    ∷ ("status", string "errored")
    ∷ ("error_code", string "reply_too_large")
    ∷ ("error_message", string "assistant reply exceeded the stream retention limit")
    ∷ [])
