-- ===== src/Callbacks.antt =====
-- callbacks.py: callback handles, the turns that are closed, and the idempotency cache.
pub mod Recency
pub mod Cache
pub mod Closed
use hermes_stagewhisper_plug.Prelude.{
  ℕ, max, String, Bool, not, ◌&&◌, Option, none, some, List, [], ◌∷◌, ◌++◌, ◌==◌, length,
  if◌then◌else◌,
}
use hermes_stagewhisper_plug.Dict
use hermes_stagewhisper_plug.Dict.{Dict}
use hermes_stagewhisper_plug.Json.{Members}
use hermes_stagewhisper_plug.Text.{is_empty}

-- `CallbackHandle`, an object that several tables share. `ident` is the object's identity, and
-- the fields here are never assigned again; the fields that are, are `Marks`.
pub record CallbackHandle : Type 0 where
  pub ident : ℕ
  pub task_id : String
  pub session_id : String
  pub user_message_id : Option String
  pub callback_url : String
  pub callback_token : String
  pub chat_id : String
  pub is_reasoning : Bool

-- The fields of a handle that change; times are in milliseconds, and 0 is "never".
pub record Marks : Type 0 where
  pub terminated : Bool
  pub delivered : Bool
  pub last_send_at : ℕ
  pub last_activity_at : ℕ

unfoldable pub uses_callback : CallbackHandle → Bool
uses_callback handle = not (is_empty handle.callback_url)

-- `allowed` is `is_allowed_callback_url`
unfoldable pub callback_is_usable : (String → Bool) → CallbackHandle → Bool
unfolding uses_callback
callback_is_usable allowed handle = uses_callback handle && allowed handle.callback_url

-- `ClosedTurns`
pub record ClosedTurns : Type 0 where
  pub capacity : ℕ
  pub turns : Dict CallbackHandle

unfoldable pub init_closed : ℕ → ClosedTurns
init_closed capacity = record { capacity = max 1 capacity; turns = [] }

unfoldable pub remember : ClosedTurns → CallbackHandle → ClosedTurns
remember c handle = record c {
  turns =
      Dict.drop_to c.capacity
        (Dict.move_to_end (Dict.put c.turns handle.task_id handle) handle.task_id);
}

unfoldable pub by_task : ClosedTurns → String → Option CallbackHandle
by_task c task_id = Dict.get c.turns task_id

-- `reversed(…)`: the newest entry with the chat id
unfoldable pub newest_of_chat : String → Dict CallbackHandle → Option CallbackHandle
newest_of_chat chat_id [] = none
newest_of_chat chat_id ((_, handle) ∷ older) = elim (newest_of_chat chat_id older) [
  | some newer ↦ some newer
  | none ↦ if handle.chat_id == chat_id then some handle else none
]

unfoldable pub by_chat : ClosedTurns → String → Option CallbackHandle
unfolding newest_of_chat
by_chat c chat_id = newest_of_chat chat_id c.turns

-- `IdempotencyCache`
pub record IdempotencyCache : Type 0 where
  pub capacity : ℕ
  pub store : Dict Members

unfoldable pub init : ℕ → IdempotencyCache
init capacity = record { capacity = max 1 capacity; store = [] }

unfoldable pub get : IdempotencyCache → String → IdempotencyCache × Option Members
get c task_id =
    if Dict.has c.store task_id
    then (
      record c { store = Dict.move_to_end c.store task_id },
      Dict.get (Dict.move_to_end c.store task_id) task_id,
    )
    else (c, none)

unfoldable pub put : IdempotencyCache → String → Members → IdempotencyCache
put c task_id payload =
    if Dict.has c.store task_id
    then record c { store = Dict.put (Dict.move_to_end c.store task_id) task_id payload }
    else record c { store = Dict.drop_to c.capacity (Dict.put c.store task_id payload) }

unfoldable pub contains : IdempotencyCache → String → Bool
contains c task_id = Dict.has c.store task_id
