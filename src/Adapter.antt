-- ===== src/Adapter.antt =====
-- adapter.py: the state of `StageWhisperAdapter`, and the way a handler acts on it.
pub mod Turns
pub mod Evict
pub mod Sends
pub mod Drafts
pub mod Closed
pub mod Termination
pub mod Dispatch
pub mod Settle
pub mod Run
pub mod Disconnect
use hermes_stagewhisper_plug.Prelude.{
  ℕ, zero, suc, ◌+◌, ◌≤◌, max, String, Bool, true, false, not, ◌&&◌, ◌||◌, Option, none, some, List,
  [], ◌∷◌, ◌==◌, ◌≡◌, ltb, leb, eqb, length, if◌then◌else◌,
}
use hermes_stagewhisper_plug.Dict
use hermes_stagewhisper_plug.Dict.{Dict}
use hermes_stagewhisper_plug.Json
use hermes_stagewhisper_plug.Json.{Json, Members}
use hermes_stagewhisper_plug.Callbacks
use hermes_stagewhisper_plug.Callbacks.{
  CallbackHandle, Marks, ClosedTurns, IdempotencyCache, uses_callback, callback_is_usable,
}
use hermes_stagewhisper_plug.Delivery.{
  Attempt, returned, raised, CallbackAttemptOutcome, delivered, retryable_failure,
  permanent_failure, classify_callback_status, retry_callback, reply_too_large,
}
use hermes_stagewhisper_plug.DraftStream.{StreamChunkTracker}
use hermes_stagewhisper_plug.ReasoningBuffer
use hermes_stagewhisper_plug.ReasoningBuffer.{ReasoningReplyBuffer}
use hermes_stagewhisper_plug.Streams
use hermes_stagewhisper_plug.Streams.{ReplyStreams}
use hermes_stagewhisper_plug.Streams.Operations.{capture_durable, publish_transient}

-- `marks` holds the fields of each handle object that change, by its identity. `clock` is
-- `time.monotonic()` in milliseconds, `iso_now` the text of `utc_now_iso()`, and `next_uuid`
-- counts the random ids that were drawn.
pub record Adapter : Type 0 where
  pub streams : ReplyStreams
  pub idem : IdempotencyCache
  pub callbacks : Dict (List CallbackHandle)
  pub task_callbacks : Dict CallbackHandle
  pub closed_turns : ClosedTurns
  pub task_callbacks_cap : ℕ
  pub inflight : Dict (Unit {0})
  pub preludes : Dict String
  pub active_handles : Dict CallbackHandle
  pub reasoning_pending : ReasoningReplyBuffer
  pub stream_chunks : StreamChunkTracker
  pub terminated_stream_flush : Dict String
  pub notice_message_ids : Dict (Unit {0})
  pub marks : ℕ → Marks
  pub next_handle : ℕ
  pub clock : ℕ
  pub iso_now : String
  pub next_uuid : ℕ

-- `__init__`: the state, with the size of the dedup tables, and the epoch of the streams
unfoldable pub init : ℕ → String → Adapter
unfolding Streams.init Callbacks.init Callbacks.init_closed
init dedup_size epoch = record {
  streams = Streams.init Streams.default_limits epoch;
  idem = Callbacks.init dedup_size;
  callbacks = [];
  task_callbacks = [];
  closed_turns = Callbacks.init_closed dedup_size;
  task_callbacks_cap = dedup_size;
  inflight = [];
  preludes = [];
  active_handles = [];
  reasoning_pending = ReasoningBuffer.init;
  stream_chunks = [];
  terminated_stream_flush = [];
  notice_message_ids = [];
  marks =
      λ i. record { terminated = false; delivered = false; last_send_at = 0; last_activity_at = 0 };
  next_handle = 0;
  clock = 0;
  iso_now = "";
  next_uuid = 0;
}

-- How one call of `_post` goes on the network: there is no client session, a response with its
-- status, an error of the client, or any other exception (the timeout of the attempt is one).
pub data PostEnd : Type 0 where
  no_client client_error interrupted : PostEnd
  response : ℕ → PostEnd

-- One delivery by POST: how each of its attempts goes, and what the other tasks of the event loop
-- do to the adapter before it is over.
pub record Delivery : Type 0 where
  pub attempts : ℕ → PostEnd
  pub meanwhile : Adapter → Adapter

-- `uuid k` is the text of the k-th random id, and `allowed` is `is_allowed_callback_url`.
pub record Host : Type 0 where
  pub uuid : ℕ → String
  pub allowed : String → Bool

-- A payload that was handed to a POST, with the handle it was for.
pub record Posted : Type 0 where
  pub handle : CallbackHandle
  pub payload : Members

-- The world of a handler: the adapter, the deliveries by POST that lie ahead, and those made.
pub record World : Type 0 where
  pub adapter : Adapter
  pub ahead : ℕ → Delivery
  pub posted : List Posted

abbrev pub Exec : Type 0 → Type 0
Exec A = World → A × World

abbrev pub pure : {A : Type 0} → A → Exec A
pure a w = (a, w)

infixl 10 ◌>>=◌ ◌>>◌
abbrev pub ◌>>=◌ : {A B : Type 0} → Exec A → (A → Exec B) → Exec B
◌>>=◌ m f w = let r = m w in f r.0 r.1

abbrev pub ◌>>◌ : {A B : Type 0} → Exec A → Exec B → Exec B
m >> n = m >>= λ _. n

-- a statement that runs without an `await`
abbrev pub modify : (Adapter → Adapter) → Exec (Unit {0})
modify f w = (tt, record w { adapter = f w.adapter })

abbrev pub gets : {A : Type 0} → (Adapter → A) → Exec A
gets f w = (f w.adapter, w)

-- str(uuid.uuid4())
abbrev pub draw_uuid : Host → Exec String
draw_uuid host w = (
  host.uuid w.adapter.next_uuid,
  record w { adapter = record w.adapter { next_uuid = w.adapter.next_uuid + 1 } },
)

abbrev pub marks_of : CallbackHandle → Adapter → Marks
marks_of handle a = a.marks handle.ident

-- an assignment to fields of a handle
unfoldable pub set_marks : CallbackHandle → (Marks → Marks) → Adapter → Adapter
set_marks handle f a = record a {
  marks = λ i. if eqb i handle.ident then f (a.marks i) else a.marks i;
}

-- `deliver_reply` without a callback: the reply, or a notice that it was too large, is retained
unfoldable pub retain_reply : CallbackHandle → Members → Adapter → Bool × Adapter
retain_reply handle payload a =
    let first = capture_durable a.clock a.streams handle.session_id payload in
    let second =
      capture_durable a.clock first.0 handle.session_id (reply_too_large handle payload) in
    if first.1
    then (true, record a { streams = first.0 })
    else (second.1, record a { streams = second.0 })

-- `_post`
abbrev pub post_outcome : Bool → PostEnd → Attempt
post_outcome usable no_client = returned permanent_failure
post_outcome usable client_error =
    if usable then returned retryable_failure else returned permanent_failure
post_outcome usable interrupted = if usable then raised else returned permanent_failure
post_outcome usable (response status) =
    if usable then returned (classify_callback_status status) else returned permanent_failure

unfoldable pub post : Host → CallbackHandle → PostEnd → Attempt
unfolding callback_is_usable
post host handle end = post_outcome (callback_is_usable host.allowed handle) end

-- the next delivery by POST: the other tasks act while it waits, and nothing goes to a URL that
-- is not allowed
abbrev pub await_post : Host → CallbackHandle → Members → World → World
await_post host handle payload w = record {
  adapter = (w.ahead 0).meanwhile w.adapter;
  ahead = λ k. w.ahead (suc k);
  posted =
      if callback_is_usable host.allowed handle
      then record { handle = handle; payload = payload } ∷ w.posted
      else w.posted;
}

unfoldable pub post_reply : Host → CallbackHandle → Members → Exec Bool
post_reply host handle payload w = (
  (retry_callback (λ k. post host handle ((w.ahead 0).attempts k))).result,
  await_post host handle payload w,
)

-- `_deliver_reply`
unfoldable pub deliver_reply : Host → CallbackHandle → Members → Exec Bool
deliver_reply host handle payload w =
    if uses_callback handle
    then post_reply host handle payload w
    else (let r = retain_reply handle payload w.adapter in (r.0, record w { adapter = r.1 }))

abbrev pub is_delivered : Attempt → Bool
is_delivered (returned delivered) = true
is_delivered (returned retryable_failure) = false
is_delivered (returned permanent_failure) = false
is_delivered raised = false

-- `deliver_progress`: one attempt
unfoldable pub deliver_progress : Host → CallbackHandle → Members → Exec Bool
deliver_progress host handle payload w =
    if uses_callback handle
    then (
      is_delivered (post host handle ((w.ahead 0).attempts 0)),
      await_post host handle payload w,
    )
    else (let r = publish_transient w.adapter.streams handle.session_id payload in
        (r.1, record w { adapter = record w.adapter { streams = r.0 } }))
