-- ===== src/Listener/Events.antt =====
-- listener.py: the event stream of a session.
pub mod Account
pub mod Stream
pub mod Closed
use hermes_stagewhisper_plug.Prelude.{
  ℕ, zero, suc, String, Bool, true, false, Option, none, some, List, [], ◌∷◌, ◌++◌, map,
  if◌then◌else◌,
}
use hermes_stagewhisper_plug.Text.{◌<>◌, is_empty, strip}
use hermes_stagewhisper_plug.Streams.{QueuedReply, Drained, Subscriber, ReplyStreams}
use hermes_stagewhisper_plug.Streams.Operations.{subscribe, unsubscribe, drain, subscriber_of}
use hermes_stagewhisper_plug.Streams.Calls.{Call, take_all, step, run}
use hermes_stagewhisper_plug.Listener.{Request, Response, guard, error_response}

-- What is written to a stream.
pub data Write : Type 0 where
  opening keep_alive : Write
  event : QueuedReply → Write
  progress : String → Write

-- the bytes of a write, in `_write_event`, `_write_transient` and `handle_events`
unfoldable pub write_text : Write → String
write_text opening = ": open\n\n"
write_text keep_alive = ": keep-alive\n\n"
write_text (event entry) =
    "id: " <> entry.event_id <> "\ndata: " <> entry.serialized_payload <> "\n\n"
write_text (progress payload) = "event: progress\ndata: " <> payload <> "\n\n"

-- How a wait for the next wakeup ends: with the wakeup, with the heartbeat and its write, or with a
-- client that is lost.
pub data Wait : Type 0 where
  woken heartbeat lost : Wait

-- One round of the loop: the calls of the streams' methods that other tasks make while it writes,
-- the write that fails, if one does, the calls while it waits, and how the wait ends.
pub record Round : Type 0 where
  pub writing : List Call
  pub fails_at : Option ℕ
  pub waiting : List Call
  pub wait : Wait

unfoldable pub writes_of : Drained → List Write
writes_of d = map event d.entries ++ map progress d.transient_payloads

abbrev pub first_writes : ℕ → List Write → List Write
first_writes zero ws = []
first_writes (suc n) [] = []
first_writes (suc n) (w ∷ ws) = w ∷ first_writes n ws

module _ (session_id : String) (ident : ℕ) where
  -- subscriber.dropped
  unfoldable pub is_dropped : ReplyStreams → Bool
  is_dropped st = elim (subscriber_of st session_id ident) [ none ↦ false | some s ↦ s.dropped ]

  -- the streams once a round has drained and written
  abbrev pub written : Round → ReplyStreams → ReplyStreams
  written r st = run (step st (take_all session_id ident)) r.writing

  -- the loop of `handle_events`: the streams after it, and what was written; after the last round
  -- the client is lost. The flag `wakeup`, which the loop clears and waits for, decides no more than
  -- how a wait ends, and that is the round's `wait`.
  unfoldable pub follow : List Round → ReplyStreams → ReplyStreams × List Write
  unfolding drain is_dropped writes_of run
  follow [] st = (st, [])
  follow (r ∷ rounds) st =
      let ws = writes_of (drain st session_id ident).1 in
      let st₂ = written r st in
      let rest = follow rounds (run st₂ r.waiting) in
      elim r.fails_at [
        | some k ↦ (st₂, first_writes k ws)
        | none ↦ if is_dropped st₂ then (st₂, ws) else elim r.wait [
          | woken ↦ (rest.0, ws ++ rest.1)
          | heartbeat ↦ (rest.0, ws ++ keep_alive ∷ rest.1)
          | lost ↦ (run st₂ r.waiting, ws)
        ]
      ]

-- A request for a stream, with the parts of its query and its header that are read.
pub record EventsRequest : Type 0 where
  pub request : Request
  pub session_id : Option String
  pub last_event_id : Option String
  pub last_event_id_header : Option String

-- How the stream of a client goes: whether it opens, what other tasks call meanwhile, its rounds.
pub record Connection : Type 0 where
  pub opens : Bool
  pub before : List Call
  pub rounds : List Round

-- What a client gets.
pub data EventsReply : Type 0 where
  denied : Response → EventsReply
  streamed : List Write → EventsReply

abbrev text_or : Option String → String → String
text_or none fallback = fallback
text_or (some s) fallback = if is_empty s then fallback else s

abbrev not_empty : String → Option String
not_empty s = if is_empty s then none else some s

-- the `try` block of `handle_events`: the streams when it is left, and what was written
unfoldable pub serve_rounds : Connection → Subscriber → ReplyStreams → ReplyStreams × List Write
unfolding follow run
serve_rounds c subscriber st =
    let opened = run st c.before in
    let (ended, ws) = follow subscriber.session_id subscriber.ident c.rounds opened in
    if c.opens then (ended, opening ∷ ws) else (opened, [])

-- its `finally`, however the block is left
abbrev pub finally_unsubscribe : Subscriber → ReplyStreams × List Write → ReplyStreams × List Write
finally_unsubscribe subscriber (st, ws) = (unsubscribe st subscriber, ws)

-- `handle_events` from the `try` on
unfoldable pub serve_stream : Connection → Subscriber → ReplyStreams → ReplyStreams × List Write
unfolding serve_rounds unsubscribe
serve_stream c subscriber st = finally_unsubscribe subscriber (serve_rounds c subscriber st)

abbrev with_subscriber : Connection → ReplyStreams × Option Subscriber → ReplyStreams × EventsReply
with_subscriber c (st, none) = (st, denied (error_response 429 "too_many_streams"))
with_subscriber c (st, some subscriber) =
    let (ended, ws) = serve_stream c subscriber st in (ended, streamed ws)

unfoldable pub handle_events :
    List String
    → String
    → ℕ
    → Connection
    → EventsRequest
    → ReplyStreams
    → ReplyStreams × EventsReply
unfolding guard strip subscribe serve_stream
handle_events hosts token now c r st = elim (guard hosts token r.request) [
  | some response ↦ (st, denied response)
  | none ↦
      (let session_id = strip (text_or r.session_id "") in
        let last = strip (text_or r.last_event_id_header (text_or r.last_event_id "")) in
        if is_empty session_id
        then (st, denied (error_response 400 "session_id_required"))
        else with_subscriber c (subscribe now st session_id (not_empty last)))
]
