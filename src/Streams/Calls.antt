-- ===== src/Streams/Calls.antt =====
-- Sequences of calls of streams.py, and what one subscriber and one session get from them.
use hermes_stagewhisper_plug.Prelude.{
  ℕ, String, Bool, true, not, ◌&&◌, Option, List, [], ◌∷◌, ◌++◌, ◌==◌, eqb, if◌then◌else◌,
}
use hermes_stagewhisper_plug.Dict
use hermes_stagewhisper_plug.Dict.{Dict}
use hermes_stagewhisper_plug.Json.{Members}
use hermes_stagewhisper_plug.Streams.{QueuedReply, Subscriber, ReplyStreams, serialize_payload}
use hermes_stagewhisper_plug.Streams.Operations.{
  prune, subscribe, unsubscribe, opened, entry_for, capture_durable, publish_transient, drain,
  forget,
}

-- The calls of the streams' methods.
pub data Call : Type 0 where
  capture : ℕ → String → Members → Call
  publish : String → Members → Call
  join : ℕ → String → Option String → Call
  leave : Subscriber → Call
  take_all : String → ℕ → Call
  drop_session : String → Call

unfoldable pub step : ReplyStreams → Call → ReplyStreams
step st (capture now session_id payload) = (capture_durable now st session_id payload).0
step st (publish session_id payload) = (publish_transient st session_id payload).0
step st (join now session_id last_event_id) = (subscribe now st session_id last_event_id).0
step st (leave subscriber) = unsubscribe st subscriber
step st (take_all session_id ident) = (drain st session_id ident).0
step st (drop_session session_id) = forget st session_id

unfoldable pub run : ReplyStreams → List Call → ReplyStreams
run st [] = st
run st (m ∷ ms) = run (step st m) ms

module _ (session_id : String) (ident : ℕ) where
  -- the entries that a call hands to the subscriber's handler
  unfoldable pub handed : ReplyStreams → Call → List QueuedReply
  handed st (take_all k i) = if session_id == k && eqb i ident then (drain st k i).1.entries else []
  handed st _ = []

  -- the entry that a call adds to the session's backlog
  unfoldable pub captured : ReplyStreams → Call → List QueuedReply
  captured st (capture now k payload) =
      let pruned = prune now st in
      let backlog = (opened pruned now (Dict.get pruned.backlogs k)).0 in
      if session_id == k && (capture_durable now st k payload).1
      then entry_for backlog payload (serialize_payload payload) ∷ []
      else []
  captured st _ = []

  -- the call is not the end of the subscription
  abbrev pub stays : Call → Bool
  stays (leave s) = not (s.session_id == session_id && eqb ident s.ident)
  stays (capture now k payload) = true
  stays (publish k payload) = true
  stays (join now k last) = true
  stays (take_all k i) = true
  stays (drop_session k) = true

  unfoldable pub all_handed : ReplyStreams → List Call → List QueuedReply
  all_handed st [] = []
  all_handed st (m ∷ ms) = handed st m ++ all_handed (step st m) ms

  unfoldable pub all_captured : ReplyStreams → List Call → List QueuedReply
  all_captured st [] = []
  all_captured st (m ∷ ms) = captured st m ++ all_captured (step st m) ms
