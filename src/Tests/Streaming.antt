-- ===== src/Tests/Streaming.antt =====
-- Tests of streams.py, callbacks.py, delivery.py and draft_stream.py.
use hermes_stagewhisper_plug.Prelude.{
  ℕ, zero, suc, ◌≤◌, ◌<◌, ◌≡◌, refl, ◌↔◌, String, true, false, Option, none, some, List, [], ◌∷◌,
  ◌++◌, length, arith,
}
use hermes_stagewhisper_plug.Dict
use hermes_stagewhisper_plug.Dict.{Dict}
use hermes_stagewhisper_plug.Dict.Laws.{Unique}
use hermes_stagewhisper_plug.Json.{Members, string, dict}
use hermes_stagewhisper_plug.Streams
use hermes_stagewhisper_plug.Streams.{
  ReplyStreams, Subscriber, QueuedReply, SessionBacklog, Limits, default_limits, clamp_limits,
}
use hermes_stagewhisper_plug.Streams.Operations.{subscribe, subscriber_of, push_entry, entry_for}
use hermes_stagewhisper_plug.Streams.Backlog.{IsLimits, IsBacklog, push_entry-IsBacklog}
use hermes_stagewhisper_plug.Streams.Calls.{
  Call, capture, take_all, drop_session, all_handed, all_captured,
}
use hermes_stagewhisper_plug.Streams.Calls
use hermes_stagewhisper_plug.Streams.Counted.{IsCounted, init-IsCounted, subscribe-IsCounted}
use hermes_stagewhisper_plug.Listener.Events.{Round, Connection, woken, lost, follow, serve_stream}
use hermes_stagewhisper_plug.Listener.Events.Closed.{serve_stream-closed}
use hermes_stagewhisper_plug.Listener.Events.Account.{entries_in, performed}
use hermes_stagewhisper_plug.Listener.Events.Stream.{Unfailing, follow-exact}
use hermes_stagewhisper_plug.Streams.Follow.{Follows, run-exact}
use hermes_stagewhisper_plug.Delivery.{
  Attempt, returned, raised, delivered, retry_callback, callback_max_attempts,
}
use hermes_stagewhisper_plug.Delivery.Retry.{Delivers, backoffs, retry_callback-exact}
use hermes_stagewhisper_plug.DraftStream.Reader.{View, blank, read_all}
use hermes_stagewhisper_plug.DraftStream.Turn.{stream_turn, stream_turn-read}
use hermes_stagewhisper_plug.Callbacks.{CallbackHandle, init, get, put, remember, by_task, by_chat}
use hermes_stagewhisper_plug.Callbacks.Cache.{
  get_call, put_call, cache_of, history, run-history, get-put_cached,
}
use hermes_stagewhisper_plug.Callbacks.Cache
use hermes_stagewhisper_plug.Callbacks.Closed.{remember-found}

abbrev reply : String → Members
reply text =
    dict (("status", string "message") ∷ ("task_id", string "t") ∷ ("text", string text) ∷ [])

abbrev opened_streams : ReplyStreams × Option Subscriber
opened_streams = subscribe 0 (Streams.init default_limits "e") "s" none

abbrev follower : Subscriber
follower = record {
  ident = 0;
  session_id = "s";
  pending = [];
  pending_bytes = 0;
  transient_payloads = [];
  wakeup = false;
  dropped = false;
}

abbrev calls : List Call
calls =
    capture 1 "s" (reply "a") ∷ take_all "s" 0 ∷ capture 2 "s" (reply "b") ∷ drop_session "s" ∷ []

opened_follower : subscriber_of opened_streams.0 "s" 0 ≡ some follower
unfolding subscribe subscriber_of Streams.init Dict.get Dict.put
opened_follower = refl

run-exact_example :
    (s : Subscriber) × (subscriber_of (Calls.run opened_streams.0 calls) "s" 0 ≡ some s)
    × Follows "s" 0 follower s
        (all_handed "s" 0 opened_streams.0 calls)
        (all_captured "s" 0 opened_streams.0 calls)
run-exact_example =
    run-exact "s" 0 calls opened_streams.0 follower opened_follower
      (refl, (refl, (refl, (refl, tt))))

abbrev empty_backlog : SessionBacklog
empty_backlog = record {
  token = "e-0";
  entries = [];
  retained_bytes = 0;
  updated_at = 0;
  next_sequence = 0;
}

default-IsLimits : IsLimits default_limits
default-IsLimits = record { some_entry = omega arith; event_fits = omega arith }

empty-IsBacklog : IsBacklog default_limits empty_backlog
empty-IsBacklog = record {
  bytes = refl;
  few = omega arith;
  small = omega arith;
  first = 0;
  numbered = tt;
  next = refl;
}

hello_fits :
    (entry_for empty_backlog (reply "hello") "hello").size_bytes ≤ default_limits.max_event_bytes
unfolding entry_for
hello_fits = omega arith

push_entry-IsBacklog_example :
    IsBacklog default_limits
      (push_entry default_limits empty_backlog (entry_for empty_backlog (reply "hello") "hello"))
    × (gone : List QueuedReply) × (kept : List QueuedReply) × (gone ++ kept ≡ [])
    × ((push_entry default_limits empty_backlog
          (entry_for empty_backlog (reply "hello") "hello")).entries
        ≡ kept ++ entry_for empty_backlog (reply "hello") "hello" ∷ [])
push_entry-IsBacklog_example =
    push_entry-IsBacklog default_limits empty_backlog (reply "hello") "hello" default-IsLimits
      empty-IsBacklog hello_fits

abbrev drafts : List (String × String)
drafts = ("p1", "Hel") ∷ ("p2", "Hello") ∷ ("p3", "Hi") ∷ []

stream_turn-read_example :
    (v : View) × (read_all blank (stream_turn [] "t" drafts "p4" "Hi there").1 ≡ some v)
    × (v.finished ≡ true)
    × (v.part_open ≡ false)
    × (v.shown ≡ "Hi there")
    × (Dict.get (stream_turn [] "t" drafts "p4" "Hi there").0 "t" ≡ none)
unfolding Dict.get
stream_turn-read_example = stream_turn-read [] "t" drafts "p4" "Hi there" refl refl

abbrev post : ℕ → Attempt
post zero = raised
post (suc k) = returned delivered

retry_callback-exact_example :
    ((retry_callback post).result ≡ true
      ↔ ((k : ℕ) × (k < callback_max_attempts) × Delivers post 0 k))
    × (n : ℕ) × (n < callback_max_attempts)
    × ((retry_callback post).attempts ≡ suc n)
    × ((retry_callback post).sleeps ≡ backoffs post 0 n)
retry_callback-exact_example = retry_callback-exact post

abbrev uses : List Cache.Call
uses =
    put_call "a" (reply "1")
    ∷ put_call "b" (reply "2")
    ∷ get_call "a"
    ∷ put_call "c" (reply "3")
    ∷ []

run-history_example :
    (Cache.run (init 2) uses ≡ cache_of 2 (history 2 [] uses))
    × (length (Cache.run (init 2) uses).store ≤ 2)
    × Unique (Cache.run (init 2) uses).store
run-history_example = run-history 2 uses

get-put_cached_example :
    (get (put (Cache.run (init 2) uses) "d" (reply "4")) "d").1 ≡ some (reply "4")
get-put_cached_example = get-put_cached 2 uses "d" (reply "4")

abbrev handle : CallbackHandle
handle = record {
  ident = 7;
  task_id = "t";
  session_id = "s";
  user_message_id = none;
  callback_url = "";
  callback_token = "";
  chat_id = "sw:s:chat";
  is_reasoning = false;
}

remember-found_example :
    (by_task (remember (record { capacity = 1; turns = ("u", handle) ∷ [] }) handle) "t"
      ≡ some handle)
    × (by_chat (remember (record { capacity = 1; turns = ("u", handle) ∷ [] }) handle) "sw:s:chat"
        ≡ some handle)
    × (length (remember (record { capacity = 1; turns = ("u", handle) ∷ [] }) handle).turns ≤ 1)
remember-found_example = remember-found 1 (("u", handle) ∷ []) handle (omega arith)

-- A round in which a reply is captured while the stream waits, and one that writes it.
abbrev two_rounds : List Round
two_rounds =
    record { writing = []; fails_at = none; waiting = capture 1 "s" (reply "a") ∷ []; wait = woken }
    ∷ record { writing = []; fails_at = none; waiting = []; wait = lost }
    ∷ []

follow-exact_example :
    (after : Subscriber) × (gone : List QueuedReply) × (subscriber_of
        (follow "s" 0 two_rounds opened_streams.0).0
        "s"
        0
      ≡ some after)
    × (Unfailing "s" 0 two_rounds → gone ≡ [])
    × (after.dropped ≡ false
        → entries_in (follow "s" 0 two_rounds opened_streams.0).1 ++ (gone ++ after.pending)
          ≡ follower.pending
            ++ all_captured "s" 0 opened_streams.0 (performed "s" 0 two_rounds opened_streams.0))
follow-exact_example =
    follow-exact "s" 0 two_rounds opened_streams.0 follower opened_follower
      (tt, (refl, tt), (tt, tt, tt))

abbrev two_round_stream : Connection
two_round_stream = record { opens = true; before = []; rounds = two_rounds }

opened-IsCounted : IsCounted opened_streams.0
opened-IsCounted =
    subscribe-IsCounted 0 (Streams.init default_limits "e") "s" none
      (init-IsCounted default_limits "e")

serve_stream-closed_example :
    (subscriber_of (serve_stream two_round_stream follower opened_streams.0).0 "s" 0 ≡ none)
    × IsCounted (serve_stream two_round_stream follower opened_streams.0).0
serve_stream-closed_example =
    serve_stream-closed two_round_stream follower opened_streams.0 opened-IsCounted
