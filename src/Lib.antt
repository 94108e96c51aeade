-- ===== src/Lib.antt =====
-- A model of the StageWhisper plugin for Hermes (hermes_stagewhisper_plugin/), and what is proved
-- of it. The plugin takes events of a call over HTTP, hands each to the agent's gateway as a turn,
-- and delivers what the agent says to the client: by POST to a callback URL, or over an event
-- stream that the client reads.
--
-- Parts, and the file that models each:
-- - hermes_stagewhisper_plugin/listener.py: Listener. The guard of every route (_guard) and the
--   incoming route (handle_incoming): a request is a record of its peer, its headers and its body,
--   and the answer is the adapter after it, the event it dispatched and the response. `hosts` is
--   the value of allowed_ingress_hosts(). Listener.Library: health, ping and the route of the
--   library model. Listener.Events: the event stream (handle_events), whose rounds say what other
--   tasks call, which write fails and how the wait ends. Listener.Routes, Listener.Repeats and the
--   modules below Listener.Events, proofs.
-- - hermes_stagewhisper_plugin/models.py: Models.Event, Models.Validate (validate_incoming, with
--   Models.Checks, Models.Fields and Models.Accepted for what acceptance means), Models.Urls (the
--   callback URL checks) and Models.Payloads. urllib's urlparse is a parameter of Models.Urls;
--   is_allowed_callback_url is the parameter `allowed` of what calls it. An exception of
--   validate_incoming is the constructor type_error, which the listener answers with status 500.
-- - hermes_stagewhisper_plugin/adapter.py: Adapter, the state of StageWhisperAdapter and its
--   deliveries; Adapter.Turns, the tables of the turns from accept_event to _terminate;
--   Adapter.Sends and Adapter.Drafts, what the gateway calls during a turn; Adapter.Settle,
--   _settle_turn and _keepalive; Adapter.Run, a whole _dispatch, and Adapter.Dispatch, its end,
--   with its except and finally clauses; Adapter.Disconnect, disconnect. Adapter.Evict,
--   Adapter.Closed, Adapter.Termination and the modules below Dispatch, Settle, Run and Disconnect,
--   proofs. connect, the locks of the chats, the semaphore and the cancellation of a _dispatch are
--   not modelled.
-- - hermes_stagewhisper_plugin/adapter.py (the functions of its settings, and __init__) and
--   register.py: Settings and Settings.Register; Settings.Valid and Settings.Attempts, proofs. The
--   config's `extra` is a JSON object, the environment a dict; a Floats says what Python makes of
--   the literal of a float.
-- - hermes_stagewhisper_plugin/llm_request.py, llm_replay.py, llm_host.py and llm_endpoint.py: Llm,
--   in modules of those names. The host's model is a function from the arguments of a call to how
--   it ends; what other requests do meanwhile is a function on `refused_by_host`.
-- - hermes_stagewhisper_plugin/profile_seed.py: Profile, the credentials that are passed on, and
--   Profile.Env, the lines of environment files. seed_profile itself, YAML and printing are not
--   modelled; the keys of a JSON object are taken to be different.
-- - hermes_stagewhisper_plugin/config.py and cli.py: Pairing, the lines that save_pairing writes and
--   the hosts that a pairing keeps; Pairing.Hosts, proofs. load_env_file is not modelled.
-- - hermes_stagewhisper_plugin/secure_fs.py: SecureFs, with a directory as its names and texts;
--   SecureFs.Safe and SecureFs.Whole, proofs. A name is taken to stand for the file that was opened
--   by it until it is removed.
-- - hermes_stagewhisper_plugin/streams.py: Streams, its records and the floor of a replay;
--   Streams.Operations, the methods of ReplyStreams; Streams.Backlog, Streams.Effects,
--   Streams.Calls, Streams.Follow, Streams.Distinct and Streams.Counted, proofs.
-- - hermes_stagewhisper_plugin/callbacks.py: Callbacks, with ClosedTurns and IdempotencyCache;
--   Callbacks.Recency, Callbacks.Cache and Callbacks.Closed, proofs.
-- - hermes_stagewhisper_plugin/delivery.py: Delivery (classify_callback_status, retry_callback);
--   deliver_reply and deliver_progress stand in Adapter, whose state they change; Delivery.Retry.
-- - hermes_stagewhisper_plugin/draft_stream.py: DraftStream, StreamChunkTracker; DraftStream.Reader,
--   a reader of the chunk protocol, and DraftStream.Turn.
-- - hermes_stagewhisper_plugin/reasoning_buffer.py: ReasoningBuffer.
-- - Prelude, Dict (Python's ordered dict), Text (str) and Json: what the parts share. Tests: runs
--   at concrete inputs.
--
-- How the code is modelled:
-- - A method of a mutable object is a function from its state to the state after it and the
--   result. A CallbackHandle, which several tables share, is its fields that never change, with an
--   identity; the fields that do change are in the adapter's `marks`, by identity.
-- - A handler that awaits is a function on Adapter.World: the adapter, the deliveries that lie
--   ahead and those made. Each delivery says how its attempts end and what the other tasks do to the
--   adapter meanwhile, which is an arbitrary function, so a theorem about it says what it asks of
--   that function. A sleep (Adapter.Settle.Sleeping) and the agent (Adapter.Run.Gateway, with the
--   keepalive and all that runs beside it) are such functions too.
-- - Times are natural numbers of milliseconds, and an argument or a field of the state; random ids
--   are a parameter, drawn in order. A payload's size is the length in bytes of its JSON text.
-- - Loops are structural recursion on the list they empty or the range they run through; the retry
--   loop has the four rounds of its range. Fuel is used in three places: for the decimal digits of a
--   number, where its own size is enough; for the rounds of _settle_turn, one for each millisecond up
--   to the deadline, as each sleep lasts at least one; and for the writes of _overwrite_in_chunks,
--   one for each byte of the file. That it is enough is part of the theorems on the two loops.
--
-- A text is a native String, which holds no lone surrogates, and a JSON number that is no integer is
-- the text that json.dumps writes of it.
--
-- Not modelled: the rest of config.py and cli.py, install.py and ops_runner.py, which read and
-- write files, the environment and processes; the shell scripts of hermes_stagewhisper_plugin/ops.
pub mod Prelude
pub mod Dict
pub mod Text
pub mod Json
pub mod Models
pub mod DraftStream
pub mod Callbacks
pub mod SecureFs
pub mod Settings
pub mod Streams
pub mod Delivery
pub mod Pairing
pub mod Profile
pub mod ReasoningBuffer
pub mod Adapter
pub mod Listener
pub mod Llm
pub mod Tests
