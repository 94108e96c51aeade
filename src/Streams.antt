-- ===== src/Streams.antt =====
-- streams.py: the retained replies of each session, and the subscribers that follow them.
pub mod Operations
pub mod Backlog
pub mod Effects
pub mod Calls
pub mod Distinct
pub mod Counted
pub mod Follow
use Prim.Native.String.{len}
use hermes_stagewhisper_plug.Prelude.{
  ℕ, zero, suc, min, max, ◌-◌, ◌+◌, String, Bool, true, false, not, ◌&&◌, ◌||◌, Option, none, some,
  List, [], ◌∷◌, ◌++◌, ◌==◌, length, any, keep_if, ltb, leb, eqb, if◌then◌else◌,
}
use hermes_stagewhisper_plug.Dict
use hermes_stagewhisper_plug.Dict.{Dict}
use hermes_stagewhisper_plug.Json
use hermes_stagewhisper_plug.Json.{
  Json, Members, null, string, object, InSet, in_set, as_string, dumps, show_nat,
}
use hermes_stagewhisper_plug.Text.{◌<>◌, is_empty}
use hermes_stagewhisper_plug.Text.Numbers.{ℤ, pos, negsuc, parse_int}

abbrev pub durable_statuses : List String
durable_statuses = "completed" ∷ "errored" ∷ "message" ∷ "silent" ∷ "notice" ∷ "stream" ∷ []

abbrev pub transient_statuses : List String
transient_statuses = "typing" ∷ "tool_call" ∷ []

pub record QueuedReply : Type 0 where
  pub payload : Members
  pub serialized_payload : String
  pub size_bytes : ℕ
  pub event_id : String
  pub sequence : ℕ

pub record Drained : Type 0 where
  pub entries : List QueuedReply
  pub transient_payloads : List String

pub record SessionBacklog : Type 0 where
  pub token : String
  pub entries : List QueuedReply
  pub retained_bytes : ℕ
  pub updated_at : ℕ
  pub next_sequence : ℕ

-- `Subscriber` is compared by identity (`eq=False`): `ident`.
pub record Subscriber : Type 0 where
  pub ident : ℕ
  pub session_id : String
  pub pending : List QueuedReply
  pub pending_bytes : ℕ
  pub transient_payloads : Dict String
  pub wakeup : Bool
  pub dropped : Bool

pub record Limits : Type 0 where
  pub backlog_per_session : ℕ
  pub backlog_bytes_per_session : ℕ
  pub max_event_bytes : ℕ
  pub max_sessions : ℕ
  pub max_subscribers_per_session : ℕ
  pub max_subscribers_total : ℕ
  pub backlog_retention : ℕ

-- `subscribers` holds a set for each session: a list, in the order of registration. Times are in
-- milliseconds.
pub record ReplyStreams : Type 0 where
  pub limits : Limits
  pub backlogs : Dict SessionBacklog
  pub subscribers : Dict (List Subscriber)
  pub subscriber_count : ℕ
  pub epoch : String
  pub next_backlog_serial : ℕ
  pub next_ident : ℕ

-- `__init__`: every bound is at least 1, and one event fits a session's bytes
unfoldable pub clamp_limits : Limits → Limits
clamp_limits l = record {
  backlog_per_session = max 1 l.backlog_per_session;
  backlog_bytes_per_session = max 1 l.backlog_bytes_per_session;
  max_event_bytes = min (max 1 l.max_event_bytes) (max 1 l.backlog_bytes_per_session);
  max_sessions = max 1 l.max_sessions;
  max_subscribers_per_session = max 1 l.max_subscribers_per_session;
  max_subscribers_total = max 1 l.max_subscribers_total;
  backlog_retention = l.backlog_retention;
}

unfoldable pub init : Limits → String → ReplyStreams
unfolding clamp_limits
init l epoch = record {
  limits = clamp_limits l;
  backlogs = [];
  subscribers = [];
  subscriber_count = 0;
  epoch = epoch;
  next_backlog_serial = 0;
  next_ident = 0;
}

abbrev pub default_limits : Limits
default_limits = record {
  backlog_per_session = 1024;
  backlog_bytes_per_session = 4194304;
  max_event_bytes = 262144;
  max_sessions = 256;
  max_subscribers_per_session = 4;
  max_subscribers_total = 64;
  backlog_retention = 1800000;
}

-- `serialize_payload`: a text, whose `len` is the number of its UTF-8 bytes
abbrev pub serialize_payload : Members → String
serialize_payload payload = dumps (object payload)

-- event_id.rpartition("."): `none` where there is no dot
unfoldable pub rpartition : String → Option (String × String)
rpartition String.[] = none
rpartition (String.◌∷◌ c s) = elim (rpartition s) [
  | some (before, after) ↦ some (String.◌∷◌ c before, after)
  | none ↦ if String.◌∷◌ c String.[] == "." then some (String.[], s) else none
]

abbrev pub last_sequence : List QueuedReply → Option ℕ
last_sequence [] = none
last_sequence (e ∷ []) = some e.sequence
last_sequence (e ∷ e' ∷ es) = last_sequence (e' ∷ es)

-- `sequence > entries[-1].sequence`, or no entries
abbrev pub is_past : Option ℕ → ℤ → Bool
is_past none sequence = true
is_past (some last) (pos n) = ltb last n
is_past (some last) (negsuc n) = false

abbrev pub checked_floor : SessionBacklog → Option ℤ → Option ℤ
checked_floor backlog none = none
checked_floor backlog (some sequence) =
    if is_past (last_sequence backlog.entries) sequence then none else some sequence

unfoldable pub floor_in : SessionBacklog → String → Option ℤ
unfolding rpartition parse_int
floor_in backlog last_event_id = elim (rpartition last_event_id) [
  | none ↦ none
  | some (token, raw_sequence) ↦
      if token == backlog.token then checked_floor backlog (parse_int raw_sequence) else none
]

-- `_replay_floor`
unfoldable pub replay_floor : Option SessionBacklog → Option String → Option ℤ
unfolding floor_in
replay_floor none last_event_id = none
replay_floor (some backlog) none = none
replay_floor (some backlog) (some last_event_id) =
    if is_empty last_event_id then none else floor_in backlog last_event_id

-- `floor is None or entry.sequence > floor`
abbrev pub is_after : Option ℤ → QueuedReply → Bool
is_after none entry = true
is_after (some (pos floor)) entry = ltb floor entry.sequence
is_after (some (negsuc n)) entry = true

abbrev pub entries_of : Option SessionBacklog → List QueuedReply
entries_of none = []
entries_of (some backlog) = backlog.entries

abbrev pub members_of : Option (List Subscriber) → List Subscriber
members_of none = []
members_of (some subs) = subs

abbrev pub total_bytes : List QueuedReply → ℕ
total_bytes [] = 0
total_bytes (e ∷ es) = e.size_bytes + total_bytes es
