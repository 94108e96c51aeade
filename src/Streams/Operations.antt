-- ===== src/Streams/Operations.antt =====
-- streams.py: the methods of `ReplyStreams`. `now` is what `self._now()` returns.
use Prim.Native.String.{len}
use hermes_stagewhisper_plug.Prelude.{
  ℕ, ◌-◌, ◌+◌, String, Bool, true, false, not, ◌||◌, Option, none, some, List, [], ◌∷◌, ◌++◌, ◌==◌,
  length, any, keep_if, map, ltb, leb, eqb, if◌then◌else◌,
}
use hermes_stagewhisper_plug.Dict
use hermes_stagewhisper_plug.Dict.{Dict}
use hermes_stagewhisper_plug.Json
use hermes_stagewhisper_plug.Json.{Json, Members, null, string, InSet, in_set, as_string, show_nat}
use hermes_stagewhisper_plug.Text.{◌<>◌, is_empty}
use hermes_stagewhisper_plug.Streams.{
  QueuedReply, Drained, SessionBacklog, Subscriber, Limits, ReplyStreams, durable_statuses,
  transient_statuses, serialize_payload, replay_floor, is_after, entries_of, members_of,
  total_bytes,
}

-- backlog.updated_at < now - retention
abbrev pub is_expired : ℕ → ℕ → SessionBacklog → Bool
is_expired now retention backlog = ltb (backlog.updated_at + retention) now

-- `_prune_expired`
unfoldable pub prune : ℕ → ReplyStreams → ReplyStreams
prune now st = record st {
  backlogs = keep_if (λ e. not (is_expired now st.limits.backlog_retention e.1)) st.backlogs;
}

unfoldable pub new_subscriber : ReplyStreams → String → Option String → Subscriber
new_subscriber st session_id last_event_id =
    let backlog = Dict.get st.backlogs session_id in
    let floor = replay_floor backlog last_event_id in
    let replayed = keep_if (is_after floor) (entries_of backlog) in
    record {
      ident = st.next_ident;
      session_id = session_id;
      pending = replayed;
      pending_bytes = total_bytes replayed;
      transient_payloads = [];
      wakeup = false;
      dropped = false;
    }

-- `none` where there are too many subscribers
unfoldable pub subscribe :
    ℕ → ReplyStreams → String → Option String → ReplyStreams × Option Subscriber
unfolding prune new_subscriber
subscribe now st₀ session_id last_event_id =
    let st = prune now st₀ in
    let listeners = members_of (Dict.get st.subscribers session_id) in
    if leb st.limits.max_subscribers_per_session (length listeners)
      || leb st.limits.max_subscribers_total st.subscriber_count
    then (st, none)
    else (let subscriber = new_subscriber st session_id last_event_id in
        (
          record st {
            subscribers = Dict.put st.subscribers session_id (listeners ++ subscriber ∷ []);
            subscriber_count = st.subscriber_count + 1;
            next_ident = st.next_ident + 1;
          },
          some subscriber,
        ))

abbrev pub has_ident : ℕ → Subscriber → Bool
has_ident ident s = eqb s.ident ident

abbrev pub others : ℕ → List Subscriber → List Subscriber
others ident = keep_if (λ s. not (has_ident ident s))

-- an empty set leaves the dict
abbrev pub put_members : Dict (List Subscriber) → String → List Subscriber → Dict (List Subscriber)
put_members subs session_id [] = Dict.remove subs session_id
put_members subs session_id (s ∷ rest) = Dict.put subs session_id (s ∷ rest)

unfoldable pub unsubscribe : ReplyStreams → Subscriber → ReplyStreams
unsubscribe st subscriber =
    let listeners = members_of (Dict.get st.subscribers subscriber.session_id) in
    if any (has_ident subscriber.ident) listeners
    then record st {
      subscribers =
          put_members st.subscribers subscriber.session_id (others subscriber.ident listeners);
      subscriber_count = st.subscriber_count - 1;
    }
    else st

-- `_drop_subscriber`
unfoldable pub drop_subscriber : Subscriber → Subscriber
drop_subscriber s = record s {
  dropped = true;
  pending = [];
  pending_bytes = 0;
  transient_payloads = [];
}

-- the body of the loop over the subscribers in `publish_transient`
unfoldable pub offer_transient : Limits → String → String → Subscriber → Subscriber
unfolding drop_subscriber
offer_transient l task_id serialized s =
    let queued = Dict.move_to_end (Dict.put s.transient_payloads task_id serialized) task_id in
    let s₁ : Subscriber = record s { transient_payloads = queued } in
    let s₂ = if ltb l.backlog_per_session (length queued) then drop_subscriber s₁ else s₁ in
    if s.dropped then s else record s₂ { wakeup = true }

abbrev pub forget_transient : Option String → Dict String → Dict String
forget_transient none payloads = payloads
forget_transient (some task_id) payloads = Dict.remove payloads task_id

-- the body of the loop over the subscribers in `_append`
unfoldable pub offer : Limits → Option String → QueuedReply → Subscriber → Subscriber
unfolding drop_subscriber
offer l task_id entry s =
    let s₁ : Subscriber = record s {
      pending = s.pending ++ entry ∷ [];
      pending_bytes = s.pending_bytes + entry.size_bytes;
      transient_payloads = forget_transient task_id s.transient_payloads;
    } in
    let over =
      ltb l.backlog_per_session (length s₁.pending)
      || ltb l.backlog_bytes_per_session s₁.pending_bytes in
    let s₂ = if over then drop_subscriber s₁ else s₁ in
    if s.dropped then s else record s₂ { wakeup = true }

-- for subscriber in self._subscribers.get(session_id, ()): …
unfoldable pub for_members :
    (Subscriber → Subscriber) → String → Dict (List Subscriber) → Dict (List Subscriber)
for_members f session_id [] = []
for_members f session_id ((k, subs) ∷ rest) =
    let more = for_members f session_id rest in
    if k == session_id then (k, map f subs) ∷ rest else (k, subs) ∷ more

-- while len(entries) > … or retained_bytes > …: popleft
unfoldable pub trim : Limits → List QueuedReply → ℕ → List QueuedReply × ℕ
trim l [] bytes = ([], bytes)
trim l (e ∷ es) bytes =
    let rest = trim l es (bytes - e.size_bytes) in
    if ltb l.backlog_per_session (length (e ∷ es)) || ltb l.backlog_bytes_per_session bytes
    then rest
    else (e ∷ es, bytes)

-- the backlog that `_append` writes to, and the serial after it
abbrev pub opened : ReplyStreams → ℕ → Option SessionBacklog → SessionBacklog × ℕ
opened st now none = (
  record {
    token = st.epoch <> "-" <> show_nat st.next_backlog_serial;
    entries = [];
    retained_bytes = 0;
    updated_at = now;
    next_sequence = 0;
  },
  st.next_backlog_serial + 1,
)
opened st now (some backlog) = (record backlog { updated_at = now }, st.next_backlog_serial)

unfoldable pub entry_for : SessionBacklog → Members → String → QueuedReply
entry_for backlog payload serialized = record {
  payload = payload;
  serialized_payload = serialized;
  size_bytes = len serialized;
  event_id = backlog.token <> "." <> show_nat backlog.next_sequence;
  sequence = backlog.next_sequence;
}

-- the backlog with one entry more, trimmed
unfoldable pub push_entry : Limits → SessionBacklog → QueuedReply → SessionBacklog
unfolding trim
push_entry l backlog entry =
    let (kept, bytes) =
      trim l (backlog.entries ++ entry ∷ []) (backlog.retained_bytes + entry.size_bytes) in
    record backlog {
      entries = kept;
      retained_bytes = bytes;
      next_sequence = backlog.next_sequence + 1;
    }

-- `_append`
unfoldable pub append : ℕ → ReplyStreams → String → Members → String → ReplyStreams
append now st₀ session_id payload serialized =
    let st = prune now st₀ in
    let (backlog, serial) = opened st now (Dict.get st.backlogs session_id) in
    let entry = entry_for backlog payload serialized in
    let written =
      Dict.move_to_end (Dict.put st.backlogs session_id (push_entry st.limits backlog entry))
        session_id in
    record st {
      backlogs = Dict.drop_to st.limits.max_sessions written;
      subscribers =
          for_members (offer st.limits (as_string (Json.get payload "task_id")) entry) session_id
            st.subscribers;
      next_backlog_serial = serial;
    }

abbrev pub is_found : InSet → Bool
is_found InSet.found = true
is_found InSet.missing = false
is_found InSet.type_error = false

-- status is None or status in DURABLE_STATUSES
unfoldable pub is_durable : Json → Bool
unfolding in_set
is_durable null = true
is_durable status = is_found (in_set durable_statuses status)

unfoldable pub capture_durable : ℕ → ReplyStreams → String → Members → ReplyStreams × Bool
capture_durable now st session_id payload =
    let serialized = serialize_payload payload in
    if not (is_durable (Json.get payload "status"))
    then (st, false)
    else if ltb st.limits.max_event_bytes (len serialized)
    then (st, false)
    else (append now st session_id payload serialized, true)

unfoldable pub publish_to : ReplyStreams → String → Members → Option String → ReplyStreams × Bool
publish_to st session_id payload none = (st, false)
publish_to st session_id payload (some task_id) =
    let serialized = serialize_payload payload in
    if is_empty task_id || ltb st.limits.max_event_bytes (len serialized) then (st, false) else (
      record st {
        subscribers =
            for_members (offer_transient st.limits task_id serialized) session_id st.subscribers;
      },
      true,
    )

unfoldable pub publish_transient : ReplyStreams → String → Members → ReplyStreams × Bool
unfolding publish_to in_set
publish_transient st session_id payload =
    if is_found (in_set transient_statuses (Json.get payload "status"))
    then publish_to st session_id payload (as_string (Json.get payload "task_id"))
    else (st, false)

-- `drain` on the subscriber itself
unfoldable pub drained : Subscriber → Subscriber × Drained
drained s = (
  record s { pending = []; pending_bytes = 0; transient_payloads = [] },
  record { entries = s.pending; transient_payloads = Dict.values s.transient_payloads },
)

abbrev pub find_ident : ℕ → List Subscriber → Option Subscriber
find_ident ident [] = none
find_ident ident (s ∷ rest) = if has_ident ident s then some s else find_ident ident rest

-- the subscriber object with an identity, while it is registered
unfoldable pub subscriber_of : ReplyStreams → String → ℕ → Option Subscriber
subscriber_of st session_id ident =
    find_ident ident (members_of (Dict.get st.subscribers session_id))

abbrev pub drain_if : ℕ → Subscriber → Subscriber
drain_if ident s = if has_ident ident s then (drained s).0 else s

abbrev pub nothing_drained : Drained
nothing_drained = record { entries = []; transient_payloads = [] }

unfoldable pub drain : ReplyStreams → String → ℕ → ReplyStreams × Drained
drain st session_id ident = (
  record st { subscribers = for_members (drain_if ident) session_id st.subscribers },
  elim (subscriber_of st session_id ident) [ none ↦ nothing_drained | some s ↦ (drained s).1 ],
)

unfoldable pub retained : ReplyStreams → String → List QueuedReply
retained st session_id = entries_of (Dict.get st.backlogs session_id)

unfoldable pub has_listener : ReplyStreams → String → Bool
has_listener st session_id = elim (members_of (Dict.get st.subscribers session_id)) [
  | [] ↦ false
  | _ ∷ _ ↦ true
]

-- `forget`, and `_invalidate`
unfoldable pub forget : ReplyStreams → String → ReplyStreams
forget st session_id = record st { backlogs = Dict.remove st.backlogs session_id }
