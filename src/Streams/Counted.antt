-- ===== src/Streams/Counted.antt =====
-- streams.py: `_subscriber_count` is the number of the subscribers that are registered.
use hermes_stagewhisper_plug.Prelude.{
  ℕ, ◌+◌, ◌-◌, ◌≡◌, refl, ◌∙◌, sym, inl, inr, String, true, ◌||◌, Option, List, [], ◌∷◌, ◌++◌,
  length, length-append, any, leb, Bool-cases, arith,
}
use hermes_stagewhisper_plug.Dict
use hermes_stagewhisper_plug.Dict.{Dict}
use hermes_stagewhisper_plug.Json
use hermes_stagewhisper_plug.Json.{Members, as_string, in_set}
use hermes_stagewhisper_plug.Streams.{
  Subscriber, Limits, ReplyStreams, members_of, serialize_payload, init, transient_statuses,
}
use hermes_stagewhisper_plug.Streams.Operations.{
  prune, new_subscriber, subscribe, has_ident, others, put_members, unsubscribe, offer,
  offer_transient, for_members, opened, entry_for, append, capture_durable, publish_transient,
  publish_to, drain_if, drain, forget, is_found,
}
use hermes_stagewhisper_plug.Streams.Effects.{
  ident-offer, ident-offer_transient, ident-drain_if, capture_durable-cases, publish_to-cases,
}
use hermes_stagewhisper_plug.Streams.Calls.{
  Call, capture, publish, join, leave, take_all, drop_session, step, run,
}
use hermes_stagewhisper_plug.Streams.Distinct.{
  total, Distinct, AllDistinct, total-put, total-remove, total-for_members, for_members-AllDistinct,
  put-AllDistinct, remove-AllDistinct, members-Distinct, next-AllDistinct, append-Distinct,
  others-Distinct, length-others,
}

-- Each subscriber is registered once, and the streams count them.
pub record IsCounted (st : ReplyStreams) : Type 0 where
  pub distinct : AllDistinct st.next_ident st.subscribers
  pub counted : st.subscriber_count ≡ total st.subscribers

pub init-IsCounted : (l : Limits) (epoch : String) → IsCounted (init l epoch)
unfolding init
init-IsCounted l epoch = record { distinct = tt; counted = refl }

-- A pass over the subscribers of a session.
over_members : ReplyStreams → (Subscriber → Subscriber) → String → ReplyStreams
over_members st f k = record st { subscribers = for_members f k st.subscribers }

passed-AllDistinct :
    (st : ReplyStreams) (f : Subscriber → Subscriber) (k : String)
    → ((s : Subscriber) → (f s).ident ≡ s.ident)
    → IsCounted st
    → AllDistinct st.next_ident (for_members f k st.subscribers)
      × (st.subscriber_count ≡ total (for_members f k st.subscribers))
passed-AllDistinct st f k same c = (
  for_members-AllDistinct f st.next_ident k st.subscribers same c.distinct,
  c.counted ∙ sym (total-for_members f k st.subscribers),
)

drain-IsCounted :
    (st : ReplyStreams) (k : String) (ident : ℕ) → IsCounted st → IsCounted (drain st k ident).0
unfolding drain
drain-IsCounted st k ident c =
    let (distinct, counted) = passed-AllDistinct st (drain_if ident) k (ident-drain_if ident) c in
    record { distinct = distinct; counted = counted }

append-IsCounted :
    (now : ℕ) (st : ReplyStreams) (k : String) (payload : Members) (serialized : String)
    → IsCounted st
    → IsCounted (append now st k payload serialized)
unfolding append prune
append-IsCounted now st k payload serialized c =
    let pruned = prune now st in
    let backlog = (opened pruned now (Dict.get pruned.backlogs k)).0 in
    let task_id = as_string (Json.get payload "task_id") in
    let entry = entry_for backlog payload serialized in
    let (distinct, counted) =
      passed-AllDistinct st (offer st.limits task_id entry) k (ident-offer st.limits task_id entry)
        c in
    record { distinct = distinct; counted = counted }

capture_durable-IsCounted :
    (now : ℕ) (st : ReplyStreams) (k : String) (payload : Members)
    → IsCounted st
    → IsCounted (capture_durable now st k payload).0
capture_durable-IsCounted now st k payload c = elim (capture_durable-cases now st k payload) [
  | inl (_, same) ↦ rw same c
  | inr (_, appended) ↦
      rw appended (append-IsCounted now st k payload (serialize_payload payload) c)
]

publish_to-IsCounted :
    (st : ReplyStreams) (k : String) (payload : Members) (o : Option String)
    → IsCounted st
    → IsCounted (publish_to st k payload o).0
publish_to-IsCounted st k payload o c = elim (publish_to-cases st k payload o) [
  | inl same ↦ rw same c
  | inr (t, offered) ↦
      (let text = serialize_payload payload in
        let (distinct, counted) =
          passed-AllDistinct st (offer_transient st.limits t text) k
            (ident-offer_transient st.limits t text) c in
        rw offered (record { distinct = distinct; counted = counted }))
]

publish_transient-IsCounted :
    (st : ReplyStreams) (k : String) (payload : Members)
    → IsCounted st
    → IsCounted (publish_transient st k payload).0
unfolding publish_transient
publish_transient-IsCounted st k payload c =
    elim (Bool-cases (is_found (in_set transient_statuses (Json.get payload "status")))) [
      | inl e ↦
          rw (publish_transient, e)
            (publish_to-IsCounted st k payload (as_string (Json.get payload "task_id")) c)
      | inr e ↦ rw (publish_transient, e) c
    ]

-- A subscriber more.
subscribed-IsCounted :
    (st : ReplyStreams) (k : String) (last_event_id : Option String)
    → IsCounted st
    → (let listeners = members_of (Dict.get st.subscribers k) in
        let subs =
          Dict.put st.subscribers k (listeners ++ new_subscriber st k last_event_id ∷ []) in
        AllDistinct (st.next_ident + 1) subs × (st.subscriber_count + 1 ≡ total subs))
subscribed-IsCounted st k last_event_id c =
    let listeners = members_of (Dict.get st.subscribers k) in
    let s = new_subscriber st k last_event_id in
    (
      put-AllDistinct (st.next_ident + 1) st.subscribers k (listeners ++ s ∷ [])
          (next-AllDistinct st.next_ident st.subscribers c.distinct)
          (unfold new_subscriber in
            append-Distinct s listeners
              (members-Distinct st.next_ident st.subscribers k c.distinct)),
      omega (
        arith,
        c.counted,
        total-put st.subscribers k (listeners ++ s ∷ []),
        length-append listeners (s ∷ []),
      ),
    )

pub subscribe-IsCounted :
    (now : ℕ) (st : ReplyStreams) (k : String) (last_event_id : Option String)
    → IsCounted st
    → IsCounted (subscribe now st k last_event_id).0
unfolding subscribe prune
subscribe-IsCounted now st k last_event_id c =
    let pruned = prune now st in
    let known : IsCounted pruned = record { distinct = c.distinct; counted = c.counted } in
    let listeners = members_of (Dict.get st.subscribers k) in
    elim (Bool-cases (
      leb st.limits.max_subscribers_per_session (length listeners)
      || leb st.limits.max_subscribers_total st.subscriber_count)) [
        | inl e ↦ rw (subscribe, e) known
        | inr e ↦
            (let (distinct, counted) = subscribed-IsCounted pruned k last_event_id known in
              rw (subscribe, e) (record { distinct = distinct; counted = counted }))
      ]

-- A subscriber less.
left-IsCounted :
    (st : ReplyStreams) (k : String) (ident : ℕ)
    → IsCounted st
    → any (has_ident ident) (members_of (Dict.get st.subscribers k)) ≡ true
    → (let subs =
          put_members st.subscribers k (others ident (members_of (Dict.get st.subscribers k))) in
        AllDistinct st.next_ident subs × (st.subscriber_count - 1 ≡ total subs))
left-IsCounted st k ident c found =
    let listeners = members_of (Dict.get st.subscribers k) in
    let known = members-Distinct st.next_ident st.subscribers k c.distinct in
    put_others (others ident listeners) (others-Distinct st.next_ident ident listeners known)
      (length-others st.next_ident ident listeners known found)
  where
    put_others :
        (subs : List Subscriber)
        → Distinct st.next_ident subs
        → length subs + 1 ≡ length (members_of (Dict.get st.subscribers k))
        → AllDistinct st.next_ident (put_members st.subscribers k subs)
          × (st.subscriber_count - 1 ≡ total (put_members st.subscribers k subs))
    put_others [] d n = (
      remove-AllDistinct st.next_ident st.subscribers k c.distinct,
      omega (arith, c.counted, n, total-remove st.next_ident st.subscribers k c.distinct),
    )
    put_others (s ∷ subs) d n = (
      put-AllDistinct st.next_ident st.subscribers k (s ∷ subs) c.distinct d,
      omega (arith, c.counted, n, total-put st.subscribers k (s ∷ subs)),
    )

pub unsubscribe-IsCounted :
    (st : ReplyStreams) (s : Subscriber) → IsCounted st → IsCounted (unsubscribe st s)
unfolding unsubscribe
unsubscribe-IsCounted st s c =
    elim (Bool-cases
      (any (has_ident s.ident) (members_of (Dict.get st.subscribers s.session_id)))) [
        | inr e ↦ rw (unsubscribe, e) c
        | inl e ↦
            (let (distinct, counted) = left-IsCounted st s.session_id s.ident c e in
              rw (unsubscribe, e) (record { distinct = distinct; counted = counted }))
      ]

pub step-IsCounted : (st : ReplyStreams) (m : Call) → IsCounted st → IsCounted (step st m)
unfolding step forget
step-IsCounted st (capture now k payload) c = capture_durable-IsCounted now st k payload c
step-IsCounted st (publish k payload) c = publish_transient-IsCounted st k payload c
step-IsCounted st (join now k last) c = subscribe-IsCounted now st k last c
step-IsCounted st (leave s) c = unsubscribe-IsCounted st s c
step-IsCounted st (take_all k ident) c = drain-IsCounted st k ident c
step-IsCounted st (drop_session k) c = record { distinct = c.distinct; counted = c.counted }

pub run-IsCounted : (st : ReplyStreams) (ms : List Call) → IsCounted st → IsCounted (run st ms)
unfolding run
run-IsCounted st [] c = c
run-IsCounted st (m ∷ ms) c = run-IsCounted (step st m) ms (step-IsCounted st m c)
