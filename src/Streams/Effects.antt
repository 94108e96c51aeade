-- ===== src/Streams/Effects.antt =====
-- How the calls of streams.py change one subscriber among the others.
use hermes_stagewhisper_plug.Prelude.{
  ℕ, ◌≡◌, refl, ◌⊎◌, String, true, false, ◌||◌, Option, none, some, List, [], ◌∷◌, ◌++◌, ◌==◌,
  eq_iff, map, ltb, eqb, arith, Bool-cases, inl, inr, if◌then◌else◌,
}
use hermes_stagewhisper_plug.Dict
use hermes_stagewhisper_plug.Dict.{Dict}
use hermes_stagewhisper_plug.Dict.Laws.{get-put, get-remove}
use hermes_stagewhisper_plug.Json
use hermes_stagewhisper_plug.Json.{Members, as_string}
use Prim.Native.String.{len}
use hermes_stagewhisper_plug.Text.{is_empty}
use hermes_stagewhisper_plug.Json.{in_set}
use hermes_stagewhisper_plug.Streams.{
  transient_statuses, QueuedReply, Subscriber, Limits, ReplyStreams, members_of, serialize_payload,
}
use hermes_stagewhisper_plug.Streams.Operations.{
  is_found, others, put_members, offer_transient, offer, for_members, append, capture_durable,
  publish_transient, publish_to, drained, find_ident, drain_if,
}

abbrev pub map_found : (Subscriber → Subscriber) → Option Subscriber → Option Subscriber
map_found f none = none
map_found f (some s) = some (f s)

pub find_ident-map :
    (f : Subscriber → Subscriber) (ident : ℕ) (subs : List Subscriber)
    → ((s : Subscriber) → (f s).ident ≡ s.ident)
    → find_ident ident (map f subs) ≡ map_found f (find_ident ident subs)
find_ident-map f ident [] same = refl
find_ident-map f ident (s ∷ subs) same = ground (arith, same s, find_ident-map f ident subs same)

pub members-for_members :
    (f : Subscriber → Subscriber) (k j : String) (d : Dict (List Subscriber))
    → members_of (Dict.get (for_members f k d) j)
      ≡ (if j == k then map f (members_of (Dict.get d j)) else members_of (Dict.get d j))
unfolding Dict.get for_members
members-for_members f k j [] = ground arith
members-for_members f k j ((i, subs) ∷ d) =
    ground (arith, eq_iff i k, eq_iff i j, eq_iff j k, members-for_members f k j d)

-- A pass over the subscribers of session `k`, seen at one subscriber of session `j`.
pub find-for_members :
    (f : Subscriber → Subscriber) (k j : String) (ident : ℕ) (d : Dict (List Subscriber))
    → ((s : Subscriber) → (f s).ident ≡ s.ident)
    → find_ident ident (members_of (Dict.get (for_members f k d) j)) ≡ (
        if j == k
        then map_found f (find_ident ident (members_of (Dict.get d j)))
        else find_ident ident (members_of (Dict.get d j)))
find-for_members f k j ident d same = rw members-for_members (elim (Bool-cases (j == k)) [
  | inl e ↦ rw e (find_ident-map f ident (members_of (Dict.get d j)) same)
  | inr e ↦ rw e
])

pub find_ident-append :
    (ident : ℕ) (subs : List Subscriber) (s t : Subscriber)
    → find_ident ident subs ≡ some s
    → find_ident ident (subs ++ t ∷ []) ≡ some s
find_ident-append ident [] s t h = cc
find_ident-append ident (x ∷ subs) s t h = ground (arith, find_ident-append ident subs s t)

pub find_ident-ident :
    (ident : ℕ) (subs : List Subscriber) (s : Subscriber)
    → find_ident ident subs ≡ some s
    → s.ident ≡ ident
find_ident-ident ident [] s h = cc
find_ident-ident ident (x ∷ subs) s h = ground (arith, find_ident-ident ident subs s)

pub find_ident-others :
    (ident gone : ℕ) (subs : List Subscriber)
    → eqb ident gone ≡ false
    → find_ident ident (others gone subs) ≡ find_ident ident subs
find_ident-others ident gone [] h = refl
find_ident-others ident gone (x ∷ subs) h = ground (arith, find_ident-others ident gone subs h)

pub members-put_members :
    (d : Dict (List Subscriber)) (k j : String) (subs : List Subscriber)
    → members_of (Dict.get (put_members d k subs) j)
      ≡ (if k == j then subs else members_of (Dict.get d j))
members-put_members d k j [] = rw get-remove (ground arith)
members-put_members d k j (s ∷ subs) = rw get-put (ground arith)

pub ident-offer :
    (l : Limits) (t : Option String) (e : QueuedReply) (s : Subscriber)
    → (offer l t e s).ident ≡ s.ident
unfolding offer
ident-offer l t e s = ground arith

pub ident-offer_transient :
    (l : Limits) (t e : String) (s : Subscriber) → (offer_transient l t e s).ident ≡ s.ident
unfolding offer_transient
ident-offer_transient l t e s = ground arith

pub ident-drain_if : (i : ℕ) (s : Subscriber) → (drain_if i s).ident ≡ s.ident
unfolding drained
ident-drain_if i s = ground arith

-- A subscriber that an append leaves standing was standing, and has the entry behind its others.
pub offer-pending :
    (l : Limits) (t : Option String) (e : QueuedReply) (s : Subscriber)
    → (offer l t e s).dropped ≡ false
    → (s.dropped ≡ false) × ((offer l t e s).pending ≡ s.pending ++ e ∷ [])
unfolding offer
offer-pending l t e s h = ground arith

pub offer_transient-pending :
    (l : Limits) (t e : String) (s : Subscriber)
    → (offer_transient l t e s).dropped ≡ false
    → (s.dropped ≡ false) × ((offer_transient l t e s).pending ≡ s.pending)
unfolding offer_transient
offer_transient-pending l t e s h = ground arith

pub capture_durable-cases :
    (now : ℕ) (st : ReplyStreams) (k : String) (payload : Members)
    → (((capture_durable now st k payload).1 ≡ false) × ((capture_durable now st k payload).0 ≡ st))
      ⊎ (((capture_durable now st k payload).1 ≡ true)
          × ((capture_durable now st k payload).0
              ≡ append now st k payload (serialize_payload payload)))
unfolding capture_durable
capture_durable-cases now st k payload = ground arith

-- the streams after a pass of `publish_transient`
abbrev pub offered_to : ReplyStreams → String → String → String → ReplyStreams
offered_to st k t text = record st {
  subscribers = for_members (offer_transient st.limits t text) k st.subscribers;
}

pub publish_to-cases :
    (st : ReplyStreams) (k : String) (payload : Members) (o : Option String)
    → ((publish_to st k payload o).0 ≡ st)
      ⊎ ((t : String) × ((publish_to st k payload o).0
            ≡ offered_to st k t (serialize_payload payload)))
unfolding publish_to
publish_to-cases st k payload none = inl refl
publish_to-cases st k payload (some t) =
    elim (Bool-cases
      (is_empty t || ltb st.limits.max_event_bytes (len (serialize_payload payload)))) [
        | inl e ↦ inl (rw (e, publish_to))
        | inr e ↦ inr (t, rw (e, publish_to))
      ]

pub publish_transient-cases :
    (st : ReplyStreams) (k : String) (payload : Members)
    → ((publish_transient st k payload).0 ≡ st)
      ⊎ ((t : String) × ((publish_transient st k payload).0
            ≡ offered_to st k t (serialize_payload payload)))
unfolding publish_transient
publish_transient-cases st k payload =
    elim (Bool-cases (is_found (in_set transient_statuses (Json.get payload "status")))) [
      | inl e ↦ rw (e, publish_transient) (publish_to-cases st k payload _)
      | inr e ↦ inl (rw (e, publish_transient))
    ]
