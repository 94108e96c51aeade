-- ===== src/Streams/Follow.antt =====
-- A subscriber of streams.py across any sequence of calls: what it drains is what was captured.
use mathlib.Core.List.{append_assoc, append-nil}
use hermes_stagewhisper_plug.Prelude.{
  ℕ, ◌≡◌, ◌∙◌, ap, sym, String, true, false, ◌&&◌, ◌||◌, Option, some, List, [], ◌∷◌, ◌++◌, ◌==◌,
  eq_iff, length, All, any, leb, eqb, eqb_iff, arith, Bool-cases, inl, inr, if◌then◌else◌,
}
use hermes_stagewhisper_plug.Dict
use hermes_stagewhisper_plug.Dict.{Dict}
use hermes_stagewhisper_plug.Dict.Laws.{get-put}
use hermes_stagewhisper_plug.Json
use hermes_stagewhisper_plug.Json.{Members, as_string}
use hermes_stagewhisper_plug.Text.Laws.{and_true}
use hermes_stagewhisper_plug.Json.{in_set}
use hermes_stagewhisper_plug.Streams.{
  QueuedReply, Subscriber, ReplyStreams, members_of, serialize_payload,
}
use hermes_stagewhisper_plug.Streams.Operations.{
  prune, subscribe, unsubscribe, has_ident, offer_transient, offer, opened, entry_for, append,
  drained, find_ident, subscriber_of, drain_if, drain, forget,
}
use hermes_stagewhisper_plug.Streams.Effects.{
  find-for_members, find_ident-append, find_ident-ident, find_ident-others, members-put_members,
  ident-offer, ident-offer_transient, ident-drain_if, offer-pending, offer_transient-pending,
  capture_durable-cases, publish_transient-cases, map_found, offered_to,
}
use hermes_stagewhisper_plug.Streams.Calls.{
  Call, capture, publish, join, leave, take_all, drop_session, step, handed, captured, stays, run,
  all_handed, all_captured,
}

module _ (session_id : String) (ident : ℕ) where
  -- What a call does to a subscriber that stays.
  pub record Follows (s s₁ : Subscriber) (out new : List QueuedReply) : Type 0 where
    pub live : s₁.dropped ≡ false → s.dropped ≡ false
    pub exact : s₁.dropped ≡ false → out ++ s₁.pending ≡ s.pending ++ new

  pub record Followed (st : ReplyStreams) (m : Call) (s : Subscriber) : Type 0 where
    pub after : Subscriber
    pub registered : subscriber_of (step st m) session_id ident ≡ some after
    pub follows : Follows s after (handed session_id ident st m) (captured session_id ident st m)

  Follows-same : (s : Subscriber) → Follows s s [] []
  Follows-same s = record { live = λ h. h; exact = λ h. sym (append-nil s.pending) }

  subscriber_of-append :
      (now : ℕ) (st : ReplyStreams) (k : String) (payload : Members) (text : String)
      → subscriber_of (append now st k payload text) session_id ident ≡ (
          let pruned = prune now st in
          let entry = entry_for (opened pruned now (Dict.get pruned.backlogs k)).0 payload text in
          if session_id == k
          then map_found
              (offer st.limits (as_string (Json.get payload "task_id")) entry)
              (subscriber_of st session_id ident)
          else subscriber_of st session_id ident)
  unfolding append subscriber_of prune
  subscriber_of-append now st k payload text =
      find-for_members _ k session_id ident st.subscribers (ident-offer st.limits _ _)

  subscriber_of-offered :
      (st : ReplyStreams) (k t text : String)
      → subscriber_of (offered_to st k t text) session_id ident ≡ (
          if session_id == k
          then map_found (offer_transient st.limits t text) (subscriber_of st session_id ident)
          else subscriber_of st session_id ident)
  unfolding subscriber_of
  subscriber_of-offered st k t text =
      find-for_members _ k session_id ident st.subscribers (ident-offer_transient st.limits t text)

  module _ (st : ReplyStreams) (s : Subscriber)
      (at : subscriber_of st session_id ident ≡ some s) where
    abbrev entry : ℕ → String → Members → QueuedReply
    entry now k payload =
        entry_for (opened (prune now st) now (Dict.get (prune now st).backlogs k)).0 payload
          (serialize_payload payload)

    offered :
        (now : ℕ) (k : String) (payload : Members)
        → Follows s
            (offer st.limits (as_string (Json.get payload "task_id")) (entry now k payload) s)
            []
            (entry now k payload ∷ [])
    offered now k payload = record {
      live = λ h. (offer-pending st.limits _ (entry now k payload) s h).0;
      exact = λ h. (offer-pending st.limits _ (entry now k payload) s h).1;
    }

    follow_capture :
        (now : ℕ) (k : String) (payload : Members) → Followed st (capture now k payload) s
    unfolding step handed captured
    follow_capture now k payload = elim (capture_durable-cases now st k payload) [
      | inl (no_flag, same) ↦ record {
        after = s;
        registered = rw same at;
        follows = rw no_flag (elim (Bool-cases (session_id == k)) [
          | inl e ↦ rw e (Follows-same s)
          | inr e ↦ rw e (Follows-same s)
        ]);
      }
      | inr (flag, appended) ↦ elim (Bool-cases (session_id == k)) [
        | inr e ↦ record {
          after = s;
          registered = rw (appended, subscriber_of-append, e) at;
          follows = rw (flag, e) (Follows-same s);
        }
        | inl e ↦ record {
          after = offer st.limits (as_string (Json.get payload "task_id")) (entry now k payload) s;
          registered = rw (appended, subscriber_of-append, e, at);
          follows = rw (flag, e) (offered now k payload);
        }
      ]
    ]

    follow_publish : (k : String) (payload : Members) → Followed st (publish k payload) s
    unfolding step handed captured
    follow_publish k payload = elim (publish_transient-cases st k payload) [
      | inl same ↦ record { after = s; registered = rw same at; follows = Follows-same s }
      | inr (t, passed) ↦ elim (Bool-cases (session_id == k)) [
        | inl e ↦ record {
          after = offer_transient st.limits t (serialize_payload payload) s;
          registered = rw (passed, subscriber_of-offered, e, at);
          follows = record {
            live = λ h. (offer_transient-pending st.limits t _ s h).0;
            exact = λ h. (offer_transient-pending st.limits t _ s h).1 ∙ sym (append-nil s.pending);
          };
        }
        | inr e ↦ record {
          after = s;
          registered = rw (passed, subscriber_of-offered, e) at;
          follows = Follows-same s;
        }
      ]
    ]

    at_key :
        (k : String)
        → k == session_id ≡ true
        → find_ident ident (members_of (Dict.get st.subscribers k)) ≡ some s
    unfolding subscriber_of
    at_key k e = rw ((eq_iff k session_id).0 e) at

    subscribe_keeps :
        (now : ℕ) (k : String) (last : Option String)
        → subscriber_of (subscribe now st k last).0 session_id ident ≡ some s
    unfolding subscribe subscriber_of
    subscribe_keeps now k last =
        elim (Bool-cases (
          leb st.limits.max_subscribers_per_session
            (length (members_of (Dict.get st.subscribers k)))
          || leb st.limits.max_subscribers_total st.subscriber_count)) [
            | inl full ↦ rw (full, subscribe) at
            | inr room ↦
                rw (room, subscribe)
                  (rw get-put (elim (Bool-cases (k == session_id)) [
                    | inl e ↦ rw e (
                        find_ident-append ident (members_of (Dict.get st.subscribers k)) s _
                          (at_key k e))
                    | inr e ↦ rw e at
                  ]))
          ]

    unsubscribe_keeps :
        (gone : Subscriber)
        → stays session_id ident (leave gone) ≡ true
        → subscriber_of (unsubscribe st gone) session_id ident ≡ some s
    unfolding unsubscribe subscriber_of
    unsubscribe_keeps gone h =
        elim (Bool-cases
          (any (has_ident gone.ident) (members_of (Dict.get st.subscribers gone.session_id)))) [
            | inr absent ↦ rw (absent, unsubscribe) at
            | inl present ↦
                rw (present, unsubscribe)
                  (rw members-put_members (elim (Bool-cases (gone.session_id == session_id)) [
                    | inl e ↦ rw e (
                        find_ident-others ident gone.ident
                          (members_of (Dict.get st.subscribers gone.session_id)) (ground arith)
                        ∙ at_key gone.session_id e)
                    | inr e ↦ rw e at
                  ]))
          ]

    s_ident : s.ident ≡ ident
    unfolding subscriber_of
    s_ident = find_ident-ident ident (members_of (Dict.get st.subscribers session_id)) s at

    drain_at :
        (k : String) (i : ℕ)
        → (session_id == k && eqb i ident) ≡ true
        → subscriber_of (drain st k i).0 session_id ident ≡ some (drained s).0
    unfolding drain subscriber_of
    drain_at k i e =
        rw
          (
            find-for_members (drain_if i) k session_id ident st.subscribers (ident-drain_if i),
            (and_true (session_id == k) (eqb i ident) e).0,
            at,
          )
          (ground (arith, s_ident))

    drain_else :
        (k : String) (i : ℕ)
        → (session_id == k && eqb i ident) ≡ false
        → subscriber_of (drain st k i).0 session_id ident ≡ some s
    unfolding drain subscriber_of
    drain_else k i e =
        rw (find-for_members (drain_if i) k session_id ident st.subscribers (ident-drain_if i), at)
          (ground (arith, s_ident))

    at_both :
        (k : String) (i : ℕ)
        → (session_id == k && eqb i ident) ≡ true
        → subscriber_of st k i ≡ some s
    at_both k i e =
        let (same_key, same_ident) = and_true _ _ e in
        rw (← (eq_iff session_id k).0 same_key, (eqb_iff i ident).0 same_ident) at

    drain_exact :
        (k : String) (i : ℕ)
        → (session_id == k && eqb i ident) ≡ true
        → Follows s (drained s).0 (drain st k i).1.entries []
    unfolding drain drained
    drain_exact k i e = record { live = λ h. h; exact = λ h. rw (at_both k i e, drain) }

    follow_join : (now : ℕ) (k : String) (last : Option String) → Followed st (join now k last) s
    unfolding step handed captured
    follow_join now k last = record {
      after = s;
      registered = subscribe_keeps now k last;
      follows = Follows-same s;
    }

    follow_leave :
        (gone : Subscriber)
        → stays session_id ident (leave gone) ≡ true
        → Followed st (leave gone) s
    unfolding step handed captured
    follow_leave gone h = record {
      after = s;
      registered = unsubscribe_keeps gone h;
      follows = Follows-same s;
    }

    follow_take_all : (k : String) (i : ℕ) → Followed st (take_all k i) s
    unfolding step handed captured
    follow_take_all k i = elim (Bool-cases (session_id == k && eqb i ident)) [
      | inl e ↦ record {
        after = (drained s).0;
        registered = drain_at k i e;
        follows = rw e (drain_exact k i e);
      }
      | inr e ↦ record { after = s; registered = drain_else k i e; follows = rw e (Follows-same s) }
    ]

    follow_step : (m : Call) → stays session_id ident m ≡ true → Followed st m s
    follow_step (capture now k payload) h = follow_capture now k payload
    follow_step (publish k payload) h = follow_publish k payload
    follow_step (join now k last) h = follow_join now k last
    follow_step (leave gone) h = follow_leave gone h
    follow_step (take_all k i) h = follow_take_all k i
    follow_step (drop_session k) h =
        unfold step handed captured forget subscriber_of in
        record { after = s; registered = at; follows = Follows-same s }

  chain :
      (a b c d e f g : List QueuedReply)
      → a ++ d ≡ e ++ f
      → b ++ c ≡ d ++ g
      → (a ++ b) ++ c ≡ e ++ (f ++ g)
  chain a b c d e f g p q =
      append_assoc a b c
      ∙ ap (λ t. a ++ t) q
      ∙ sym (append_assoc a d g)
      ∙ ap (λ t. t ++ g) p
      ∙ append_assoc e f g

  -- A subscriber that is registered, and that no call unsubscribes, stays registered through any
  -- calls, its own and others'. If it is not dropped in the end, what its handler drained, with
  -- what is pending, is what was pending at first and then every entry captured for its session:
  -- nothing is lost, repeated or reordered.
  pub run-exact :
      (ms : List Call) (st : ReplyStreams) (s : Subscriber)
      → subscriber_of st session_id ident ≡ some s
      → All (λ m. stays session_id ident m ≡ true) ms
      → (s' : Subscriber) × (subscriber_of (run st ms) session_id ident ≡ some s')
        × Follows s s' (all_handed session_id ident st ms) (all_captured session_id ident st ms)
  unfolding run all_handed all_captured
  run-exact [] st s at all = (s, at, Follows-same s)
  run-exact (m ∷ ms) st s at all =
      let f = follow_step st s at m all.0 in
      let r = run-exact ms (step st m) f.after f.registered all.1 in
      (
        r.0,
        r.1,
        record {
          live = λ h. f.follows.live (r.2.live h);
          exact = λ h.
              chain (handed session_id ident st m) (all_handed session_id ident (step st m) ms)
                r.0.pending f.after.pending s.pending (captured session_id ident st m)
                (all_captured session_id ident (step st m) ms) (f.follows.exact (r.2.live h))
                (r.2.exact h);
        },
      )
