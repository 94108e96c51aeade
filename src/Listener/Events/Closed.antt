-- ===== src/Listener/Events/Closed.antt =====
-- listener.py: however a stream ends, its subscription ends with it.
use hermes_stagewhisper_plug.Prelude.{
  ℕ, ◌≡◌, refl, ◌∙◌, ap, inl, inr, false, none, List, [], ◌∷◌, any, String, Bool-cases,
  Option-cases, eq_refl, arith,
}
use hermes_stagewhisper_plug.Dict
use hermes_stagewhisper_plug.Streams.{Subscriber, ReplyStreams, members_of}
use hermes_stagewhisper_plug.Streams.Operations.{
  unsubscribe, subscriber_of, has_ident, others, find_ident,
}
use hermes_stagewhisper_plug.Streams.Calls.{take_all, step, run}
use hermes_stagewhisper_plug.Streams.Counted.{
  IsCounted, unsubscribe-IsCounted, step-IsCounted, run-IsCounted,
}
use hermes_stagewhisper_plug.Streams.Effects.{members-put_members}
use hermes_stagewhisper_plug.Listener.Events.{
  Round, Connection, is_dropped, written, follow, serve_rounds, serve_stream,
}
use hermes_stagewhisper_plug.Listener.Events.Account.{Wait-cases}

find-others : (ident : ℕ) (xs : List Subscriber) → find_ident ident (others ident xs) ≡ none
find-others ident [] = refl
find-others ident (x ∷ xs) = elim (Bool-cases (has_ident ident x)) [
  | inl e ↦ rw (e, others) (find-others ident xs)
  | inr e ↦ rw (e, others, find_ident, e) (find-others ident xs)
]

find-none :
    (ident : ℕ) (xs : List Subscriber)
    → any (has_ident ident) xs ≡ false
    → find_ident ident xs ≡ none
find-none ident [] h = refl
find-none ident (x ∷ xs) h = ground (arith, h, find-none ident xs)

unsubscribe-none :
    (st : ReplyStreams) (s : Subscriber)
    → subscriber_of (unsubscribe st s) s.session_id s.ident ≡ none
unfolding unsubscribe subscriber_of
unsubscribe-none st s =
    let listeners = members_of (Dict.get st.subscribers s.session_id) in
    elim (Bool-cases (any (has_ident s.ident) listeners)) [
      | inr e ↦ rw (e, unsubscribe) (find-none s.ident listeners e)
      | inl e ↦
          rw (e, unsubscribe)
            (ap (find_ident s.ident) (
                members-put_members st.subscribers s.session_id s.session_id
                  (others s.ident listeners)
                ∙ rw eq_refl refl)
              ∙ find-others s.ident listeners)
    ]

-- The rounds of a stream keep the count of the subscribers.
follow-IsCounted :
    (session_id : String) (ident : ℕ) (rounds : List Round) (st : ReplyStreams)
    → IsCounted st
    → IsCounted (follow session_id ident rounds st).0
unfolding follow
follow-IsCounted session_id ident [] st c = c
follow-IsCounted session_id ident (r ∷ rounds) st c =
    let st₂ = written session_id ident r st in
    let c₂ : IsCounted st₂ =
      run-IsCounted (step st (take_all session_id ident)) r.writing
        (step-IsCounted st (take_all session_id ident) c) in
    let waited = run-IsCounted st₂ r.waiting c₂ in
    let rest = follow-IsCounted session_id ident rounds (run st₂ r.waiting) waited in
    elim (Option-cases r.fails_at) [
      | inr (k, e) ↦ rw (follow, e) c₂
      | inl e ↦ elim (Bool-cases (is_dropped session_id ident st₂)) [
        | inl d ↦ rw (follow, e, d) c₂
        | inr d ↦ elim (Wait-cases r.wait) [
          | inl w ↦ rw (follow, e, d, w) rest
          | inr (inl w) ↦ rw (follow, e, d, w) rest
          | inr (inr w) ↦ rw (follow, e, d, w) waited
        ]
      ]
    ]

serve_rounds-IsCounted :
    (c : Connection) (s : Subscriber) (st : ReplyStreams)
    → IsCounted st
    → IsCounted (serve_rounds c s st).0
unfolding serve_rounds
serve_rounds-IsCounted c s st counted =
    let opened = run-IsCounted st c.before counted in
    elim (Bool-cases c.opens) [
      | inl e ↦
          rw (serve_rounds, e)
            (follow-IsCounted s.session_id s.ident c.rounds (run st c.before) opened)
      | inr e ↦ rw (serve_rounds, e) opened
    ]

-- From streams in which each subscriber is registered once and the count is theirs, a stream that
-- was opened, or that failed to open, leaves no subscription of its subscriber behind, and the count
-- again is the number of the subscribers that are registered, each once: no slot is lost. That holds
-- whatever other tasks called meanwhile and however the rounds of the stream went.
pub serve_stream-closed :
    (c : Connection) (s : Subscriber) (st : ReplyStreams)
    → IsCounted st
    → (subscriber_of (serve_stream c s st).0 s.session_id s.ident ≡ none)
      × IsCounted (serve_stream c s st).0
unfolding serve_stream
serve_stream-closed c s st counted = (
  unsubscribe-none (serve_rounds c s st).0 s,
  unsubscribe-IsCounted (serve_rounds c s st).0 s (serve_rounds-IsCounted c s st counted),
)
