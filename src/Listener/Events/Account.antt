-- ===== src/Listener/Events/Account.antt =====
-- listener.py: what a client's event stream carries is what was captured for its session.
use mathlib.Core.List.{append_assoc, append-nil}
use hermes_stagewhisper_plug.Prelude.{
  ℕ, zero, suc, ◌≡◌, refl, ◌⊎◌, inl, inr, ◌∙◌, ap, sym, String, Bool, true, not, ◌&&◌, none, some,
  List, [], ◌∷◌, ◌++◌, ◌==◌, map, All, eqb, eqb_iff, eq_refl, if◌then◌else◌, arith,
}
use hermes_stagewhisper_plug.Streams.{QueuedReply, Drained, ReplyStreams}
use hermes_stagewhisper_plug.Streams.Operations.{drain}
use hermes_stagewhisper_plug.Streams.Calls.{
  Call, capture, publish, join, leave, take_all, drop_session, step, run, stays, handed, all_handed,
}
use hermes_stagewhisper_plug.Listener.Events.{
  Write, opening, keep_alive, event, progress, Wait, woken, heartbeat, lost, Round, writes_of,
  first_writes, is_dropped, written,
}

pub Wait-cases : (w : Wait) → (w ≡ woken) ⊎ (w ≡ heartbeat) ⊎ (w ≡ lost)
Wait-cases woken = inl refl
Wait-cases heartbeat = inr (inl refl)
Wait-cases lost = inr (inr refl)

-- The entries among what is written.
abbrev pub entries_in : List Write → List QueuedReply
entries_in [] = []
entries_in (event e ∷ ws) = e ∷ entries_in ws
entries_in (progress p ∷ ws) = entries_in ws
entries_in (opening ∷ ws) = entries_in ws
entries_in (keep_alive ∷ ws) = entries_in ws

pub entries_in-append :
    (xs ys : List Write) → entries_in (xs ++ ys) ≡ entries_in xs ++ entries_in ys
entries_in-append [] ys = refl
entries_in-append (event e ∷ xs) ys = ap (λ r. e ∷ r) (entries_in-append xs ys)
entries_in-append (progress p ∷ xs) ys = entries_in-append xs ys
entries_in-append (opening ∷ xs) ys = entries_in-append xs ys
entries_in-append (keep_alive ∷ xs) ys = entries_in-append xs ys

entries_in-event : (es : List QueuedReply) → entries_in (map event es) ≡ es
entries_in-event [] = refl
entries_in-event (e ∷ es) = ap (λ r. e ∷ r) (entries_in-event es)

entries_in-progress : (ps : List String) → entries_in (map progress ps) ≡ []
entries_in-progress [] = refl
entries_in-progress (p ∷ ps) = entries_in-progress ps

pub entries_in-writes_of : (d : Drained) → entries_in (writes_of d) ≡ d.entries
unfolding writes_of
entries_in-writes_of d =
    entries_in-append (map event d.entries) (map progress d.transient_payloads)
    ∙ rw (entries_in-event, entries_in-progress) (append-nil d.entries)

-- What is lost where a write fails.
pub lost_at :
    (k : ℕ) (ws : List Write)
    → (gone : List QueuedReply) × (entries_in (first_writes k ws) ++ gone ≡ entries_in ws)
lost_at zero ws = (entries_in ws, refl)
lost_at (suc k) [] = ([], refl)
lost_at (suc k) (event e ∷ ws) = let (gone, h) = lost_at k ws in (gone, ap (λ r. e ∷ r) h)
lost_at (suc k) (progress p ∷ ws) = lost_at k ws
lost_at (suc k) (opening ∷ ws) = lost_at k ws
lost_at (suc k) (keep_alive ∷ ws) = lost_at k ws

module _ (session_id : String) (ident : ℕ) where
  -- A call of another task: it neither ends the subscription nor drains it.
  abbrev pub is_other : Call → Bool
  is_other (take_all k i) = not (session_id == k && eqb i ident)
  is_other (leave s) = not (s.session_id == session_id && eqb ident s.ident)
  is_other (capture now k payload) = true
  is_other (publish k payload) = true
  is_other (join now k last) = true
  is_other (drop_session k) = true

  abbrev pub Others : List Call → Type 0
  Others calls = All (λ m. is_other m ≡ true) calls

  other_stays : (m : Call) → is_other m ≡ true → stays session_id ident m ≡ true
  other_stays (take_all k i) h = refl
  other_stays (leave s) h = h
  other_stays (capture now k payload) h = refl
  other_stays (publish k payload) h = refl
  other_stays (join now k last) h = refl
  other_stays (drop_session k) h = refl

  pub Others-stay : (ms : List Call) → Others ms → All (λ m. stays session_id ident m ≡ true) ms
  Others-stay [] h = tt
  Others-stay (m ∷ ms) h = (other_stays m h.0, Others-stay ms h.1)

  other_handed :
      (st : ReplyStreams) (m : Call) → is_other m ≡ true → handed session_id ident st m ≡ []
  unfolding handed
  other_handed st (take_all k i) h = ground (arith, h)
  other_handed st (leave s) h = refl
  other_handed st (capture now k payload) h = refl
  other_handed st (publish k payload) h = refl
  other_handed st (join now k last) h = refl
  other_handed st (drop_session k) h = refl

  pub Others-handed :
      (st : ReplyStreams) (ms : List Call) → Others ms → all_handed session_id ident st ms ≡ []
  unfolding all_handed
  Others-handed st [] h = refl
  Others-handed st (m ∷ ms) h = rw (other_handed st m h.0) (Others-handed (step st m) ms h.1)

  pub handed_then :
      (st : ReplyStreams) (xs ys : List Call)
      → all_handed session_id ident st (xs ++ ys)
        ≡ all_handed session_id ident st xs ++ all_handed session_id ident (run st xs) ys
  unfolding all_handed run
  handed_then st [] ys = refl
  handed_then st (x ∷ xs) ys =
      ap (λ r. handed session_id ident st x ++ r) (handed_then (step st x) xs ys)
      ∙ sym (append_assoc (handed session_id ident st x) _ _)

  pub run-append : (st : ReplyStreams) (xs ys : List Call) → run st (xs ++ ys) ≡ run (run st xs) ys
  unfolding run
  run-append st [] ys = refl
  run-append st (x ∷ xs) ys = run-append (step st x) xs ys

  pub own_handed :
      (st : ReplyStreams)
      → handed session_id ident st (take_all session_id ident)
        ≡ (drain st session_id ident).1.entries
  unfolding handed
  own_handed st = rw (eq_refl, (eqb_iff ident ident).1 refl) refl

  -- The calls of a stream's rounds, its own drains among them.
  unfoldable pub performed : List Round → ReplyStreams → List Call
  unfolding is_dropped run
  performed [] st = []
  performed (r ∷ rounds) st =
      let begun = take_all session_id ident ∷ r.writing in
      let st₂ = written session_id ident r st in
      let rest = performed rounds (run st₂ r.waiting) in
      elim r.fails_at [
        | some k ↦ begun
        | none ↦ if is_dropped session_id ident st₂ then begun else elim r.wait [
          | lost ↦ begun ++ r.waiting
          | woken ↦ begun ++ (r.waiting ++ rest)
          | heartbeat ↦ begun ++ (r.waiting ++ rest)
        ]
      ]
