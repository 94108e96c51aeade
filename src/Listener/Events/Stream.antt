-- ===== src/Listener/Events/Stream.antt =====
-- listener.py: the entries on a client's event stream, and the calls of the streams' methods.
use mathlib.Core.Path.{subst}
use mathlib.Core.List.{append_assoc, append-nil}
use hermes_stagewhisper_plug.Prelude.{
  none, ℕ, ◌≡◌, ◌≢◌, refl, ◌∙◌, ap, sym, inl, inr, String, true, false, some, List, [], ◌∷◌, ◌++◌,
  All, All-append, Bool-cases, Option-cases,
}
use hermes_stagewhisper_plug.Streams.{QueuedReply, Subscriber, ReplyStreams}
use hermes_stagewhisper_plug.Streams.Operations.{drain, subscriber_of}
use hermes_stagewhisper_plug.Streams.Calls.{
  Call, take_all, step, run, stays, handed, all_handed, all_captured,
}
use hermes_stagewhisper_plug.Streams.Follow.{run-exact}
use hermes_stagewhisper_plug.Listener.Events.{
  Write, keep_alive, Round, writes_of, first_writes, is_dropped, written, follow,
}
use hermes_stagewhisper_plug.Listener.Events.Account.{
  entries_in, entries_in-append, entries_in-writes_of, lost_at, Others, Others-stay, Others-handed,
  handed_then, Wait-cases, run-append, own_handed, performed,
}

some_differs : (k : ℕ) → some k ≢ none
some_differs k e = cc

module _ (session_id : String) (ident : ℕ) where
  -- What was written of the entries that some calls handed over, and what was lost of them.
  -- Where `Done` holds, nothing was lost.
  pub record IsAccount (Done : Type 0) (st : ReplyStreams) (out : ReplyStreams × List Write)
      (calls : List Call) : Type 0 where
    pub gone : List QueuedReply
    pub balance : entries_in out.1 ++ gone ≡ all_handed session_id ident st calls
    pub state : out.0 ≡ run st calls
    pub whole : Done → gone ≡ []
    pub stay : All (λ m. stays session_id ident m ≡ true) calls

  IsAccount-weaken :
      (A B : Type 0) (st : ReplyStreams) (out : ReplyStreams × List Write) (calls : List Call)
      → (A → B)
      → IsAccount B st out calls
      → IsAccount A st out calls
  IsAccount-weaken A B st out calls f a = record {
    gone = a.gone;
    balance = a.balance;
    state = a.state;
    whole = λ h. a.whole (f h);
    stay = a.stay;
  }

  IsAccount-join :
      (Done : Type 0) (st u : ReplyStreams) (xs ys : List Call) (ws : List Write)
      (rest : ReplyStreams × List Write)
      → entries_in ws ≡ all_handed session_id ident st xs
      → u ≡ run st xs
      → All (λ m. stays session_id ident m ≡ true) xs
      → IsAccount Done u rest ys
      → IsAccount Done st (rest.0, ws ++ rest.1) (xs ++ ys)
  IsAccount-join Done st u xs ys ws rest e r s a = record {
    gone = a.gone;
    balance =
        ap (λ es. es ++ a.gone) (entries_in-append ws rest.1)
        ∙ append_assoc (entries_in ws) (entries_in rest.1) a.gone
        ∙ ap (λ es. entries_in ws ++ es) a.balance
        ∙ ap (λ es. es ++ all_handed session_id ident u ys) e
        ∙ ap (λ v. all_handed session_id ident st xs ++ all_handed session_id ident v ys) r
        ∙ sym (handed_then session_id ident st xs ys);
    state = a.state ∙ ap (λ v. run v ys) r ∙ sym (run-append session_id ident st xs ys);
    whole = a.whole;
    stay = All-append (λ m. stays session_id ident m ≡ true) xs ys s a.stay;
  }

  module _ (r : Round) (st : ReplyStreams) (writing : Others session_id ident r.writing)
      (waiting : Others session_id ident r.waiting) where
    begun : List Call
    begun = take_all session_id ident ∷ r.writing

    begun_stay : All (λ m. stays session_id ident m ≡ true) begun
    unfolding begun
    begun_stay = (refl, Others-stay session_id ident r.writing writing)

    begun_handed :
        all_handed session_id ident st begun ≡ entries_in (writes_of (drain st session_id ident).1)
    unfolding begun all_handed
    begun_handed =
        ap (λ es. handed session_id ident st (take_all session_id ident) ++ es)
          (Others-handed session_id ident (step st (take_all session_id ident)) r.writing writing)
        ∙ append-nil (handed session_id ident st (take_all session_id ident))
        ∙ own_handed session_id ident st
        ∙ sym (entries_in-writes_of (drain st session_id ident).1)

    -- A round that is the last, with some of its writes.
    last-IsAccount :
        (Done : Type 0) (ws : List Write) (gone : List QueuedReply)
        → entries_in ws ++ gone ≡ entries_in (writes_of (drain st session_id ident).1)
        → (Done → gone ≡ [])
        → IsAccount Done st (written session_id ident r st, ws) begun
    unfolding begun run
    last-IsAccount Done ws gone e whole = record {
      gone = gone;
      balance = e ∙ sym begun_handed;
      state = refl;
      whole = whole;
      stay = begun_stay;
    }

    waiting_handed : (u : ReplyStreams) → [] ≡ all_handed session_id ident u r.waiting
    waiting_handed u = sym (Others-handed session_id ident u r.waiting waiting)

    -- A round that another follows, with a write of no entry between.
    next-IsAccount :
        (Done : Type 0) (between : List Write) (rest : ReplyStreams × List Write) (ys : List Call)
        → entries_in between ≡ []
        → IsAccount Done (run (written session_id ident r st) r.waiting) rest ys
        → IsAccount Done st
            (rest.0, writes_of (drain st session_id ident).1 ++ (between ++ rest.1))
            (begun ++ (r.waiting ++ ys))
    unfolding begun run
    next-IsAccount Done between rest ys e a =
        IsAccount-join Done st (written session_id ident r st) begun (r.waiting ++ ys)
          (writes_of (drain st session_id ident).1) (rest.0, between ++ rest.1) (sym begun_handed)
          refl begun_stay
          (IsAccount-join Done (written session_id ident r st)
            (run (written session_id ident r st) r.waiting) r.waiting ys between rest
            (e ∙ waiting_handed (written session_id ident r st)) refl
            (Others-stay session_id ident r.waiting waiting) a)

    lost-IsAccount :
        (Done : Type 0)
        → IsAccount Done st
            (run (written session_id ident r st) r.waiting, writes_of (drain st session_id ident).1)
            (begun ++ r.waiting)
    lost-IsAccount Done =
        subst
          (λ (ws : List Write).
            IsAccount Done st (run (written session_id ident r st) r.waiting, ws)
              (begun ++ r.waiting))
          (append-nil (writes_of (drain st session_id ident).1))
          (IsAccount-join Done st (written session_id ident r st) begun r.waiting
            (writes_of (drain st session_id ident).1)
            (run (written session_id ident r st) r.waiting, []) (sym begun_handed)
            (unfold begun in unfold run in refl) begun_stay
            (record {
              gone = [];
              balance = waiting_handed (written session_id ident r st);
              state = refl;
              whole = λ _. refl;
              stay = Others-stay session_id ident r.waiting waiting;
            }))

  -- The calls of other tasks in the rounds.
  abbrev pub Calm : List Round → Type 0
  Calm [] = Unit
  Calm (r ∷ rounds) =
      Others session_id ident r.writing × Others session_id ident r.waiting × Calm rounds

  -- No write of the rounds fails.
  abbrev pub Unfailing : List Round → Type 0
  Unfailing [] = Unit
  Unfailing (r ∷ rounds) = (r.fails_at ≡ none) × Unfailing rounds

  follow-IsAccount :
      (rounds : List Round) (st : ReplyStreams)
      → Calm rounds
      → IsAccount
          (Unfailing rounds)
          st
          (follow session_id ident rounds st)
          (performed session_id ident rounds st)
  unfolding follow performed begun all_handed
  follow-IsAccount [] st calm = record {
    gone = [];
    balance = refl;
    state = unfold run in refl;
    whole = λ _. refl;
    stay = tt;
  }
  follow-IsAccount (r ∷ rounds) st (writing, waiting, calm) = elim (Option-cases r.fails_at) [
    | inr (k, e) ↦
        (let (gone, h) = lost_at k (writes_of (drain st session_id ident).1) in
          rw (e, follow, performed)
            (last-IsAccount r st writing waiting _
              (first_writes k (writes_of (drain st session_id ident).1)) gone h
              (λ done. absurd (some_differs k done.0))))
    | inl e ↦ elim (Bool-cases (is_dropped session_id ident (written session_id ident r st))) [
      | inl d ↦
          rw (e, d, follow, performed)
            (last-IsAccount r st writing waiting _ (writes_of (drain st session_id ident).1) []
              (append-nil (entries_in (writes_of (drain st session_id ident).1))) (λ _. refl))
      | inr d ↦ elim (Wait-cases r.wait) [
        | inl w ↦
            rw (e, d, w, follow, performed)
              (IsAccount-weaken _ (Unfailing rounds) st _ _ (λ done. done.1)
                (next-IsAccount r st writing waiting (Unfailing rounds) [] _ _ refl
                  (follow-IsAccount rounds (run (written session_id ident r st) r.waiting) calm)))
        | inr (inl w) ↦
            rw (e, d, w, follow, performed)
              (IsAccount-weaken _ (Unfailing rounds) st _ _ (λ done. done.1)
                (next-IsAccount r st writing waiting (Unfailing rounds) (keep_alive ∷ []) _ _ refl
                  (follow-IsAccount rounds (run (written session_id ident r st) r.waiting) calm)))
        | inr (inr w) ↦ rw (e, d, w, follow, performed) (lost-IsAccount r st writing waiting _)
      ]
    ]
  ]

  -- The stream of a registered subscriber, while no call of another task ends its subscription or
  -- drains it. However its rounds go, if the subscriber is not dropped in the end, then the entries
  -- that were written, then those that a failed write lost and those that still are pending, are what
  -- was pending at first and then every entry captured for the session meanwhile, in order: what the
  -- client gets is the beginning of that, without a gap and without a repeat. Nothing is lost if no
  -- write fails.
  pub follow-exact :
      (rounds : List Round) (st : ReplyStreams) (s : Subscriber)
      → subscriber_of st session_id ident ≡ some s
      → Calm rounds
      → (after : Subscriber) × (gone : List QueuedReply) × (subscriber_of
            (follow session_id ident rounds st).0
            session_id
            ident
          ≡ some after)
        × (Unfailing rounds → gone ≡ [])
        × (after.dropped ≡ false
            → entries_in (follow session_id ident rounds st).1 ++ (gone ++ after.pending)
              ≡ s.pending
                ++ all_captured session_id ident st (performed session_id ident rounds st))
  follow-exact rounds st s registered calm =
      let calls = performed session_id ident rounds st in
      let a = follow-IsAccount rounds st calm in
      let (after, at, follows) = run-exact session_id ident calls st s registered a.stay in
      (
        after,
        a.gone,
        ap (λ u. subscriber_of u session_id ident) a.state ∙ at,
        a.whole,
        λ live.
            sym
              (append_assoc (entries_in (follow session_id ident rounds st).1) a.gone after.pending)
            ∙ ap (λ es. es ++ after.pending) a.balance
            ∙ follows.exact live,
      )
