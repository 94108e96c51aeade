-- ===== src/Adapter/Evict.antt =====
-- adapter.py: which handles `accept_event` lets go of.
use hermes_stagewhisper_plug.Prelude.{
  ℕ, ◌+◌, ◌≤◌, ◌≡◌, refl, ◌∙◌, ◌≢◌, ◌⊎◌, inl, inr, String, true, eqb_iff, ◌<◌, List, [], ◌∷◌,
  eq_iff, leb, leb→le, length, arith, Bool-cases,
}
use hermes_stagewhisper_plug.Dict
use hermes_stagewhisper_plug.Dict.{Dict}
use hermes_stagewhisper_plug.Dict.Laws.{get-put_self, get-remove, get-put}
use hermes_stagewhisper_plug.Text.{one_of}
use hermes_stagewhisper_plug.Models.Event.{ValidatedEvent}
use hermes_stagewhisper_plug.Adapter.{Adapter}
use hermes_stagewhisper_plug.Adapter.Turns.{
  enqueue, accept_event, evict_one, evict_from, evict_finished_task_callbacks, handle_for,
}

-- What the eviction does not touch.
pub record SameElse (a b : Adapter) : Type 0 where
  pub idem : b.idem ≡ a.idem
  pub inflight : b.inflight ≡ a.inflight
  pub callbacks : b.callbacks ≡ a.callbacks
  pub cap : b.task_callbacks_cap ≡ a.task_callbacks_cap
  pub marks : b.marks ≡ a.marks
  pub next_handle : b.next_handle ≡ a.next_handle

SameElse-refl : (a : Adapter) → SameElse a a
SameElse-refl a = record {
  idem = refl;
  inflight = refl;
  callbacks = refl;
  cap = refl;
  marks = refl;
  next_handle = refl;
}

evict_one-SameElse : (k : String) (a : Adapter) → SameElse a (evict_one k a)
unfolding evict_one
evict_one-SameElse k a = ground arith

pub evict_from-SameElse : (ids : List String) (a : Adapter) → SameElse a (evict_from ids a)
unfolding evict_from
evict_from-SameElse [] a = SameElse-refl a
evict_from-SameElse (k ∷ ids) a =
    ground (arith, evict_from-SameElse ids (evict_one k a), evict_one-SameElse k a)

-- A task that is in flight keeps its handle.
evict_one-keeps :
    (k j : String) (a : Adapter)
    → Dict.has a.inflight j ≡ true
    → Dict.get (evict_one k a).task_callbacks j ≡ Dict.get a.task_callbacks j
unfolding evict_one
evict_one-keeps k j a h = ground (arith, get-remove a.task_callbacks k j, eq_iff k j)

pub evict_from-keeps :
    (ids : List String) (j : String) (a : Adapter)
    → Dict.has a.inflight j ≡ true
    → Dict.get (evict_from ids a).task_callbacks j ≡ Dict.get a.task_callbacks j
unfolding evict_from
evict_from-keeps [] j a h = refl
evict_from-keeps (k ∷ ids) j a h =
    ground
      (arith, evict_from-keeps ids j (evict_one k a), evict_one-keeps k j a, evict_one-SameElse k a)

abbrev Covers : List String → Adapter → Type 0
Covers ids a =
    (j : String)
    → Dict.has a.task_callbacks j ≡ true
    → (Dict.has a.inflight j ≡ true) ⊎ (one_of ids j ≡ true)

evict_one-Covers :
    (k : String) (ids : List String) (a : Adapter) → Covers (k ∷ ids) a → Covers ids (evict_one k a)
unfolding evict_one Dict.has
evict_one-Covers k ids a covers j held =
    ground (arith, covers j, get-remove a.task_callbacks k j, eq_iff k j)

Covers-nil :
    (a : Adapter)
    → Covers [] a
    → (j : String) → Dict.has a.task_callbacks j ≡ true
    → Dict.has a.inflight j ≡ true
Covers-nil a covers j held = ground (arith, covers j held)

abbrev Trimmed : Adapter → Type 0
Trimmed b =
    (length b.task_callbacks ≤ b.task_callbacks_cap)
    ⊎ ((j : String) → Dict.has b.task_callbacks j ≡ true → Dict.has b.inflight j ≡ true)

evict_from-Trimmed : (ids : List String) (a : Adapter) → Covers ids a → Trimmed (evict_from ids a)
unfolding evict_from
evict_from-Trimmed [] a covers = inr (Covers-nil a covers)
evict_from-Trimmed (k ∷ ids) a covers =
    elim (Bool-cases (leb (length a.task_callbacks) a.task_callbacks_cap)) [
      | inl e ↦ rw (e, evict_from) (inl (leb→le _ _ e))
      | inr e ↦
          rw (e, evict_from)
            (evict_from-Trimmed ids (evict_one k a) (evict_one-Covers k ids a covers))
    ]

has-keys :
    {V : Type 0} (d : Dict V) (j : String) → Dict.has d j ≡ true → one_of (Dict.keys d) j ≡ true
unfolding Dict.has Dict.get
has-keys [] j h = cc
has-keys ((k, v) ∷ d) j h = ground (arith, has-keys d j)

has-put :
    (d : Dict (Unit {0})) (k j : String) → Dict.has d j ≡ true → Dict.has (Dict.put d k tt) j ≡ true
unfolding Dict.has
has-put d k j h = ground (arith, get-put d k j tt, get-put_self d k (tt {0}), eq_iff k j)

has-put_self : (d : Dict (Unit {0})) (k : String) → Dict.has (Dict.put d k tt) k ≡ true
unfolding Dict.has
has-put_self d k = rw (get-put_self d k (tt {0}), Dict.has) refl

evict-Trimmed : (a : Adapter) → Trimmed (evict_finished_task_callbacks a)
unfolding evict_finished_task_callbacks
evict-Trimmed a =
    evict_from-Trimmed (Dict.keys a.task_callbacks) a
      (λ j held. inr (has-keys a.task_callbacks j held))

Trimmed-put :
    (b : Adapter) (k : String) (cap : ℕ)
    → b.task_callbacks_cap ≡ cap
    → Trimmed b
    → (length b.task_callbacks ≤ cap)
      ⊎ ((j : String)
          → Dict.has b.task_callbacks j ≡ true
          → Dict.has (Dict.put b.inflight k tt) j ≡ true)
Trimmed-put b k cap e (inl fits) = inl (rw (← e) fits)
Trimmed-put b k cap e (inr running) = inr (λ j held. has-put b.inflight k j (running j held))

get-put_other :
    {V : Type 0} (d : Dict V) (k j : String) (v : V)
    → j ≢ k
    → Dict.get (Dict.put d k v) j ≡ Dict.get d j
get-put_other d k j v other = ground (arith, get-put d k j v, eq_iff k j)

-- An accepted event's task is in flight. Every handle of another task in flight is found as
-- before. And the table of handles is within its capacity, unless each task that it holds is in
-- flight.
pub accept_event-handles :
    (a : Adapter) (event : ValidatedEvent)
    → (Dict.has (accept_event a event).0.inflight event.task_id ≡ true)
      × ((j : String)
          → j ≢ event.task_id
          → Dict.has a.inflight j ≡ true
          → Dict.get (accept_event a event).0.task_callbacks j ≡ Dict.get a.task_callbacks j)
      × ((length (accept_event a event).0.task_callbacks ≤ a.task_callbacks_cap)
          ⊎ ((j : String)
              → Dict.has (accept_event a event).0.task_callbacks j ≡ true
              → Dict.has (accept_event a event).0.inflight j ≡ true))
unfolding accept_event evict_finished_task_callbacks
accept_event-handles a event =
    let q = enqueue a event in
    (
      has-put_self (evict_finished_task_callbacks q).inflight event.task_id,
      λ j other running.
          unfold enqueue in
          (evict_from-keeps (Dict.keys q.task_callbacks) j q running
            ∙ get-put_other a.task_callbacks event.task_id j (handle_for a event) other),
      Trimmed-put (evict_finished_task_callbacks q) event.task_id a.task_callbacks_cap
          (unfold enqueue in (evict_from-SameElse (Dict.keys q.task_callbacks) q).cap)
          (evict-Trimmed q),
    )

-- `accept_event` reads and writes nothing of the idempotency cache.
pub accept_event-idem :
    (a : Adapter) (event : ValidatedEvent) → (accept_event a event).0.idem ≡ a.idem
unfolding accept_event evict_finished_task_callbacks enqueue
accept_event-idem a event =
    unfold enqueue in
    (evict_from-SameElse (Dict.keys (enqueue a event).task_callbacks) (enqueue a event)).idem

-- Nor does it change a mark of a handle that there was.
pub accept_event-marks :
    (a : Adapter) (event : ValidatedEvent) (ident : ℕ)
    → ident < a.next_handle
    → ((accept_event a event).0.marks ident ≡ a.marks ident)
      × ((accept_event a event).0.next_handle ≡ a.next_handle + 1)
unfolding accept_event evict_finished_task_callbacks
accept_event-marks a event ident known =
    let q = enqueue a event in
    let same = evict_from-SameElse (Dict.keys q.task_callbacks) q in
    (
      rw same.marks (unfold enqueue handle_for in ground (arith, eqb_iff ident a.next_handle)),
      rw same.next_handle (unfold enqueue in refl),
    )
