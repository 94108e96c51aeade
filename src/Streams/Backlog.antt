-- ===== src/Streams/Backlog.antt =====
-- The backlog of one session in streams.py: its bounds, and what an eviction keeps.
use mathlib.Core.List.{append_assoc}
use hermes_stagewhisper_plug.Prelude.{
  ℕ, suc, ◌-◌, ◌+◌, ◌≤◌, ◌<◌, ◌≡◌, refl, ◌∙◌, ap, sym, String, ◌||◌, List, [], ◌∷◌, ◌++◌, length,
  length-append, ltb, arith, Bool-cases, inl, inr,
}
use hermes_stagewhisper_plug.Json.{Members, show_nat}
use hermes_stagewhisper_plug.Text.{◌<>◌}
use hermes_stagewhisper_plug.Streams.{QueuedReply, SessionBacklog, Limits, total_bytes}
use hermes_stagewhisper_plug.Streams.Operations.{trim, push_entry, entry_for}

-- The bounds that `__init__` makes.
pub record IsLimits (l : Limits) : Type 0 where
  pub some_entry : 0 < l.backlog_per_session
  pub event_fits : l.max_event_bytes ≤ l.backlog_bytes_per_session

-- Consecutive sequence numbers from `n`, each the end of its entry's id.
abbrev pub Numbered : String → ℕ → List QueuedReply → Type 0
Numbered token n [] = Unit
Numbered token n (e ∷ es) =
    (e.sequence ≡ n) × (e.event_id ≡ token <> "." <> show_nat n) × Numbered token (suc n) es

pub record IsBacklog (l : Limits) (b : SessionBacklog) : Type 0 where
  pub bytes : b.retained_bytes ≡ total_bytes b.entries
  pub few : length b.entries ≤ l.backlog_per_session
  pub small : b.retained_bytes ≤ l.backlog_bytes_per_session
  pub first : ℕ
  pub numbered : Numbered b.token first b.entries
  pub next : first + length b.entries ≡ b.next_sequence

pub total_bytes-append :
    (xs ys : List QueuedReply) → total_bytes (xs ++ ys) ≡ total_bytes xs + total_bytes ys
total_bytes-append [] ys = omega arith
total_bytes-append (x ∷ xs) ys = omega (arith, total_bytes-append xs ys)

Numbered-append :
    (token : String) (n : ℕ) (es : List QueuedReply) (e : QueuedReply)
    → Numbered token n es
    → e.sequence ≡ n + length es
    → e.event_id ≡ token <> "." <> show_nat e.sequence
    → Numbered token n (es ++ e ∷ [])
Numbered-append token n [] e h s i =
    let s' : e.sequence ≡ n = omega arith in (s', i ∙ ap (λ k. token <> "." <> show_nat k) s', tt)
Numbered-append token n (x ∷ es) e h s i =
    (h.0, h.1, Numbered-append token (suc n) es e h.2 (omega arith) i)

Numbered-suffix :
    (token : String) (n : ℕ) (gone es : List QueuedReply)
    → Numbered token n (gone ++ es)
    → Numbered token (n + length gone) es
Numbered-suffix token n [] es h = let e : n ≡ n + 0 = omega arith in rw (← e) h
Numbered-suffix token n (x ∷ gone) es h =
    let e : suc n + length gone ≡ n + suc (length gone) = omega arith in
    rw (← e) (Numbered-suffix token (suc n) gone es h.2)

module _ (l : Limits) where
  -- What the loop leaves is within both bounds, and its byte count is exact.
  pub trim_bounds :
      (es : List QueuedReply) (bytes : ℕ)
      → bytes ≡ total_bytes es
      → ((trim l es bytes).1 ≡ total_bytes (trim l es bytes).0)
        × (length (trim l es bytes).0 ≤ l.backlog_per_session)
        × ((trim l es bytes).1 ≤ l.backlog_bytes_per_session)
  unfolding trim
  trim_bounds [] bytes h = (h, omega arith, omega arith)
  trim_bounds (e ∷ es) bytes h = ground (arith, trim_bounds es (bytes - e.size_bytes))

  -- It drops entries from the old end only, and never the newest if that fits the bounds.
  pub trim_suffix :
      (es : List QueuedReply) (e : QueuedReply) (bytes : ℕ)
      → 0 < l.backlog_per_session
      → e.size_bytes ≤ l.backlog_bytes_per_session
      → bytes ≡ total_bytes (es ++ e ∷ [])
      → (gone : List QueuedReply) × (kept : List QueuedReply) × (gone ++ kept ≡ es)
        × ((trim l (es ++ e ∷ []) bytes).0 ≡ kept ++ e ∷ [])
  unfolding trim
  trim_suffix [] e bytes p s h = ([], [], refl, ground arith)
  trim_suffix (x ∷ es) e bytes p s h =
      elim (Bool-cases (
        ltb l.backlog_per_session (length (x ∷ es ++ e ∷ []))
        || ltb l.backlog_bytes_per_session bytes)) [
          | inl over ↦
              (let r = trim_suffix es e (bytes - x.size_bytes) p s (omega arith) in
                (x ∷ r.0, r.1, ap (◌∷◌ x) r.2, rw (over, trim) r.3))
          | inr fits ↦ ([], x ∷ es, refl, rw (fits, trim))
        ]

  -- While the bounds hold nothing is dropped.
  pub trim_all :
      (es : List QueuedReply) (bytes : ℕ)
      → length es ≤ l.backlog_per_session
      → bytes ≤ l.backlog_bytes_per_session
      → (trim l es bytes).0 ≡ es
  unfolding trim
  trim_all [] bytes p s = refl
  trim_all (x ∷ es) bytes p s = ground arith

pushed-sequence :
    (b : SessionBacklog) (payload : Members) (serialized : String) (first : ℕ)
    → first + length b.entries ≡ b.next_sequence
    → (entry_for b payload serialized).sequence ≡ first + length b.entries
unfolding entry_for
pushed-sequence b payload serialized first h = sym h

pushed-event_id :
    (b : SessionBacklog) (payload : Members) (serialized : String)
    → (entry_for b payload serialized).event_id
      ≡ b.token <> "." <> show_nat (entry_for b payload serialized).sequence
unfolding entry_for
pushed-event_id b payload serialized = refl

module _ (l : Limits) (b : SessionBacklog) (payload : Members) (serialized : String) where
  abbrev entry : QueuedReply
  entry = entry_for b payload serialized

  pushed-bytes :
      b.retained_bytes ≡ total_bytes b.entries
      → b.retained_bytes + entry.size_bytes ≡ total_bytes (b.entries ++ entry ∷ [])
  pushed-bytes h = omega (arith, total_bytes-append b.entries (entry ∷ []))

  pushed-IsBacklog :
      (gone kept : List QueuedReply)
      → IsBacklog l b
      → gone ++ kept ≡ b.entries
      → (push_entry l b entry).entries ≡ kept ++ entry ∷ []
      → IsBacklog l (push_entry l b entry)
  unfolding push_entry
  pushed-IsBacklog gone kept v split new =
      let bounds = trim_bounds l (b.entries ++ entry ∷ []) _ (pushed-bytes v.bytes) in
      record {
        bytes = bounds.0;
        few = bounds.1;
        small = bounds.2;
        first = v.first + length gone;
        numbered = rw new (
            Numbered-suffix b.token v.first gone (kept ++ entry ∷ []) (
              rw (← append_assoc gone kept (entry ∷ []), split)
                (Numbered-append b.token v.first b.entries entry v.numbered
                  (pushed-sequence b payload serialized v.first v.next)
                  (pushed-event_id b payload serialized))));
        next = omega (
          arith,
          v.next,
          ap (length {A = QueuedReply}) new,
          ap (length {A = QueuedReply}) split,
          length-append gone kept,
          length-append kept (entry ∷ []),
        );
      }

-- A push keeps the backlog's invariant. It keeps the new entry, and evicts from the old end
-- alone; the entry must fit the bytes of an event, as `capture_durable` checks.
pub push_entry-IsBacklog :
    (l : Limits) (b : SessionBacklog) (payload : Members) (serialized : String)
    → IsLimits l
    → IsBacklog l b
    → (entry_for b payload serialized).size_bytes ≤ l.max_event_bytes
    → IsBacklog l (push_entry l b (entry_for b payload serialized))
      × (gone : List QueuedReply) × (kept : List QueuedReply) × (gone ++ kept ≡ b.entries)
      × ((push_entry l b (entry_for b payload serialized)).entries
          ≡ kept ++ entry_for b payload serialized ∷ [])
push_entry-IsBacklog l b payload serialized ok v fits =
    let r =
      trim_suffix l b.entries (entry_for b payload serialized) _ ok.some_entry
        (omega (arith, ok.event_fits)) (pushed-bytes l b payload serialized v.bytes) in
    let new : (push_entry l b (entry_for b payload serialized)).entries
        ≡ r.1 ++ entry_for b payload serialized ∷ [] =
      unfold push_entry in r.3 in
    (pushed-IsBacklog l b payload serialized r.0 r.1 v r.2 new, r.0, r.1, r.2, new)
