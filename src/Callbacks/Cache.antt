-- ===== src/Callbacks/Cache.antt =====
-- The idempotency cache of callbacks.py, against a history of its uses that forgets nothing.
use hermes_stagewhisper_plug.Prelude.{
  ℕ, max, ◌≤◌, ◌<◌, String, ◌≡◌, refl, ◌∙◌, ap, sym, Option, none, some, List, [], ◌∷◌, arith,
  length, Option-cases, inl, inr, true,
}
use hermes_stagewhisper_plug.Dict
use hermes_stagewhisper_plug.Dict.{Dict}
use hermes_stagewhisper_plug.Dict.Laws.{
  Unique, get-move_to_end, get-put_self, length-drop_to-le, drop_to-Unique,
}
use hermes_stagewhisper_plug.Json.{Members}
use hermes_stagewhisper_plug.Callbacks.{IdempotencyCache, init, get, put, contains}
use hermes_stagewhisper_plug.Callbacks.Recency.{
  touch, window_old, window_new, window_newest, put-move_to_end, get-drop_to-touch, touch-Unique,
}

pub data Call : Type 0 where
  get_call : String → Call
  put_call : String → Members → Call

unfoldable pub call : IdempotencyCache → Call → IdempotencyCache
call c (get_call k) = (get c k).0
call c (put_call k v) = put c k v

unfoldable pub run : IdempotencyCache → List Call → IdempotencyCache
run c [] = c
run c (m ∷ ms) = run (call c m) ms

-- The ideal cache never evicts: the newest `capacity` entries of it are the window that counts.
abbrev used : Dict Members → String → Option Members → Dict Members
used h k none = h
used h k (some v) = touch h k v

unfoldable pub note : ℕ → Dict Members → Call → Dict Members
note n h (get_call k) = used h k (Dict.get (Dict.drop_to n h) k)
note n h (put_call k v) = touch h k v

unfoldable pub history : ℕ → Dict Members → List Call → Dict Members
history n h [] = h
history n h (m ∷ ms) = history n (note n h m) ms

-- A cache of `n` entries whose uses were `h`.
abbrev pub cache_of : ℕ → Dict Members → IdempotencyCache
cache_of n h = record { capacity = n; store = Dict.drop_to n h }

abbrev holding : ℕ → Dict Members → IdempotencyCache
holding n d = record { capacity = n; store = d }

module _ (n : ℕ) (h : Dict Members) (pos : 0 < n) (u : Unique h) where
  get_window : (k : String) → (get (cache_of n h) k).0 ≡ cache_of n (note n h (get_call k))
  unfolding get note Dict.has Dict.move_to_end
  get_window k = elim (Option-cases (Dict.get (Dict.drop_to n h) k)) [
    | inl e ↦ rw (e, get, Dict.has)
    | inr (v, e) ↦
        rw (e, get, Dict.has, Dict.move_to_end) (ap (holding n) (window_old n h k v pos u e))
  ]

  put_window :
      (k : String) (v : Members) → put (cache_of n h) k v ≡ cache_of n (note n h (put_call k v))
  unfolding put note Dict.has
  put_window k v = elim (Option-cases (Dict.get (Dict.drop_to n h) k)) [
    | inl e ↦ rw (e, put, Dict.has) (ap (holding n) (window_new n h k v pos u e))
    | inr (w, e) ↦
        rw (e, put, Dict.has)
          (ap (holding n) (put-move_to_end (Dict.drop_to n h) k v w e ∙ window_old n h k v pos u e))
  ]

  note-Unique : (m : Call) → Unique (note n h m)
  unfolding note
  note-Unique (get_call k) = elim (Option-cases (Dict.get (Dict.drop_to n h) k)) [
    | inl e ↦ rw e u
    | inr (v, e) ↦ rw e (touch-Unique h k v u)
  ]
  note-Unique (put_call k v) = touch-Unique h k v u

call_window :
    (n : ℕ) (h : Dict Members) (m : Call)
    → 0 < n
    → Unique h
    → call (cache_of n h) m ≡ cache_of n (note n h m)
unfolding call
call_window n h (get_call k) pos u = get_window n h pos u k
call_window n h (put_call k v) pos u = put_window n h pos u k v

run_window :
    (n : ℕ) (h : Dict Members) (ms : List Call)
    → 0 < n
    → Unique h
    → run (cache_of n h) ms ≡ cache_of n (history n h ms)
unfolding run history
run_window n h [] pos u = refl
run_window n h (m ∷ ms) pos u =
    rw (call_window n h m pos u) (run_window n (note n h m) ms pos (note-Unique n h pos u m))

history-Unique :
    (n : ℕ) (h : Dict Members) (ms : List Call) → 0 < n → Unique h → Unique (history n h ms)
unfolding history
history-Unique n h [] pos u = u
history-Unique n h (m ∷ ms) pos u = history-Unique n (note n h m) ms pos (note-Unique n h pos u m)

-- After any calls on a new cache it holds exactly the most recently used entries of the history,
-- as many as its capacity (which is at least 1), in the order of use and with no key twice; so
-- what is evicted is always the least recently used. A `put` is a use, and a `get` is one if the
-- key is held.
pub run-history :
    (capacity : ℕ) (ms : List Call)
    → (run (init capacity) ms ≡ cache_of (max 1 capacity) (history (max 1 capacity) [] ms))
      × (length (run (init capacity) ms).store ≤ max 1 capacity)
      × Unique (run (init capacity) ms).store
unfolding init Dict.drop_to
run-history capacity ms =
    let n : ℕ = max 1 capacity in
    let e = run_window n [] ms (omega arith) tt in
    (
      e,
      rw e (length-drop_to-le n (history n [] ms)),
      rw e (drop_to-Unique n (history n [] ms) (history-Unique n [] ms (omega arith) tt)),
    )

get_held :
    (n : ℕ) (d : Dict Members) (k : String) (v : Members)
    → Dict.get d k ≡ some v
    → (get (holding n d) k).1 ≡ some v
unfolding get Dict.has
get_held n d k v h = rw (h, get, Dict.has) (get-move_to_end d k k ∙ h)

-- The same of one `put`, of any cache that can hold an entry.
pub get_after_put :
    (c : IdempotencyCache) (k : String) (v : Members)
    → 0 < c.capacity
    → (get (put c k v) k).1 ≡ some v
unfolding put Dict.has
get_after_put c k v pos = elim (Option-cases (Dict.get c.store k)) [
  | inl e ↦
      rw (e, put, Dict.has) (get_held c.capacity _ k v (window_newest c.capacity c.store k v pos e))
  | inr (w, e) ↦
      rw (e, put, Dict.has)
        (get_held c.capacity _ k v (get-put_self (Dict.move_to_end c.store k) k v))
]

-- What was put is in the cache.
pub put-contains :
    (c : IdempotencyCache) (k : String) (v : Members)
    → 0 < c.capacity
    → contains (put c k v) k ≡ true
unfolding put contains Dict.has
put-contains c k v pos = elim (Option-cases (Dict.get c.store k)) [
  | inl e ↦ rw (e, put, Dict.has) (rw (window_newest c.capacity c.store k v pos e, Dict.has) refl)
  | inr (w, e) ↦
      rw (e, put, Dict.has) (rw (get-put_self (Dict.move_to_end c.store k) k v, Dict.has) refl)
]

-- Whatever was called before, a `get` right after a `put` returns the payload that was put.
pub get-put_cached :
    (capacity : ℕ) (ms : List Call) (k : String) (v : Members)
    → (get (put (run (init capacity) ms) k v) k).1 ≡ some v
get-put_cached capacity ms k v =
    let n : ℕ = max 1 capacity in
    let h = history n [] ms in
    rw (run-history capacity ms).0 (
      rw (put_window n h (omega arith) (history-Unique n [] ms (omega arith) tt) k v)
        (unfold note in get_held n _ k v (get-drop_to-touch n h k v (omega arith))))

some_is_not-none : (v : Members) → some v ≡ none → ⊥
some_is_not-none v h = cc

-- A `get` that finds nothing changes nothing.
pub get_miss : (c : IdempotencyCache) (k : String) → (get c k).1 ≡ none → (get c k).0 ≡ c
unfolding get Dict.has
get_miss c k h = elim (Option-cases (Dict.get c.store k)) [
  | inl e ↦ rw (e, get, Dict.has)
  | inr (v, e) ↦ absurd (some_is_not-none v (sym (get_held c.capacity c.store k v e) ∙ h))
]
