-- ===== src/Callbacks/Recency.antt =====
-- Entries in the order of use, and the window of the newest of them.
use hermes_stagewhisper_plug.Prelude.{
  ℕ, zero, suc, ◌+◌, ◌≤◌, ◌<◌, String, ◌≡◌, refl, ◌∙◌, sym, none, some, [], ◌∷◌, ◌++◌, ◌==◌, eq_iff,
  eq_refl, arith, length, length-append, if◌then◌else◌,
}
use hermes_stagewhisper_plug.Dict.{Dict, get, put, remove, move_to_end, drop_to}
use hermes_stagewhisper_plug.Dict.Laws.{
  Unique, length-remove, remove_absent, get-remove, get-put_self, get-append, append-Unique,
  remove-Unique, length-drop_to-le, drop_to-Unique,
}

module _ {ℓ} {V : Type ℓ} where
  -- to use an entry: it is the newest now
  abbrev pub touch : Dict V → String → V → Dict V
  touch d k v = remove d k ++ (k, v) ∷ []

  pub drop_to_all : (n : ℕ) (d : Dict V) → length d ≤ n → drop_to n d ≡ d
  unfolding drop_to
  drop_to_all n [] h = refl
  drop_to_all n (e ∷ d) h = ground arith

  -- one entry more behind a window
  pub drop_to-append :
      (n : ℕ) (d : Dict V) (e : String × V) → drop_to (suc n) (d ++ e ∷ []) ≡ drop_to n d ++ e ∷ []
  unfolding drop_to
  drop_to-append n [] e = ground arith
  drop_to-append n (x ∷ d) e = ground (arith, drop_to-append n d e, length-append d (e ∷ []))

  pub get-drop_to-none :
      (n : ℕ) (d : Dict V) (k : String) → get d k ≡ none → get (drop_to n d) k ≡ none
  unfolding get drop_to
  get-drop_to-none n [] k h = refl
  get-drop_to-none n ((j, v) ∷ d) k h = ground (arith, get-drop_to-none n d k)

  pub put-eq-append :
      (d : Dict V) (k : String) (v : V) → get d k ≡ none → put d k v ≡ d ++ (k, v) ∷ []
  unfolding get put
  put-eq-append [] k v h = refl
  put-eq-append ((j, w) ∷ d) k v h = ground (arith, put-eq-append d k v)

  remove-put : (d : Dict V) (k : String) (v : V) → remove (put d k v) k ≡ remove d k
  unfolding put remove
  remove-put [] k v = ground (arith, eq_refl k)
  remove-put ((j, w) ∷ d) k v = ground (arith, eq_refl k, remove-put d k v, eq_iff j k)

  remove-append : (d e : Dict V) (k : String) → remove (d ++ e) k ≡ remove d k ++ remove e k
  unfolding remove
  remove-append [] e k = refl
  remove-append ((j, w) ∷ d) e k = ground (arith, remove-append d e k)

  put-append :
      (d e : Dict V) (k : String) (v : V) → get d k ≡ none → put (d ++ e) k v ≡ d ++ put e k v
  unfolding get put
  put-append [] e k v h = refl
  put-append ((j, w) ∷ d) e k v h = ground (arith, put-append d e k v)

  get-remove_self : (d : Dict V) (k : String) → get (remove d k) k ≡ none
  get-remove_self d k = get-remove d k k ∙ simp eq_refl

  -- `self._by_task[k] = v` and then `move_to_end`
  pub move_to_end-put : (d : Dict V) (k : String) (v : V) → move_to_end (put d k v) k ≡ touch d k v
  unfolding move_to_end
  move_to_end-put d k v = rw (get-put_self d k v, move_to_end) (rw remove-put)

  -- `move_to_end` and then `self._store[k] = v`
  pub put-move_to_end :
      (d : Dict V) (k : String) (v w : V)
      → get d k ≡ some w
      → put (move_to_end d k) k v ≡ touch d k v
  unfolding move_to_end put
  put-move_to_end d k v w h =
      rw (h, move_to_end)
        (put-append (remove d k) ((k, w) ∷ []) k v (get-remove_self d k)
          ∙ ground (arith, eq_refl k))

  length-remove-ge : (d : Dict V) (k : String) → Unique d → length d ≤ length (remove d k) + 1
  unfolding remove
  length-remove-ge [] k u = omega arith
  length-remove-ge ((j, w) ∷ d) k u =
      ground (arith, length-remove-ge d k u.1, remove_absent d k, eq_iff j k)

  drop_to-remove-drop_to :
      (n : ℕ) (d : Dict V) (k : String)
      → Unique d
      → drop_to n (remove (drop_to (suc n) d) k) ≡ drop_to n (remove d k)
  unfolding drop_to remove
  drop_to-remove-drop_to n [] k u = refl
  drop_to-remove-drop_to n ((j, w) ∷ d) k u =
      ground (arith, drop_to-remove-drop_to n d k u.1, length-remove-ge d k u.1)

  -- What a window keeps after a use depends on the window alone.
  pub drop_to-touch-drop_to :
      (n : ℕ) (d : Dict V) (k : String) (v : V)
      → 0 < n
      → Unique d
      → drop_to n (touch (drop_to n d) k v) ≡ drop_to n (touch d k v)
  drop_to-touch-drop_to zero d k v h u = absurd (omega arith)
  drop_to-touch-drop_to (suc n) d k v h u =
      rw (drop_to-append, drop_to-append, drop_to-remove-drop_to n d k u)

  pub touch-Unique : (d : Dict V) (k : String) (v : V) → Unique d → Unique (touch d k v)
  touch-Unique d k v u = append-Unique (remove d k) k v (remove-Unique d k u) (get-remove_self d k)

  pub get-touch :
      (d : Dict V) (k j : String) (v : V)
      → get (touch d k v) j ≡ (if k == j then some v else get d j)
  unfolding get
  get-touch d k j v =
      get-append (remove d k) ((k, v) ∷ []) j ∙ ground (arith, get-remove d k j, eq_iff k j)

  pub length-touch_old :
      (d : Dict V) (k : String) (v : V) {w : V}
      → Unique d
      → get d k ≡ some w
      → length (touch d k v) ≡ length d
  length-touch_old d k v u h =
      omega (arith, length-append (remove d k) ((k, v) ∷ []), length-remove d k u h)

  -- Writing a key of a window, or a new key, and trimming the window, is the window of the use.
  pub window_old :
      (n : ℕ) (h : Dict V) (k : String) (v : V) {w : V}
      → 0 < n
      → Unique h
      → get (drop_to n h) k ≡ some w
      → touch (drop_to n h) k v ≡ drop_to n (touch h k v)
  window_old n h k v {w} pos u e =
      sym (
        drop_to_all n _ (
          omega (
            arith,
            length-touch_old (drop_to n h) k v {w = w} (drop_to-Unique n h u) e,
            length-drop_to-le n h,
          )))
      ∙ drop_to-touch-drop_to n h k v pos u

  pub window_new :
      (n : ℕ) (h : Dict V) (k : String) (v : V)
      → 0 < n
      → Unique h
      → get (drop_to n h) k ≡ none
      → drop_to n (put (drop_to n h) k v) ≡ drop_to n (touch h k v)
  window_new n h k v pos u e =
      rw (put-eq-append (drop_to n h) k v e)
        (rw (remove_absent (drop_to n h) k e) at (drop_to-touch-drop_to n h k v pos u))

  -- The newest entry is in every window.
  pub get-drop_to-touch :
      (n : ℕ) (d : Dict V) (k : String) (v : V) → 0 < n → get (drop_to n (touch d k v)) k ≡ some v
  get-drop_to-touch zero d k v h = absurd (omega arith)
  get-drop_to-touch (suc n) d k v h =
      rw (drop_to-append, get-append)
        (rw (get-drop_to-none n (remove d k) k (get-remove_self d k))
          (unfold get in ground (arith, eq_refl k)))

  pub window_newest :
      (n : ℕ) (d : Dict V) (k : String) (v : V)
      → 0 < n
      → get d k ≡ none
      → get (drop_to n (put d k v)) k ≡ some v
  window_newest n d k v pos h =
      rw (put-eq-append d k v h) (rw (remove_absent d k h) at (get-drop_to-touch n d k v pos))
