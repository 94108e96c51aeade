-- ===== src/Dict/Laws.antt =====
-- The laws of dictionaries, in the form that has no side condition.
use hermes_stagewhisper_plug.Prelude.{
  ℕ, ◌+◌, ◌≤◌, String, ◌≡◌, refl, none, some, [], ◌∷◌, ◌++◌, ◌==◌, eq_iff, eq_refl, arith, length,
  length-append, Option-cases, inl, inr, ◌∙◌, if◌then◌else◌,
}
use hermes_stagewhisper_plug.Dict.{Dict, get, put, remove, move_to_end, drop_to}

module _ {ℓ} {V : Type ℓ} where
  pub get-put :
      (d : Dict V) (k j : String) (v : V) → get (put d k v) j ≡ (if k == j then some v else get d j)
  unfolding get put
  get-put [] k j v = refl
  get-put ((i, w) ∷ d) k j v = ground (arith, eq_iff k j, eq_iff i k, eq_iff i j, get-put d k j v)

  pub get-put_self : (d : Dict V) (k : String) (v : V) → get (put d k v) k ≡ some v
  get-put_self d k v = rw (get-put, eq_refl)

  pub get-remove :
      (d : Dict V) (k j : String) → get (remove d k) j ≡ (if k == j then none else get d j)
  unfolding get remove
  get-remove [] k j = ground arith
  get-remove ((i, w) ∷ d) k j = ground (arith, eq_iff k j, eq_iff i k, eq_iff i j, get-remove d k j)

  pub get-append :
      (d e : Dict V) (k : String)
      → get (d ++ e) k ≡ elim (get d k) [ none ↦ get e k | some v ↦ some v ]
  unfolding get
  get-append [] e k = refl
  get-append ((i, w) ∷ d) e k = ground (arith, get-append d e k)

  pub get-move_to_end : (d : Dict V) (k j : String) → get (move_to_end d k) j ≡ get d j
  unfolding move_to_end get
  get-move_to_end d k j = elim (Option-cases (get d k)) [
    | inl e ↦ rw (e, move_to_end)
    | inr (v, e) ↦
        rw (e, move_to_end)
          (get-append (remove d k) ((k, v) ∷ []) j ∙ ground (arith, get-remove d k j, eq_iff k j))
  ]

  pub length-remove-le : (d : Dict V) (k : String) → length (remove d k) ≤ length d
  unfolding remove
  length-remove-le [] k = omega arith
  length-remove-le ((i, w) ∷ d) k = ground (arith, length-remove-le d k)

  -- writing a key adds at most one entry
  pub length-put-le : (d : Dict V) (k : String) (v : V) → length (put d k v) ≤ length d + 1
  unfolding put
  length-put-le [] k v = omega arith
  length-put-le ((i, w) ∷ d) k v = ground (arith, length-put-le d k v)

  pub length-drop_to-le : (n : ℕ) (d : Dict V) → length (drop_to n d) ≤ n
  unfolding drop_to
  length-drop_to-le n [] = omega arith
  length-drop_to-le n (e ∷ d) = ground (arith, length-drop_to-le n d)

  -- No key twice: what Python's dictionaries guarantee.
  abbrev pub Unique : Dict V → Type ℓ
  Unique [] = Unit
  Unique ((k, v) ∷ d) = (get d k ≡ none) × Unique d

  pub put-Unique : (d : Dict V) (k : String) (v : V) → Unique d → Unique (put d k v)
  unfolding put get
  put-Unique [] k v u = (refl, tt)
  put-Unique ((i, w) ∷ d) k v u =
      ground (arith, get-put d k i v, put-Unique d k v u.1, eq_iff i k, eq_iff k i)

  pub remove-Unique : (d : Dict V) (k : String) → Unique d → Unique (remove d k)
  unfolding remove
  remove-Unique [] k u = tt
  remove-Unique ((i, w) ∷ d) k u = ground (arith, get-remove d k i, remove-Unique d k u.1)

  pub append-Unique :
      (d : Dict V) (k : String) (v : V) → Unique d → get d k ≡ none → Unique (d ++ (k, v) ∷ [])
  unfolding get
  append-Unique [] k v u h = (refl, tt)
  append-Unique ((i, w) ∷ d) k v u h = (
    get-append d ((k, v) ∷ []) i ∙ ground (arith, eq_iff i k, eq_iff k i),
    append-Unique d k v u.1 (ground arith),
  )

  pub move_to_end-Unique : (d : Dict V) (k : String) → Unique d → Unique (move_to_end d k)
  unfolding move_to_end
  move_to_end-Unique d k u = elim (Option-cases (get d k)) [
    | inl e ↦ rw (e, move_to_end) u
    | inr (v, e) ↦
        rw (e, move_to_end)
          (append-Unique (remove d k) k v (remove-Unique d k u) (get-remove d k k ∙ simp eq_refl))
  ]

  pub drop_to-Unique : (n : ℕ) (d : Dict V) → Unique d → Unique (drop_to n d)
  unfolding drop_to
  drop_to-Unique n [] u = tt
  drop_to-Unique n (e ∷ d) u = ground (arith, drop_to-Unique n d u.1)

  pub remove_absent : (d : Dict V) (k : String) → get d k ≡ none → remove d k ≡ d
  unfolding remove get
  remove_absent [] k h = refl
  remove_absent ((i, w) ∷ d) k h = ground (arith, remove_absent d k)

  pub length-remove :
      (d : Dict V) (k : String) {v : V}
      → Unique d
      → get d k ≡ some v
      → length (remove d k) + 1 ≡ length d
  unfolding remove get
  length-remove [] k u h = cc
  length-remove ((i, w) ∷ d) k {v} u h =
      ground (arith, length-remove d k {v = v} u.1, remove_absent d i, eq_iff i k)

  pub length-move_to_end :
      (d : Dict V) (k : String) → Unique d → length (move_to_end d k) ≡ length d
  unfolding move_to_end
  length-move_to_end d k u = elim (Option-cases (get d k)) [
    | inl e ↦ rw (e, move_to_end)
    | inr (v, e) ↦
        rw (e, move_to_end)
          (omega (arith, length-append (remove d k) ((k, v) ∷ []), length-remove d k u e))
  ]

  -- writing a key that is there keeps the number of entries
  pub length-put_old :
      (d : Dict V) (k : String) (v : V) {w : V} → get d k ≡ some w → length (put d k v) ≡ length d
  unfolding put get
  length-put_old [] k v h = cc
  length-put_old ((i, x) ∷ d) k v {w} h = ground (arith, length-put_old d k v {w = w})
