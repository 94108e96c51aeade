-- ===== src/Dict.antt =====
-- Python's `dict` and `OrderedDict` with string keys: the entries in the order of iteration.
pub mod Laws
use hermes_stagewhisper_plug.Prelude.{
  ℕ, String, Bool, true, false, Option, none, some, List, [], ◌∷◌, ◌++◌, map, ◌==◌, length, leb,
  if◌then◌else◌,
}

abbrev pub Dict {ℓ} : Type ℓ → Type ℓ
Dict V = List (String × V)

module _ {ℓ} {V : Type ℓ} where
  -- d.get(k)
  unfoldable pub get : Dict V → String → Option V
  get [] k = none
  get ((j, v) ∷ d) k = if j == k then some v else get d k

  -- k in d
  unfoldable pub has : Dict V → String → Bool
  unfolding get
  has d k = elim (get d k) [ none ↦ false | some _ ↦ true ]

  -- d[k] = v: a key that is there keeps its place, a new one goes to the end
  unfoldable pub put : Dict V → String → V → Dict V
  put [] k v = (k, v) ∷ []
  put ((j, w) ∷ d) k v = let rest = put d k v in if j == k then (j, v) ∷ d else (j, w) ∷ rest

  -- d.pop(k, None)
  unfoldable pub remove : Dict V → String → Dict V
  remove [] k = []
  remove ((j, v) ∷ d) k = let rest = remove d k in if j == k then rest else (j, v) ∷ rest

  -- d.move_to_end(k), of a key that is there
  unfoldable pub move_to_end : Dict V → String → Dict V
  unfolding get remove
  move_to_end d k = elim (get d k) [ none ↦ d | some v ↦ remove d k ++ (k, v) ∷ [] ]

  -- d.popitem(last=False), and d.pop(next(iter(d))): the oldest entry goes
  abbrev pub drop_oldest : Dict V → Dict V
  drop_oldest [] = []
  drop_oldest (e ∷ d) = d

  abbrev pub keys : Dict V → List String
  keys d = map (λ e. e.0) d

  abbrev pub values : Dict V → List V
  values d = map (λ e. e.1) d

  -- while len(d) > n: d.popitem(last=False)
  unfoldable pub drop_to : ℕ → Dict V → Dict V
  drop_to n [] = []
  drop_to n (e ∷ d) = let rest = drop_to n d in if leb (length (e ∷ d)) n then e ∷ d else rest
