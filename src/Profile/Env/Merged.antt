-- ===== src/Profile/Env/Merged.antt =====
-- profile_seed.py: what is merged into an environment file is read back from it.
use hermes_stagewhisper_plug.Prelude.{
  ◌≡◌, refl, ◌∙◌, ap, sym, inl, inr, String, false, Option, none, some, List, [], ◌∷◌, ◌++◌, ◌==◌,
  map, keep_if, Bool-cases, Option-cases, eq_iff, arith,
}
use hermes_stagewhisper_plug.Dict
use hermes_stagewhisper_plug.Dict.{Dict}
use hermes_stagewhisper_plug.Dict.Laws.{get-put}
use hermes_stagewhisper_plug.Profile.Env.{
  parse_env_line, parse_env_lines, is_kept, env_line, merge_env_lines,
}
use hermes_stagewhisper_plug.Profile.Env.Kept.{kept-get}
use hermes_stagewhisper_plug.Profile.Env.Plain.{IsPlain, env_line-written, parse_env_line-written}

-- The names and values to merge: plain, and no name twice.
abbrev pub AllPlain : Dict String → Type 0
AllPlain [] = Unit
AllPlain ((key, value) ∷ additions) =
    IsPlain key value × (Dict.has additions key ≡ false) × AllPlain additions

-- A variable of what is merged, or else of what was there.
abbrev pub first_in : Dict String → Dict String → String → Option String
first_in additions values key = elim (Dict.get additions key) [
  | none ↦ Dict.get values key
  | some v ↦ some v
]

has-none : (d : Dict String) (key : String) → Dict.has d key ≡ false → Dict.get d key ≡ none
unfolding Dict.has
has-none d key h = elim (Option-cases (Dict.get d key)) [
  | inl e ↦ e
  | inr (v, e) ↦ absurd (ground (arith, e, h))
]

first-put :
    (additions values : Dict String) (k v key : String)
    → Dict.get additions k ≡ none
    → first_in additions (Dict.put values k v) key ≡ first_in ((k, v) ∷ additions) values key
unfolding Dict.get
first-put additions values k v key fresh = elim (Bool-cases (k == key)) [
  | inl e ↦
      (let gone : Dict.get additions key ≡ none =
          ap (Dict.get additions) (sym ((eq_iff k key).0 e)) ∙ fresh in
        ground (arith, e, gone, get-put values k key v))
  | inr e ↦ elim (Option-cases (Dict.get additions key)) [
    | inl o ↦ ground (arith, e, o, get-put values k key v)
    | inr (w, o) ↦ ground (arith, e, o, get-put values k key v)
  ]
]

get-written :
    (additions values : Dict String) (key : String)
    → AllPlain additions
    → Dict.get (parse_env_lines values (map env_line additions)) key ≡ first_in additions values key
unfolding parse_env_lines Dict.get
get-written [] values key h = refl
get-written ((k, v) ∷ additions) values key (plain, fresh, rest) =
    ap (λ d. Dict.get (parse_env_lines d (map env_line additions)) key)
      (ap (parse_env_line values) (env_line-written k v) ∙ parse_env_line-written values k v plain)
    ∙ get-written additions (Dict.put values k v) key rest
    ∙ first-put additions values k v key (has-none additions k fresh)

parse_env_lines-append :
    (values : Dict String) (xs ys : List String)
    → parse_env_lines values (xs ++ ys) ≡ parse_env_lines (parse_env_lines values xs) ys
unfolding parse_env_lines
parse_env_lines-append values [] ys = refl
parse_env_lines-append values (x ∷ xs) ys = parse_env_lines-append (parse_env_line values x) xs ys

first_in-kept :
    (additions values others : Dict String) (key : String)
    → (Dict.has additions key ≡ false → Dict.get values key ≡ Dict.get others key)
    → first_in additions values key ≡ first_in additions others key
unfolding Dict.has
first_in-kept additions values others key h = elim (Option-cases (Dict.get additions key)) [
  | inl e ↦ rw (first_in, e) (h (rw (Dict.has, e) refl))
  | inr (v, e) ↦ rw (first_in, e) refl
]

-- Whatever stood in a member's environment file, after `merge_env_file` each variable that was merged
-- reads back with its value, and any other reads as it did before the merge. The names are letters,
-- digits and underscores, none twice, and the values printable, without spaces and quotes.
pub merge_env_lines-get :
    (additions : Dict String) (lines : List String) (key : String)
    → AllPlain additions
    → Dict.get (parse_env_lines [] (merge_env_lines additions lines)) key
      ≡ first_in additions (parse_env_lines [] lines) key
unfolding merge_env_lines
merge_env_lines-get additions lines key plain =
    ap (λ d. Dict.get d key)
      (parse_env_lines-append [] (keep_if (is_kept additions) lines) (map env_line additions))
    ∙ get-written additions (parse_env_lines [] (keep_if (is_kept additions) lines)) key plain
    ∙ first_in-kept additions (parse_env_lines [] (keep_if (is_kept additions) lines))
        (parse_env_lines [] lines) key (λ other. kept-get additions [] [] lines key other refl)
