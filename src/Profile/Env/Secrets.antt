-- ===== src/Profile/Env/Secrets.antt =====
-- profile_seed.py: which variables `copy_provider_secrets` passes on.
use hermes_stagewhisper_plug.Prelude.{
  ◌≡◌, refl, ◌∙◌, inl, inr, String, Bool, true, false, not, ◌&&◌, Option, none, some, List, [], ◌∷◌,
  ◌==◌, if◌then◌else◌, Bool-cases, Option-cases, eq_iff, eq_refl, arith,
}
use mathlib.Core.Path.{subst}
use hermes_stagewhisper_plug.Dict
use hermes_stagewhisper_plug.Dict.{Dict}
use hermes_stagewhisper_plug.Text.{is_empty, one_of}
use hermes_stagewhisper_plug.Profile.Env.{wanted_secrets, missing_secrets}

-- A variable that is set, and not to "".
abbrev pub set_value : Dict String → String → Option String
set_value env key = elim (Dict.get env key) [
  | none ↦ none
  | some v ↦ if is_empty v then none else some v
]

other_name :
    (env : Dict String) (name : String) (names : List String) (key : String)
    → name == key ≡ false
    → Dict.get (wanted_secrets env names) key
      ≡ (if one_of names key then set_value env key else none)
    → Dict.get (wanted_secrets env (name ∷ names)) key
      ≡ (if one_of (name ∷ names) key then set_value env key else none)
unfolding wanted_secrets Dict.get
other_name env name names key e h = elim (Option-cases (Dict.get env name)) [
  | inl n ↦ rw (n, wanted_secrets, e) h
  | inr (v, n) ↦ elim (Bool-cases (is_empty v)) [
    | inl b ↦ rw (n, wanted_secrets, b, e) h
    | inr b ↦ rw (n, wanted_secrets, b, e) h
  ]
]

own_name :
    (env : Dict String) (name : String) (names : List String)
    → Dict.get (wanted_secrets env names) name
      ≡ (if one_of names name then set_value env name else none)
    → Dict.get (wanted_secrets env (name ∷ names)) name
      ≡ (if one_of (name ∷ names) name then set_value env name else none)
unfolding wanted_secrets Dict.get
own_name env name names h = elim (Option-cases (Dict.get env name)) [
  | inl n ↦ rw (n, wanted_secrets, eq_refl) (ground (arith, h, n))
  | inr (v, n) ↦ elim (Bool-cases (is_empty v)) [
    | inl b ↦ rw (n, wanted_secrets, b, eq_refl) (ground (arith, h, n, b))
    | inr b ↦ rw (n, wanted_secrets, b, eq_refl) (ground (arith, n, b))
  ]
]

-- What is wanted and not passed on.
lacking :
    (secrets : Dict String) (key : String) (wanted : Bool) (value : Option String)
    → Dict.get secrets key ≡ (if wanted then value else none)
    → (wanted && not (Dict.has secrets key))
      ≡ (wanted && elim value [ none ↦ true | some v ↦ false ])
unfolding Dict.has
lacking secrets key false value h = refl
lacking secrets key true none h = rw (h, Dict.has) refl
lacking secrets key true (some v) h = rw (h, Dict.has) refl

get-secrets :
    (env : Dict String) (names : List String) (key : String)
    → Dict.get (wanted_secrets env names) key
      ≡ (if one_of names key then set_value env key else none)
unfolding wanted_secrets Dict.get
get-secrets env [] key = refl
get-secrets env (name ∷ names) key = elim (Bool-cases (name == key)) [
  | inl e ↦
      (let same = (eq_iff name key).0 e in
        subst
          (λ (k : String).
            Dict.get (wanted_secrets env (name ∷ names)) k
            ≡ (if one_of (name ∷ names) k then set_value env k else none))
          same (own_name env name names (get-secrets env names name)))
  | inr e ↦ other_name env name names key e (get-secrets env names key)
]

one_of-missing :
    (secrets : Dict String) (names : List String) (key : String)
    → one_of (missing_secrets secrets names) key ≡ one_of names key && not (Dict.has secrets key)
unfolding missing_secrets
one_of-missing secrets [] key = refl
one_of-missing secrets (name ∷ names) key =
    ground (arith, eq_iff name key, one_of-missing secrets names key)

-- `copy_provider_secrets` passes on a variable exactly where it is wanted and set in the gateway's
-- environment file to a value that is not empty, and warns of exactly the wanted ones that are not.
pub wanted_secrets-exact :
    (env : Dict String) (names : List String) (key : String)
    → (Dict.get (wanted_secrets env names) key
        ≡ (if one_of names key then set_value env key else none))
      × (one_of (missing_secrets (wanted_secrets env names) names) key
          ≡ one_of names key && elim (set_value env key) [ none ↦ true | some v ↦ false ])
wanted_secrets-exact env names key = (
  get-secrets env names key,
  one_of-missing (wanted_secrets env names) names key
      ∙ lacking (wanted_secrets env names) key (one_of names key) (set_value env key)
          (get-secrets env names key),
)
