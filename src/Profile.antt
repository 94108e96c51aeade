-- ===== src/Profile.antt =====
-- profile_seed.py: which credentials of the gateway's own profile a member's profile gets.
pub mod Env
pub mod Trimmed
use hermes_stagewhisper_plug.Prelude.{
  ℕ, zero, suc, String, Bool, true, false, not, ◌&&◌, Option, none, some, List, [], ◌∷◌, ◌++◌, ◌==◌,
  if◌then◌else◌,
}
use hermes_stagewhisper_plug.Json
use hermes_stagewhisper_plug.Json.{
  Json, Items, Members, null, boolean, int, negative, float, string, array, object, nil, cons, end,
  member, as_string, as_object,
}
use hermes_stagewhisper_plug.Text.{is_empty, one_of, starts_with, drop_chars, strip}
use hermes_stagewhisper_plug.Settings.{Floats, truthy}
use hermes_stagewhisper_plug.Llm.Request.Checks.{items_of}

-- `{…, key: value}`: a key that is there keeps its place
unfoldable pub put_member : Members → String → Json → Members
put_member end key value = member key value end
put_member (member k v ms) key value =
    let rest = put_member ms key value in if k == key then member k value ms else member k v rest

-- the texts of one character each, in order
abbrev characters : String → List Json
characters String.[] = []
characters (String.◌∷◌ c s) = string (String.◌∷◌ c String.[]) ∷ characters s

abbrev key_list : Members → List Json
key_list end = []
key_list (member k v ms) = string k ∷ key_list ms

-- What a loop over `value or []`, and `list(value or [])`, runs through; `none` is the `TypeError`.
unfoldable pub iterate : Floats → Json → Option (List Json)
unfolding items_of truthy
iterate f (array xs) = some (items_of xs)
iterate f (string s) = some (characters s)
iterate f (object ms) = some (key_list ms)
iterate f null = some []
iterate f (boolean b) = if truthy f (boolean b) then none else some []
iterate f (int n) = if truthy f (int n) then none else some []
iterate f (negative n) = none
iterate f (float s) = if truthy f (float s) then none else some []

-- name not in names: names.append(name), of a name that is not empty
unfoldable pub add_name : String → List String → List String
add_name name names =
    if is_empty name then names else if one_of names name then names else names ++ name ∷ []

abbrev source_of : Json → Json
source_of entry = elim (as_object entry) [ none ↦ null | some ms ↦ Json.get ms "source" ]

-- the body of the inner loop of `credential_env_vars`
unfoldable pub add_source : List String → Json → List String
unfolding strip starts_with drop_chars add_name
add_source names entry = elim (as_string (source_of entry)) [
  | none ↦ names
  | some source ↦
      if starts_with source "env:" then add_name (strip (drop_chars 4 source)) names else names
]

unfoldable pub add_sources : List String → List Json → List String
unfolding add_source
add_sources names [] = names
add_sources names (entry ∷ entries) = add_sources (add_source names entry) entries

unfoldable pub env_vars_from : Floats → List String → Members → Option (List String)
unfolding iterate add_sources
env_vars_from f names end = some names
env_vars_from f names (member k entries pool) = elim (iterate f entries) [
  | none ↦ none
  | some xs ↦ env_vars_from f (add_sources names xs) pool
]

-- `credential_env_vars`
unfoldable pub credential_env_vars : Floats → Members → Option (List String)
unfolding env_vars_from
credential_env_vars f auth = elim (as_object (Json.get auth "credential_pool")) [
  | none ↦ some []
  | some pool ↦ env_vars_from f [] pool
]

-- `_fallback_entries`
abbrev fallback_models : Json → List Json → List Json
fallback_models null entries = entries
fallback_models (array xs) entries = entries ++ items_of xs
fallback_models (boolean b) entries = entries ++ boolean b ∷ []
fallback_models (int n) entries = entries ++ int n ∷ []
fallback_models (negative n) entries = entries ++ negative n ∷ []
fallback_models (float s) entries = entries ++ float s ∷ []
fallback_models (string s) entries = entries ++ string s ∷ []
fallback_models (object ms) entries = entries ++ object ms ∷ []

unfoldable pub fallback_entries : Floats → Members → Option (List Json)
unfolding iterate items_of
fallback_entries f inherited = elim (iterate f (Json.get inherited "fallback_providers")) [
  | none ↦ none
  | some entries ↦ some (fallback_models (Json.get inherited "fallback_model") entries)
]

-- if isinstance(value, str) and value: wanted.add(value), of a set as a list
abbrev pub add_text : Json → List String → List String
add_text value wanted = elim (as_string value) [ none ↦ wanted | some s ↦ add_name s wanted ]

-- `_add_fallback_entry_provider`
unfoldable pub add_fallback_entry_provider : List String → Json → List String
unfolding add_name
add_fallback_entry_provider wanted entry = elim (as_object entry) [
  | none ↦ add_text entry wanted
  | some ms ↦ add_text (Json.get ms "provider") wanted
]

unfoldable pub add_fallbacks : List String → List Json → List String
unfolding add_fallback_entry_provider
add_fallbacks wanted [] = wanted
add_fallbacks wanted (entry ∷ entries) =
    add_fallbacks (add_fallback_entry_provider wanted entry) entries

-- (inherited_config.get("model") or {}).get("provider"); `none` is the `AttributeError` of a model
-- that is true and no dict
unfoldable pub model_provider : Floats → Members → Option Json
unfolding truthy
model_provider f inherited = elim (as_object (Json.get inherited "model")) [
  | some ms ↦ some (Json.get ms "provider")
  | none ↦ if truthy f (Json.get inherited "model") then none else some null
]

unfoldable pub member_providers : Floats → Members → Option (List String)
unfolding model_provider fallback_entries add_fallbacks add_name
member_providers f inherited = elim (model_provider f inherited) [
  | none ↦ none
  | some provider ↦ elim (fallback_entries f inherited) [
    | none ↦ none
    | some entries ↦ some (add_fallbacks (add_text provider []) entries)
  ]
]

abbrev stripped_name : Json → List String → List String
stripped_name value names = elim (as_string value) [
  | none ↦ names
  | some s ↦ add_name (strip s) names
]

-- the body of the loop of `direct_key_env_vars`
unfoldable pub add_key_env : List String → Json → List String
unfolding add_name strip
add_key_env names entry = elim (as_object entry) [
  | none ↦ names
  | some ms ↦
      stripped_name (Json.get ms "api_key_env") (stripped_name (Json.get ms "key_env") names)
]

unfoldable pub add_key_envs : List String → List Json → List String
unfolding add_key_env
add_key_envs names [] = names
add_key_envs names (entry ∷ entries) = add_key_envs (add_key_env names entry) entries

abbrev model_candidate : Json → List Json
model_candidate model = elim (as_object model) [ none ↦ [] | some ms ↦ object ms ∷ [] ]

unfoldable pub direct_key_env_vars : Floats → Members → Option (List String)
unfolding fallback_entries add_key_envs
direct_key_env_vars f inherited = elim (fallback_entries f inherited) [
  | none ↦ none
  | some entries ↦ some (add_key_envs [] (entries ++ model_candidate (Json.get inherited "model")))
]

-- {name: entries for name, entries in pool.items() if name in wanted}
unfoldable pub trim_pool : List String → Members → Members
trim_pool wanted end = end
trim_pool wanted (member name entries pool) =
    let rest = trim_pool wanted pool in
    if one_of wanted name then member name entries rest else rest

-- `member_auth_payload`; `none` where `member_providers` raises
unfoldable pub member_auth_payload : Floats → Members → Members → Option Members
unfolding member_providers trim_pool put_member
member_auth_payload f auth inherited = elim (as_object (Json.get auth "credential_pool")) [
  | none ↦ some auth
  | some pool ↦ elim (member_providers f inherited) [
    | none ↦ none
    | some wanted ↦ some (put_member auth "credential_pool" (object (trim_pool wanted pool)))
  ]
]
